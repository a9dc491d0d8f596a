-- ===== src/YieldOps/Price.antt =====
-- instructions/yield_ops: what the instructions do to the price of a share, as the code values the
-- vault: the balance of its buffer over the shares that it has issued.
use eventop.Base.{ap, ℕ, ◌-◌, ◌*◌, ◌≤◌, ◌<◌, ◌≡◌, ◌≢◌, arith, sym}
use eventop.Runtime.Result.{ok, >>-eq-ok}
use eventop.Runtime.Token.{TokenAccount, Ledger}
use eventop.Runtime.Anchor.{TransferContext, Solana, unsigned}
use eventop.Runtime.Laws.{IsSolana}
use eventop.Outcome.{Outcome}
use eventop.State.SubscriptionWallet.{wallet_transfer}
use eventop.Utils.Calculations.Rounding.{deposit_keeps_price, redeem_keeps_price}
use eventop.Utils.VaultOperations.{withdraw_from_vault_internal, vault_signer}
use eventop.YieldOps.Accounts.{YieldAccounts, try_accounts}
use eventop.YieldOps.Request.{Request, enable, deposit, withdraw, disable, run}
use eventop.YieldOps.EnableYield
use eventop.YieldOps.DepositToYield
use eventop.YieldOps.WithdrawFromYield
use eventop.YieldOps.DisableYield
use eventop.YieldOps.Trades.{
  IsBought, IsSold, enable-IsBought, deposit-IsBought, withdraw-IsSold, disable-IsSold,
}

-- The price after is at least the price before, written without division.
abbrev pub PriceKept : YieldAccounts → YieldAccounts → (before after : ℕ) → Type 0
PriceKept ctx ctx' before after =
    before * ctx'.yield_vault.state.total_shares_issued
    ≤ after * ctx.yield_vault.state.total_shares_issued

-- The transfer out of the vault's buffer.
abbrev vault_transfer : YieldAccounts → TransferContext
vault_transfer ctx = record {
  from = ctx.vault_buffer.key;
  to = ctx.wallet_token_account.key;
  authority = unsigned ctx.yield_vault.key;
  signer_seeds = vault_signer ctx.yield_vault.state;
}

module _ {solana : Solana} (laws : IsSolana solana) (ctx : YieldAccounts) (l : Ledger)
    {o : Outcome YieldAccounts} (apart : ctx.wallet_token_account.key ≢ ctx.vault_buffer.key)
    (loaded : l ctx.vault_buffer.key ≡ ctx.vault_buffer.state)
    (issued : 0 < ctx.yield_vault.state.total_shares_issued) where
  open laws use {transfer_debits, transfer_credits}

  bought_price :
      (d s : ℕ)
      → IsBought solana ctx l d s o
      → PriceKept ctx o.accounts ctx.vault_buffer.state.amount
          (o.ledger ctx.vault_buffer.key).amount
  bought_price d s b =
      let c =
        wallet_transfer ctx.subscription_wallet ctx.wallet_token_account.key ctx.vault_buffer.key in
      let paid = transfer_credits c d l o.ledger apart b.paid in
      let kept =
        deposit_keeps_price d ctx.yield_vault.state.total_shares_issued
          ctx.vault_buffer.state.amount issued (b.priced issued) in
      rw (paid, b.shares, loaded) kept

  sold_price :
      (s v : ℕ)
      → s ≤ ctx.yield_vault.state.total_shares_issued
      → IsSold solana ctx l s v o
      → PriceKept ctx o.accounts ctx.vault_buffer.state.amount
          (o.ledger ctx.vault_buffer.key).amount
  unfolding withdraw_from_vault_internal
  sold_price s v le b =
      let shares = ctx.yield_vault.state.total_shares_issued in
      let paid = transfer_debits (vault_transfer ctx) v l o.ledger (λ q. apart (sym q)) b.paid in
      let value = ap (λ (t : TokenAccount). t.amount) loaded in
      let left : o.accounts.yield_vault.state.total_shares_issued ≡ shares - s =
        omega (arith, b.shares) in
      let rest : (o.ledger ctx.vault_buffer.key).amount ≡ ctx.vault_buffer.state.amount - v =
        omega arith in
      rw (left, rest)
        (redeem_keeps_price s shares ctx.vault_buffer.state.amount le issued b.priced).1

  -- No yield instruction that succeeds on a vault with shares lowers the price of a share, if the
  -- wallet's account is not the buffer and the ledger agrees with the buffer that was read.
  pub run-PriceKept :
      (r : Request)
      → run solana ctx r l ≡ ok o
      → PriceKept ctx o.accounts ctx.vault_buffer.state.amount
          (o.ledger ctx.vault_buffer.key).amount
  unfolding run EnableYield.enable_yield DepositToYield.deposit_to_yield
      WithdrawFromYield.withdraw_from_yield DisableYield.disable_yield
  run-PriceKept (enable amount) h =
      bought_price _ _
        (enable-IsBought solana ctx l amount (>>-eq-ok (try_accounts solana ctx) _ h))
  run-PriceKept (deposit amount) h =
      bought_price _ _
        (deposit-IsBought solana ctx l amount (>>-eq-ok (try_accounts solana ctx) _ h))
  run-PriceKept (withdraw n) h =
      let sold = withdraw-IsSold solana ctx l n (>>-eq-ok (try_accounts solana ctx) _ h) in
      sold_price _ _ (omega (arith, sold.shares)) sold
  run-PriceKept disable h =
      let sold = disable-IsSold solana ctx l (>>-eq-ok (try_accounts solana ctx) _ h) in
      sold_price _ _ (omega (arith, sold.shares)) sold
