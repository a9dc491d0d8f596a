-- ===== src/YieldOps/RoundTrip.antt =====
-- instructions/yield_ops: buying shares and selling them again.
use eventop.Base.{ℕ, ◌+◌, ◌*◌, ◌≤◌, ◌<◌, ◌≡◌, ◌≢◌, ◌∙◌, arith, sym, ap}
use native.Mathlib.Nat.{mul-le-mul, le_refl, le_trans}
use eventop.Runtime.Result.{ok, >>-eq-ok}
use eventop.Runtime.Token.{TokenAccount, Ledger}
use eventop.Runtime.Anchor.{Account, Solana, TransferContext, unsigned}
use eventop.Runtime.Laws.{IsSolana}
use eventop.State.YieldVault.{YieldVault}
use eventop.Outcome.{Outcome}
use eventop.State.SubscriptionWallet.{wallet_transfer}
use eventop.Utils.Calculations.Rounding.{deposit_bound, deposit_shares-le, redeem-le}
use eventop.Utils.VaultOperations.{withdraw_from_vault_internal, vault_signer}
use eventop.YieldOps.Accounts.{YieldAccounts, try_accounts}
use eventop.YieldOps.Request.{Request, enable, deposit, withdraw, disable, run}
use eventop.YieldOps.EnableYield
use eventop.YieldOps.DepositToYield
use eventop.YieldOps.WithdrawFromYield
use eventop.YieldOps.DisableYield
use eventop.YieldOps.Trades.{
  IsBought, IsSold, enable-IsBought, deposit-IsBought, withdraw-IsSold, disable-IsSold,
}

abbrev pub Buys : Request → Type 0
Buys (enable n) = Unit
Buys (deposit n) = Unit
Buys (withdraw n) = ⊥
Buys disable = ⊥

abbrev pub Sells : Request → Type 0
Sells (enable n) = ⊥
Sells (deposit n) = ⊥
Sells (withdraw n) = Unit
Sells disable = Unit

pub run-IsBought :
    (solana : Solana) (ctx : YieldAccounts) (r : Request) (l : Ledger) {o : Outcome YieldAccounts}
    → Buys r
    → run solana ctx r l ≡ ok o
    → (d : ℕ) × (s : ℕ) × IsBought solana ctx l d s o
unfolding run EnableYield.enable_yield DepositToYield.deposit_to_yield
run-IsBought solana ctx (enable n) l b h =
    (_, _, enable-IsBought solana ctx l n (>>-eq-ok (try_accounts solana ctx) _ h))
run-IsBought solana ctx (deposit n) l b h =
    (_, _, deposit-IsBought solana ctx l n (>>-eq-ok (try_accounts solana ctx) _ h))
run-IsBought solana ctx (withdraw n) l b h = absurd b
run-IsBought solana ctx disable l b h = absurd b

pub run-IsSold :
    (solana : Solana) (ctx : YieldAccounts) (r : Request) (l : Ledger) {o : Outcome YieldAccounts}
    → Sells r
    → run solana ctx r l ≡ ok o
    → (s : ℕ) × (v : ℕ) × IsSold solana ctx l s v o
unfolding run WithdrawFromYield.withdraw_from_yield DisableYield.disable_yield
run-IsSold solana ctx (enable n) l b h = absurd b
run-IsSold solana ctx (deposit n) l b h = absurd b
run-IsSold solana ctx (withdraw n) l b h =
    (_, _, withdraw-IsSold solana ctx l n (>>-eq-ok (try_accounts solana ctx) _ h))
run-IsSold solana ctx disable l b h =
    (_, _, disable-IsSold solana ctx l (>>-eq-ok (try_accounts solana ctx) _ h))

-- Selling at most the shares that were bought.
sold_bound :
    (d s t shares value v : ℕ)
    → t ≤ s
    → s * value ≤ d * shares
    → v * (shares + s) ≤ t * (value + d)
    → 0 < shares
    → v ≤ d
sold_bound d s t shares value v le bought sold h =
    let more : t * (value + d) ≤ s * (value + d) = mul-le-mul le (le_refl (value + d)) in
    deposit_bound d s shares value v bought (le_trans sold more) h

-- The accounts of the second instruction are those that the first one left, loaded again.
pub record IsNext (ctx : YieldAccounts) (o : Outcome YieldAccounts) (ctx' : YieldAccounts)
    : Type 0 where
  pub same_vault : ctx'.yield_vault ≡ o.accounts.yield_vault
  pub same_tokens : ctx'.wallet_token_account.key ≡ ctx.wallet_token_account.key
  pub same_buffer : ctx'.vault_buffer.key ≡ ctx.vault_buffer.key
  pub buffer_loaded : ctx'.vault_buffer.state ≡ o.ledger ctx.vault_buffer.key

module _ {solana : Solana} (laws : IsSolana solana) (ctx ctx' : YieldAccounts) (l : Ledger)
    {o o' : Outcome YieldAccounts} (apart : ctx.wallet_token_account.key ≢ ctx.vault_buffer.key)
    (loaded : l ctx.vault_buffer.key ≡ ctx.vault_buffer.state)
    (issued : 0 < ctx.yield_vault.state.total_shares_issued) (later : IsNext ctx o ctx') where
  open laws use {transfer_debits, transfer_credits}

  round_trip :
      (d s t v : ℕ)
      → IsBought solana ctx l d s o
      → IsSold solana ctx' o.ledger t v o'
      → ctx.yield_vault.state.total_shares_issued
        ≤ o'.accounts.yield_vault.state.total_shares_issued
      → (o'.ledger ctx.wallet_token_account.key).amount ≤ (l ctx.wallet_token_account.key).amount
  unfolding withdraw_from_vault_internal
  round_trip d s t v b c back =
      let w = ctx.wallet_token_account.key in
      let u = ctx.vault_buffer.key in
      let into = wallet_transfer ctx.subscription_wallet w u in
      let out : TransferContext = record {
        from = ctx'.vault_buffer.key;
        to = ctx'.wallet_token_account.key;
        authority = unsigned ctx'.yield_vault.key;
        signer_seeds = vault_signer ctx'.yield_vault.state;
      } in
      let shares = ctx.yield_vault.state.total_shares_issued in
      let value = ctx.vault_buffer.state.amount in
      let paid = transfer_debits into d l o.ledger apart b.paid in
      let filled = transfer_credits into d l o.ledger apart b.paid in
      let apart' : ctx'.vault_buffer.key ≢ ctx'.wallet_token_account.key =
        λ q. apart (sym later.same_tokens ∙ sym q ∙ later.same_buffer) in
      let got = transfer_credits out v o.ledger o'.ledger apart' c.paid in
      let value' : ctx'.vault_buffer.state.amount ≡ value + d =
        ap (λ (a : TokenAccount). a.amount) later.buffer_loaded
        ∙ filled
        ∙ ap (λ (a : TokenAccount). a.amount + d) loaded in
      let shares' : ctx'.yield_vault.state.total_shares_issued ≡ shares + s =
        ap (λ (a : Account YieldVault). a.state.total_shares_issued) later.same_vault ∙ b.shares in
      let bought = deposit_shares-le d shares value issued (b.priced issued) in
      let sold = redeem-le t (shares + s) (value + d) (rw (shares', value') at c.priced) in
      let at_most : v ≤ d =
        sold_bound d s t shares value v (omega (arith, c.shares, shares')) bought sold issued in
      let credited : (o'.ledger w).amount ≡ (o.ledger w).amount + v = rw later.same_tokens at got in
      omega (arith, paid, credited, at_most)

  -- Buying shares and then selling at most those again, with nothing in between and on the accounts
  -- loaded again, leaves the wallet with no more tokens than before: if the vault had shares, the
  -- wallet's account is not the buffer, and the ledger agrees with the buffer that was read.
  pub buy_then_sell :
      (r r' : Request)
      → Buys r
      → Sells r'
      → run solana ctx r l ≡ ok o
      → run solana ctx' r' o.ledger ≡ ok o'
      → ctx.yield_vault.state.total_shares_issued
        ≤ o'.accounts.yield_vault.state.total_shares_issued
      → (o'.ledger ctx.wallet_token_account.key).amount ≤ (l ctx.wallet_token_account.key).amount
  buy_then_sell r r' buys sells first second back =
      let (d, s, b) = run-IsBought solana ctx r l buys first in
      let (t, v, c) = run-IsSold solana ctx' r' o.ledger sells second in round_trip d s t v b c back
