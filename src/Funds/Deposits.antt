-- ===== src/Funds/Deposits.antt =====
-- The deposits that a vault has on record, against the balance of its buffer.
use eventop.Base.{ℕ, ◌+◌, ◌≤◌, ◌≡◌, ◌≢◌, ◌∙◌, refl, sym, ap, arith}
use eventop.Runtime.Result.{ok}
use eventop.Runtime.Token.{Ledger}
use eventop.Runtime.Anchor.{Pubkey, Account, Solana, TransferContext, unsigned}
use eventop.Runtime.Laws.{IsSolana}
use eventop.State.SubscriptionWallet.{wallet_transfer}
use eventop.State.YieldVault.{YieldVault}
use eventop.Outcome.{Outcome}
use eventop.Utils.VaultOperations.{withdraw_from_vault_internal, vault_signer}
use eventop.YieldOps.Accounts.{YieldAccounts}
use eventop.YieldOps.Request.{Request, enable, deposit, withdraw, disable, run}
use eventop.YieldOps.Trades.{IsBought, IsSold}
use eventop.YieldOps.RoundTrip.{run-IsBought, run-IsSold}
use eventop.Funds.Moves.{exec-Paid}
use eventop.Funds.Conservation.{Paid-le}
use eventop.Funds.Price.{Market, open_market, dealing, other, run_buffer}

-- The record and the buffer have changed by the same amount.
abbrev InStep : YieldAccounts → Ledger → Outcome YieldAccounts → Type 0
InStep ctx l o =
    (o.ledger ctx.vault_buffer.key).amount + ctx.yield_vault.state.total_usdc_deposited
    ≡ (l ctx.vault_buffer.key).amount + o.accounts.yield_vault.state.total_usdc_deposited

module _ {solana : Solana} (laws : IsSolana solana) (ctx : YieldAccounts) (l : Ledger)
    {o : Outcome YieldAccounts} (apart : ctx.wallet_token_account.key ≢ ctx.vault_buffer.key) where
  open laws use {transfer_debits, transfer_credits}

  bought-InStep : (d s : ℕ) → IsBought solana ctx l d s o → InStep ctx l o
  bought-InStep d s b =
      let c =
        wallet_transfer ctx.subscription_wallet ctx.wallet_token_account.key ctx.vault_buffer.key in
      omega (arith, transfer_credits c d l o.ledger apart b.paid, b.deposited)

  sold-InStep : (s v : ℕ) → IsSold solana ctx l s v o → InStep ctx l o
  unfolding withdraw_from_vault_internal
  sold-InStep s v b =
      let c : TransferContext = record {
        from = ctx.vault_buffer.key;
        to = ctx.wallet_token_account.key;
        authority = unsigned ctx.yield_vault.key;
        signer_seeds = vault_signer ctx.yield_vault.state;
      } in
      omega (arith, transfer_debits c v l o.ledger (λ q. apart (sym q)) b.paid, b.deposited)

  run-InStep : (r : Request) → run solana ctx r l ≡ ok o → InStep ctx l o
  run-InStep (enable n) h =
      let (d, s, b) = run-IsBought solana ctx (enable n) l tt h in bought-InStep d s b
  run-InStep (deposit n) h =
      let (d, s, b) = run-IsBought solana ctx (deposit n) l tt h in bought-InStep d s b
  run-InStep (withdraw n) h =
      let (s, v, b) = run-IsSold solana ctx (withdraw n) l tt h in sold-InStep s v b
  run-InStep disable h = let (s, v, b) = run-IsSold solana ctx disable l tt h in sold-InStep s v b

-- The buffer is the same one, and covers the deposits on record.
abbrev IsCovered : Account YieldVault → Account YieldVault → Ledger → Type 0
IsCovered v v' l' =
    (v'.state.usdc_buffer ≡ v.state.usdc_buffer)
    × (v'.state.total_usdc_deposited ≤ (l' v'.state.usdc_buffer).amount)

Market-IsCovered :
    {solana : Solana} (laws : IsSolana solana) {v : Account YieldVault} {l : Ledger}
    {v' : Account YieldVault} {l' : Ledger}
    → v.state.total_usdc_deposited ≤ (l v.state.usdc_buffer).amount
    → Market solana v l v' l'
    → IsCovered v v' l'
Market-IsCovered laws covered open_market = (refl, covered)
Market-IsCovered {solana} laws covered (dealing {v'} {l'} before ctx r o here loaded apart done _) =
    let (same, old) = Market-IsCovered laws covered before in
    let (key, kept) = run_buffer solana ctx r l' done in
    let at_buffer = ap (λ (a : Account YieldVault). a.state.usdc_buffer) here in
    let record_was = ap (λ (a : Account YieldVault). a.state.total_usdc_deposited) here in
    let moved = run-InStep laws ctx l' apart r done in
    let was : (l' ctx.vault_buffer.key).amount ≡ (l' v'.state.usdc_buffer).amount =
      ap (λ (k : Pubkey). (l' k).amount) (key ∙ at_buffer) in
    let now : (o.ledger o.accounts.yield_vault.state.usdc_buffer).amount
        ≡ (o.ledger ctx.vault_buffer.key).amount =
      ap (λ (k : Pubkey). (o.ledger k).amount) (kept ∙ sym key) in
    (kept ∙ at_buffer ∙ same, omega (arith, old, moved, was, now, record_was))
Market-IsCovered {solana} laws covered (other {v'} {l'} {l''} before c away done) =
    let (same, old) = Market-IsCovered laws covered before in
    let more : (l' v'.state.usdc_buffer).amount ≤ (l'' v'.state.usdc_buffer).amount =
      Paid-le laws v'.state.usdc_buffer (λ q. away (sym q)) (exec-Paid solana c l' done) in
    (same, omega (arith, old, more))

-- Over any sequence of yield instructions on one vault, and of other calls that do not take from its
-- buffer, the buffer goes on to cover the deposits that the vault has on record: if it does at the
-- start, the vault keeps shares, and each yield instruction runs on the accounts as they are then,
-- from a wallet's account that is not the buffer.
pub deposits_covered :
    {solana : Solana} (laws : IsSolana solana) {v : Account YieldVault} {l : Ledger}
    {v' : Account YieldVault} {l' : Ledger}
    → v.state.total_usdc_deposited ≤ (l v.state.usdc_buffer).amount
    → Market solana v l v' l'
    → v'.state.total_usdc_deposited ≤ (l' v'.state.usdc_buffer).amount
deposits_covered laws covered m = (Market-IsCovered laws covered m).1
