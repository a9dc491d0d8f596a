-- ===== src/YieldOps/Shares.antt =====
-- Shares are conserved.
use eventop.Base.{ℕ, ◌+◌, ◌≡◌, ◌⊎◌, arith, true}
use eventop.Runtime.Result.{>>-eq-ok, ok}
use eventop.Runtime.Token.{Ledger}
use eventop.Runtime.Anchor.{Solana}
use eventop.Outcome.{Outcome}
use eventop.State.SubscriptionWallet.{SubscriptionWallet}
use eventop.YieldOps.Accounts.{YieldAccounts, try_accounts}
use eventop.YieldOps.Request.{Request, enable, deposit, withdraw, disable, run}
use eventop.YieldOps.EnableYield
use eventop.YieldOps.DepositToYield
use eventop.YieldOps.WithdrawFromYield
use eventop.YieldOps.DisableYield

-- A wallet earns yield, or it holds no shares.
abbrev pub IsSettled : SubscriptionWallet → Type 0
IsSettled w = (w.is_yield_enabled ≡ true) ⊎ (w.yield_shares ≡ 0)

-- Between the accounts before and after: the vault's total and the wallet's holding have changed by
-- the same number of shares, and the wallet is settled.
abbrev pub SharesMoved : YieldAccounts → YieldAccounts → Type 0
SharesMoved before after =
    (after.yield_vault.state.total_shares_issued + before.subscription_wallet.state.yield_shares
      ≡ before.yield_vault.state.total_shares_issued + after.subscription_wallet.state.yield_shares)
    × IsSettled after.subscription_wallet.state

module _ (solana : Solana) (ctx : YieldAccounts) (ledger : Ledger) where
  enable_shares :
      (amount : ℕ) {o : Outcome YieldAccounts}
      → IsSettled ctx.subscription_wallet.state
      → EnableYield.handler solana ctx amount ledger ≡ ok o
      → SharesMoved ctx o.accounts
  unfolding EnableYield.handler
  enable_shares amount s h = ground arith

  deposit_shares :
      (amount : ℕ) {o : Outcome YieldAccounts}
      → DepositToYield.handler solana ctx amount ledger ≡ ok o
      → SharesMoved ctx o.accounts
  unfolding DepositToYield.handler
  deposit_shares amount h = ground arith

  withdraw_shares :
      (n : ℕ) {o : Outcome YieldAccounts}
      → WithdrawFromYield.handler solana ctx n ledger ≡ ok o
      → SharesMoved ctx o.accounts
  unfolding WithdrawFromYield.handler
  withdraw_shares n h = ground arith

  disable_shares :
      {o : Outcome YieldAccounts}
      → DisableYield.handler solana ctx ledger ≡ ok o
      → SharesMoved ctx o.accounts
  unfolding DisableYield.handler
  disable_shares h = ground arith

-- Every yield instruction that succeeds on a settled wallet conserves shares: what the vault issues
-- or retires is what the wallet gains or gives up, and the wallet is settled afterwards.
pub run-SharesMoved :
    (solana : Solana) (ctx : YieldAccounts) (r : Request) (ledger : Ledger)
    {o : Outcome YieldAccounts}
    → IsSettled ctx.subscription_wallet.state
    → run solana ctx r ledger ≡ ok o
    → SharesMoved ctx o.accounts
unfolding run EnableYield.enable_yield DepositToYield.deposit_to_yield
    WithdrawFromYield.withdraw_from_yield DisableYield.disable_yield
run-SharesMoved solana ctx (enable amount) ledger s h =
    enable_shares solana ctx ledger amount s (>>-eq-ok (try_accounts solana ctx) _ h)
run-SharesMoved solana ctx (deposit amount) ledger s h =
    deposit_shares solana ctx ledger amount (>>-eq-ok (try_accounts solana ctx) _ h)
run-SharesMoved solana ctx (withdraw n) ledger s h =
    withdraw_shares solana ctx ledger n (>>-eq-ok (try_accounts solana ctx) _ h)
run-SharesMoved solana ctx disable ledger s h =
    disable_shares solana ctx ledger (>>-eq-ok (try_accounts solana ctx) _ h)
