-- ===== src/YieldOps/Limits.antt =====
-- instructions/yield_ops: what the yield instructions do not look at, and where they stop.
use eventop.Base.{ℕ, ◌≤◌, ◌<◌, ◌≡◌, arith, Bool}
use eventop.Runtime.Result.{Result, ok, err, Error, err_of_ne_ok, >>-eq-ok}
use eventop.Runtime.Word.{u64_mod}
use eventop.Runtime.Token.{Ledger}
use eventop.Runtime.Anchor.{Solana}
use eventop.Outcome.{Outcome, with_state}
use eventop.Utils.Calculations.{calculate_usdc_value_of_shares}
use eventop.Utils.Calculations.Rounding.{whole_value}
use eventop.Utils.VaultOperations.{get_vault_total_value}
use eventop.YieldOps.Accounts.{YieldAccounts, try_accounts}
use eventop.YieldOps.Request.{Request, enable, deposit, withdraw, disable, run}
use eventop.YieldOps.EnableYield
use eventop.YieldOps.EnableYield.{shares_for_enable}
use eventop.YieldOps.DepositToYield
use eventop.YieldOps.WithdrawFromYield
use eventop.YieldOps.DisableYield

-- The same accounts with the vault's emergency flag and rate replaced.
abbrev pub with_emergency : Bool → ℕ → YieldAccounts → YieldAccounts
with_emergency flag rate ctx = record ctx {
  yield_vault =
      with_state ctx.yield_vault
        (record (ctx.yield_vault.state) { emergency_mode = flag; emergency_exchange_rate = rate });
}

abbrev pub outcome_with_emergency : Bool → ℕ → Outcome YieldAccounts → Outcome YieldAccounts
outcome_with_emergency flag rate o = record o { accounts = with_emergency flag rate o.accounts }

abbrev pub map_ok {ℓ} : {A : Type ℓ} → (A → A) → Result A → Result A
map_ok f (ok a) = ok (f a)
map_ok f (err e) = err e

module _ (solana : Solana) (ctx : YieldAccounts) (l : Ledger) (flag : Bool) (rate : ℕ) where
  -- Emergency mode does not stop a yield instruction, and the frozen rate is not used: with another
  -- flag and rate each does the same to everything else.
  pub run-with_emergency :
      (r : Request)
      → run solana (with_emergency flag rate ctx) r l
        ≡ map_ok (outcome_with_emergency flag rate) (run solana ctx r l)
  unfolding run EnableYield.enable_yield DepositToYield.deposit_to_yield
      WithdrawFromYield.withdraw_from_yield DisableYield.disable_yield EnableYield.handler
      DepositToYield.handler WithdrawFromYield.handler DisableYield.handler try_accounts
      get_vault_total_value
  run-with_emergency (enable n) = ground arith
  run-with_emergency (deposit n) = ground arith
  run-with_emergency (withdraw n) = ground arith
  run-with_emergency disable = ground arith

module _ (solana : Solana) (ctx : YieldAccounts) (l : Ledger) where
  pub withdraw_within :
      (n v : ℕ) {o : Outcome YieldAccounts}
      → calculate_usdc_value_of_shares n ctx.yield_vault.state.total_shares_issued
          ctx.vault_buffer.state.amount
        ≡ ok v
      → WithdrawFromYield.handler solana ctx n l ≡ ok o
      → v ≤ ctx.yield_vault.state.total_usdc_deposited
  unfolding WithdrawFromYield.handler get_vault_total_value
  withdraw_within n v e h = ground arith

  pub disable_within :
      (v : ℕ) {o : Outcome YieldAccounts}
      → calculate_usdc_value_of_shares ctx.subscription_wallet.state.yield_shares
          ctx.yield_vault.state.total_shares_issued ctx.vault_buffer.state.amount
        ≡ ok v
      → DisableYield.handler solana ctx l ≡ ok o
      → v ≤ ctx.yield_vault.state.total_usdc_deposited
  unfolding DisableYield.handler get_vault_total_value
  disable_within v e h = ground arith

  -- A withdrawal of shares worth more than the deposits that are on record fails.
  pub withdraw_gain_fails :
      (n v : ℕ)
      → calculate_usdc_value_of_shares n ctx.yield_vault.state.total_shares_issued
          ctx.vault_buffer.state.amount
        ≡ ok v
      → ctx.yield_vault.state.total_usdc_deposited < v
      → (e : Error) × (WithdrawFromYield.withdraw_from_yield solana ctx n l ≡ err e)
  unfolding WithdrawFromYield.withdraw_from_yield
  withdraw_gain_fails n v priced gain =
      err_of_ne_ok (WithdrawFromYield.withdraw_from_yield solana ctx n l)
        λ o h. omega (arith, withdraw_within n v priced (>>-eq-ok (try_accounts solana ctx) _ h))

  -- Disabling yield fails for the holder of all shares, if the buffer holds more than the deposits on
  -- record.
  pub last_holder_locked :
      ctx.subscription_wallet.state.yield_shares ≡ ctx.yield_vault.state.total_shares_issued
      → 0 < ctx.yield_vault.state.total_shares_issued
      → ctx.yield_vault.state.total_shares_issued < u64_mod
      → ctx.vault_buffer.state.amount < u64_mod
      → ctx.yield_vault.state.total_usdc_deposited < ctx.vault_buffer.state.amount
      → (e : Error) × (DisableYield.disable_yield solana ctx l ≡ err e)
  unfolding DisableYield.disable_yield
  last_holder_locked all issued fits buffer_fits gain =
      let priced =
        whole_value ctx.yield_vault.state.total_shares_issued ctx.vault_buffer.state.amount issued
          fits buffer_fits in
      err_of_ne_ok (DisableYield.disable_yield solana ctx l) λ o h. omega (
        arith,
        disable_within ctx.vault_buffer.state.amount (rw all priced)
            (>>-eq-ok (try_accounts solana ctx) _ h),
      )
