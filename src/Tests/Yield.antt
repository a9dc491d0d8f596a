-- ===== src/Tests/Yield.antt =====
-- The yield instructions on the accounts of a wallet.
use eventop.Base.{◌≡◌, ◌≤◌, ◌↔◌, refl, arith, true}
use eventop.Errors.{math_overflow, yield_already_enabled}
use eventop.Runtime.Result.{ok, err, code}
use eventop.Outcome.{Outcome}
use eventop.YieldOps.Accounts.{YieldAccounts}
use eventop.YieldOps.Request.{enable, withdraw, run}
use eventop.YieldOps.EnableYield.{enable_yield}
use eventop.YieldOps.DisableYield.{disable_yield}
use eventop.YieldOps.Limits.{with_emergency, outcome_with_emergency, map_ok, run-with_emergency}
use eventop.YieldOps.Exit.{sale_iff}
use eventop.Tests.Accounts.{value_or, done, ledger, wallet, earning, yield_of}
use eventop.Tests.Chain.{chain-IsSolana, chain}

-- 15% of 10,000 stay in the wallet, and 8,500 buy shares at the price 4/3.
abbrev enabled : Outcome YieldAccounts
enabled =
    value_or (done (yield_of wallet) ledger) (run chain (yield_of wallet) (enable 10_000) ledger)

run-enable : run chain (yield_of wallet) (enable 10_000) ledger ≡ ok enabled
unfolding run enable_yield eventop.YieldOps.Accounts.try_accounts
    eventop.YieldOps.EnableYield.handler eventop.Utils.Calculations.calculate_buffer_amount
    eventop.Utils.VaultOperations.get_vault_total_value
    eventop.Utils.Calculations.calculate_shares_for_deposit
run-enable = refl

enabled_shares : enabled.accounts.subscription_wallet.state.yield_shares ≡ 6_375
unfolding run enable_yield eventop.YieldOps.Accounts.try_accounts
    eventop.YieldOps.EnableYield.handler eventop.Utils.Calculations.calculate_buffer_amount
    eventop.Utils.VaultOperations.get_vault_total_value
    eventop.Utils.Calculations.calculate_shares_for_deposit
enabled_shares = refl

enable_twice :
    run chain (yield_of earning) (enable 10_000) ledger ≡ err (code yield_already_enabled)
unfolding run enable_yield eventop.YieldOps.Accounts.try_accounts
    eventop.YieldOps.EnableYield.handler
enable_twice = refl

run-with_emergency_example :
    run chain (with_emergency true 7 (yield_of earning)) (withdraw 300) ledger
    ≡ map_ok (outcome_with_emergency true 7) (run chain (yield_of earning) (withdraw 300) ledger)
run-with_emergency_example =
    run-with_emergency chain (yield_of earning) ledger true 7 (withdraw 300)

-- 300 of the 3,000 shares are worth 400 of the 4,000 units, and 3,500 are on record.
sale_iff_example :
    ((o : Outcome YieldAccounts) × (run chain (yield_of earning) (withdraw 300) ledger ≡ ok o))
    ↔ (400 ≤ 3_500)
unfolding eventop.YieldOps.Accounts.try_accounts
sale_iff_example = sale_iff chain-IsSolana (yield_of earning) (withdraw 300) ledger tt (record {
  checked = refl;
  enabled = refl;
  asked = omega arith;
  held = omega arith;
  issued = omega arith;
  vault_mint = refl;
  apart = omega arith;
  buffer_loaded = refl;
  tokens_loaded = refl;
  buffer_owner = refl;
  shares_fit = omega arith;
  buffer_fits = omega arith;
  tokens_fit = omega arith;
})

-- All 3,000 shares are worth 4,000 units.
last_holder_fails : disable_yield chain (yield_of earning) ledger ≡ err (code math_overflow)
unfolding disable_yield eventop.YieldOps.Accounts.try_accounts eventop.YieldOps.DisableYield.handler
    eventop.Utils.VaultOperations.get_vault_total_value
    eventop.Utils.Calculations.calculate_usdc_value_of_shares
last_holder_fails = refl
