-- ===== src/Tests/Trips.antt =====
-- Shares bought and sold again, and a deposit while funds are lent.
use eventop.Base.{◌≤◌, ◌<◌, ◌*◌, refl, arith}
use eventop.Outcome.{Outcome}
use eventop.YieldOps.Accounts.{YieldAccounts}
use eventop.YieldOps.Request.{enable, withdraw, run}
use eventop.YieldOps.DepositToYield.{deposit_to_yield}
use eventop.YieldOps.RoundTrip.{buy_then_sell}
use eventop.YieldOps.Dilution.{deposit_dilutes}
use eventop.Tests.Accounts.{value_or, done, ledger, account, wallet, earning, yield_of}
use eventop.Tests.Chain.{chain, chain-IsSolana}
use eventop.Tests.Vaults.{lending_account, lent_tokens}

abbrev bought : Outcome YieldAccounts
bought =
    value_or (done (yield_of wallet) ledger) (run chain (yield_of wallet) (enable 10_000) ledger)

abbrev seller : YieldAccounts
seller = record (bought.accounts) {
  wallet_token_account = account 1 (bought.ledger 1);
  vault_buffer = account 3 (bought.ledger 3);
}

-- 6,000 of the 6,375 shares.
abbrev sold : Outcome YieldAccounts
sold = value_or (done seller bought.ledger) (run chain seller (withdraw 6_000) bought.ledger)

buy_then_sell_example : (sold.ledger 1).amount ≤ 50_000
unfolding run eventop.YieldOps.EnableYield.enable_yield eventop.YieldOps.Accounts.try_accounts
    eventop.YieldOps.EnableYield.handler eventop.Utils.Calculations.calculate_buffer_amount
    eventop.Utils.VaultOperations.get_vault_total_value
    eventop.Utils.Calculations.calculate_shares_for_deposit
    eventop.YieldOps.WithdrawFromYield.withdraw_from_yield
    eventop.YieldOps.WithdrawFromYield.handler
    eventop.Utils.Calculations.calculate_usdc_value_of_shares
buy_then_sell_example =
    buy_then_sell chain-IsSolana (yield_of wallet) seller ledger {o = bought} {o' = sold}
      (omega arith) refl (omega arith)
      (record { same_vault = refl; same_tokens = refl; same_buffer = refl; buffer_loaded = refl })
      (enable 10_000) (withdraw 6_000) tt tt refl refl (omega arith)

abbrev lender : YieldAccounts
lender = record (yield_of earning) { jupiter_lending = lending_account }

abbrev diluted : Outcome YieldAccounts
diluted = value_or (done lender ledger) (deposit_to_yield chain lender 1_000 ledger)

-- 1,000 units buy 750 of 3,750 shares in a vault of 16,000 units, of which the buffer holds 4,000.
deposit_dilutes_example : 1_000 * 3_750 < 750 * 17_000
unfolding deposit_to_yield eventop.YieldOps.Accounts.try_accounts
    eventop.YieldOps.DepositToYield.handler eventop.Utils.VaultOperations.get_vault_total_value
    eventop.Utils.Calculations.calculate_shares_for_deposit
    eventop.Utils.VaultOperations.ftoken_value
deposit_dilutes_example =
    deposit_dilutes chain lender ledger lent_tokens 1_000 750 12_000 {o = diluted} refl refl refl
      (omega arith) (omega arith) (omega arith) (omega arith) (omega arith) (omega arith)
