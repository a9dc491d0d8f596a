-- ===== src/Tests/Funds.antt =====
-- Calls on the balances: a payment, alone and after a purchase of shares.
use eventop.Base.{pos, ◌≤◌, ◌-ℤ◌, refl, arith}
use eventop.Funds.{pay, IsAuthorised, source_of}
use eventop.Funds.Price.{Market, open_market, dealing, other, rate-kept}
use eventop.Funds.Deposits.{deposits_covered}
use eventop.Outcome.{Outcome}
use eventop.YieldOps.Accounts.{YieldAccounts}
use eventop.YieldOps.Request.{enable, run}
use eventop.Subscription.ExecutePayment.{ExecutePaymentFromWallet, execute_payment_from_wallet}
use eventop.Tests.Accounts.{
  value_or, done, info, account, buffer_tokens, f_tokens, ledger, vault, wallet, yield_of,
}
use eventop.Tests.Chain.{chain, chain-IsSolana}
use eventop.Tests.Payment.{charge}

abbrev dealt : Outcome YieldAccounts
dealt =
    value_or (done (yield_of wallet) ledger) (run chain (yield_of wallet) (enable 10_000) ledger)

-- The payment of above, after the wallet has bought shares.
abbrev charged_after : Outcome ExecutePaymentFromWallet
charged_after =
    value_or (done charge dealt.ledger)
      (execute_payment_from_wallet chain charge (pos 600) dealt.ledger)

dealt-Market : Market chain vault ledger dealt.accounts.yield_vault charged_after.ledger
unfolding run eventop.YieldOps.EnableYield.enable_yield eventop.YieldOps.Accounts.try_accounts
    eventop.YieldOps.EnableYield.handler eventop.Utils.Calculations.calculate_buffer_amount
    eventop.Utils.VaultOperations.get_vault_total_value
    eventop.Utils.Calculations.calculate_shares_for_deposit eventop.Funds.exec
    execute_payment_from_wallet eventop.Subscription.ExecutePayment.try_accounts
    eventop.Subscription.ExecutePayment.handler eventop.Runtime.Word.sub_i64 ◌-ℤ◌
    eventop.Subscription.ExecutePayment.protocol_fee_of eventop.Subscription.ExecutePayment.settle
    eventop.Subscription.ExecutePayment.pay
dealt-Market =
    other
      (dealing open_market (yield_of wallet) (enable 10_000) dealt refl refl (omega arith) refl
        (omega arith))
      (pay charge (pos 600)) (omega arith) refl

-- 12,500 units for 9,375 shares.
rate-kept_example : 1_333_333 ≤ 1_333_333
unfolding run eventop.YieldOps.EnableYield.enable_yield eventop.YieldOps.Accounts.try_accounts
    eventop.YieldOps.EnableYield.handler eventop.Utils.Calculations.calculate_buffer_amount
    eventop.Utils.VaultOperations.get_vault_total_value
    eventop.Utils.Calculations.calculate_shares_for_deposit
    eventop.Utils.Calculations.calculate_current_exchange_rate execute_payment_from_wallet
    eventop.Subscription.ExecutePayment.try_accounts eventop.Subscription.ExecutePayment.handler
    eventop.Runtime.Word.sub_i64 ◌-ℤ◌ eventop.Subscription.ExecutePayment.protocol_fee_of
    eventop.Subscription.ExecutePayment.settle eventop.Subscription.ExecutePayment.pay
rate-kept_example =
    rate-kept chain-IsSolana (info 60) (info 60) buffer_tokens (account 3 (charged_after.ledger 3))
      f_tokens f_tokens {total = 4_000} {total' = 12_500} {rate = 1_333_333} {rate' = 1_333_333}
      (omega arith) dealt-Market refl refl refl refl refl refl refl (omega arith)

deposits_covered_example :
    dealt.accounts.yield_vault.state.total_usdc_deposited
    ≤ (charged_after.ledger dealt.accounts.yield_vault.state.usdc_buffer).amount
deposits_covered_example = deposits_covered chain-IsSolana (omega arith) dealt-Market
