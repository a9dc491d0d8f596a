-- ===== src/Tests/Payment.antt =====
-- Payments of the subscription: 1,000 units every 60 seconds, last paid at 500.
use eventop.Base.{
  ◌↔◌, ◌≤ℤ◌, ◌≤◌, ℕ, ℤ, pos, ◌≡◌, ◌≢◌, ◌<◌, refl, arith, true, false, none, some, ◌==◌,
  if◌then◌else◌,
}
use eventop.Errors.{payment_too_early, insufficient_funds}
use eventop.Runtime.Result.{ok, err, Error, code}
use eventop.Runtime.Token.{Ledger}
use eventop.Outcome.{Outcome}
use eventop.Subscription.ExecutePayment.{ExecutePaymentFromWallet, execute_payment_from_wallet}
use eventop.Subscription.PaymentFees.{redemption_fails}
use eventop.Subscription.PaymentEffect.{IsSplit, payment-IsSplit}
use eventop.Subscription.PaymentHistory.{start, next, IsAccounted, Payments-IsAccounted}
use eventop.Subscription.PaymentLiveness.{payment_iff}
use eventop.Subscription.Mints.{mint_mismatch_unpayable}
use eventop.Tests.Accounts.{
  value_or, done, ledger, tokens, account, info, config, vault, wallet, earning, plan, subscription,
  wallet_tokens, merchant_tokens, treasury_tokens, buffer_tokens,
}
use eventop.Tests.Chain.{chain, chain-IsSolana}

abbrev pub charge : ExecutePaymentFromWallet
charge = record {
  subscription_state = subscription;
  subscription_wallet = wallet;
  merchant_plan = plan;
  protocol_config = config;
  wallet_token_account = wallet_tokens;
  merchant_token_account = merchant_tokens;
  protocol_treasury = treasury_tokens;
  yield_vault = none;
  vault_buffer = none;
  jupiter_lending = none;
}

abbrev pub paid : Outcome ExecutePaymentFromWallet
paid = value_or (done charge ledger) (execute_payment_from_wallet chain charge (pos 600) ledger)

pub charge_paid : execute_payment_from_wallet chain charge (pos 600) ledger ≡ ok paid
unfolding execute_payment_from_wallet eventop.Subscription.ExecutePayment.try_accounts
    eventop.Subscription.ExecutePayment.handler eventop.Runtime.Word.sub_i64 eventop.Base.◌-ℤ◌
    eventop.Subscription.ExecutePayment.protocol_fee_of eventop.Subscription.ExecutePayment.settle
    eventop.Subscription.ExecutePayment.pay
charge_paid = refl

charge_too_early :
    execute_payment_from_wallet chain charge (pos 559) ledger ≡ err (code payment_too_early)
unfolding execute_payment_from_wallet eventop.Subscription.ExecutePayment.try_accounts
    eventop.Subscription.ExecutePayment.handler eventop.Runtime.Word.sub_i64 eventop.Base.◌-ℤ◌
charge_too_early = refl

paid_merchant : (paid.ledger 4).amount ≡ 995
unfolding execute_payment_from_wallet eventop.Subscription.ExecutePayment.try_accounts
    eventop.Subscription.ExecutePayment.handler eventop.Runtime.Word.sub_i64 eventop.Base.◌-ℤ◌
    eventop.Subscription.ExecutePayment.protocol_fee_of eventop.Subscription.ExecutePayment.settle
    eventop.Subscription.ExecutePayment.pay
paid_merchant = refl

payment-IsSplit_example : IsSplit charge ledger 15 paid.ledger
unfolding eventop.Subscription.ExecutePayment.protocol_fee_of
payment-IsSplit_example =
    payment-IsSplit chain-IsSolana charge (pos 600) ledger 15
      (omega arith, omega arith, omega arith) refl charge_paid

-- The interval of 60 seconds has passed, and 50,000 units are there.
payment_iff_example :
    ((o : Outcome ExecutePaymentFromWallet) × (execute_payment_from_wallet chain charge
          (pos 600)
          ledger
        ≡ ok o))
    ↔ ((pos 60 ≤ℤ pos 100) × (1_000 ≤ 50_000))
unfolding eventop.Subscription.ExecutePayment.try_accounts eventop.Runtime.Word.sub_i64
    eventop.Base.◌-ℤ◌
payment_iff_example = payment_iff chain-IsSolana charge (pos 600) (pos 100) ledger (record {
  checked = refl;
  apart = (omega arith, omega arith, omega arith);
  elapsed = refl;
  fee_bps = omega arith;
  mints = refl;
  wallet_loaded = refl;
  merchant_loaded = refl;
  treasury_loaded = refl;
  wallet_fits = omega arith;
  merchant_fits = omega arith;
  treasury_fits = omega arith;
  paid_fits = omega arith;
  count_fits = omega arith;
  spent_fits = omega arith;
})

-- A second payment, on what the first has left.
abbrev charge_again : ExecutePaymentFromWallet
charge_again = record charge {
  subscription_state = paid.accounts.subscription_state;
  subscription_wallet = paid.accounts.subscription_wallet;
}

abbrev paid_again : Outcome ExecutePaymentFromWallet
paid_again =
    value_or (done charge_again ledger)
      (execute_payment_from_wallet chain charge_again (pos 700) ledger)

charge_paid_again : execute_payment_from_wallet chain charge_again (pos 700) ledger ≡ ok paid_again
unfolding execute_payment_from_wallet eventop.Subscription.ExecutePayment.try_accounts
    eventop.Subscription.ExecutePayment.handler eventop.Runtime.Word.sub_i64 eventop.Base.◌-ℤ◌
    eventop.Subscription.ExecutePayment.protocol_fee_of eventop.Subscription.ExecutePayment.settle
    eventop.Subscription.ExecutePayment.pay
charge_paid_again = refl

Payments-IsAccounted_example :
    IsAccounted subscription.state 60 2 paid_again.accounts.subscription_state.state
Payments-IsAccounted_example = Payments-IsAccounted {solana = chain} 60 refl (
    next (next start charge (pos 600) ledger paid refl charge_paid refl) charge_again (pos 700)
      ledger paid_again refl charge_paid_again refl)

-- The token account is 500 short, and the wallet's shares are worth 4,000.
abbrev short : ExecutePaymentFromWallet
short = record charge {
  subscription_wallet = earning;
  wallet_token_account = account 1 (tokens 100 1119 500);
  yield_vault = some vault;
  vault_buffer = some buffer_tokens;
  jupiter_lending = some (info 60);
}

abbrev short_ledger : Ledger
short_ledger k = if k == 1 then short.wallet_token_account.state else ledger k

redeemed_in_vain :
    execute_payment_from_wallet chain short (pos 600) short_ledger ≡ err (code insufficient_funds)
unfolding execute_payment_from_wallet eventop.Subscription.ExecutePayment.try_accounts
    eventop.Subscription.ExecutePayment.handler eventop.Runtime.Word.sub_i64 eventop.Base.◌-ℤ◌
    eventop.Subscription.ExecutePayment.protocol_fee_of
    eventop.Utils.VaultOperations.get_vault_total_value
    eventop.Utils.Calculations.calculate_shares_for_withdrawal
redeemed_in_vain = refl

redemption_fails_example :
    (e : Error) × (execute_payment_from_wallet chain short (pos 600) short_ledger ≡ err e)
unfolding eventop.Subscription.ExecutePayment.is_redemption_due
redemption_fails_example = redemption_fails chain short (pos 600) short_ledger refl

-- The plan, and so the subscription, has the mint 101.
abbrev other_mint : ExecutePaymentFromWallet
other_mint = record charge {
  subscription_state =
      account 6113 (record (subscription.state) { mint = 101; merchant_plan = 5116 });
  merchant_plan = account 5116 (record (plan.state) { mint = 101 });
  merchant_token_account = account 4 (tokens 101 5000 10);
  protocol_treasury = account 5 (tokens 101 7 20);
}

abbrev other_ledger : Ledger
other_ledger k =
    if k == 4
    then other_mint.merchant_token_account.state
    else if k == 5
    then other_mint.protocol_treasury.state
    else ledger k

mint_mismatch_unpayable_example :
    (e : Error) × (execute_payment_from_wallet chain other_mint (pos 600) other_ledger ≡ err e)
mint_mismatch_unpayable_example =
    mint_mismatch_unpayable chain-IsSolana other_mint (pos 600) other_ledger (omega arith)
      (omega arith) refl refl refl
