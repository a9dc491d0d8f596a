-- ===== src/Tests/Signup.antt =====
-- Plans, subscriptions and cancellations.
use eventop.Base.{ℕ, zero, suc, pos, ◌≡◌, ◌≢◌, ◌-◌, refl, arith, none, [], ◌∷◌, Text}
use eventop.Errors.{session_token_already_used, plan_id_too_long}
use eventop.Runtime.Result.{ok, err, Error, code}
use eventop.Runtime.Anchor.{Account}
use eventop.State.MerchantPlan.{MerchantPlan}
use eventop.Outcome.{Outcome}
use eventop.Subscription.RegisterMerchant.{RegisterMerchant, PlanTerms, register_merchant}
use eventop.Subscription.Registration.{long_id_unreported}
use eventop.Subscription.Subscribe.{SubscribeWithWallet, subscribe_with_wallet}
use eventop.Subscription.Signup.{long_token_fails}
use eventop.Subscription.CancelSubscription.{
  CancelSubscriptionWallet, CancelledAccounts, cancel_subscription_wallet,
}
use eventop.Subscription.Cancellation.{with_plan, cancel_any_plan}
use eventop.Tests.Accounts.{
  value_or, ledger, account, signer, wallet, plan, subscription, token, wallet_tokens,
}
use eventop.Tests.Chain.{chain, chain-IsSolana}

abbrev bytes : ℕ → Text
bytes zero = []
bytes (suc n) = 97 ∷ bytes n

abbrev register : RegisterMerchant
register = record { merchant_plan = account 5115 none; merchant = signer 5000; mint = 100 }

abbrev terms : PlanTerms
terms = record {
  plan_id = 112 ∷ 49 ∷ [];
  plan_name = 80 ∷ [];
  fee_amount = 1_000;
  payment_interval_seconds = pos 60;
}

long_id_unreported_example :
    register_merchant chain register (record terms { plan_id = bytes 33 }) ledger
    ≢ err (code plan_id_too_long)
long_id_unreported_example =
    long_id_unreported chain-IsSolana register (record terms { plan_id = bytes 33 }) ledger
      (omega arith)

abbrev pub signup : SubscribeWithWallet
signup = record {
  subscription_state = account 6112 none;
  session_token_tracker = account 16 none;
  subscription_wallet = wallet;
  merchant_plan = plan;
  user = signer 1000;
  wallet_token_account = wallet_tokens;
}

abbrev pub subscribed : Outcome SubscribeWithWallet
subscribed =
    value_or (record { accounts = signup; ledger = ledger; events = [] })
      (subscribe_with_wallet chain signup token (pos 500) ledger)

signup_done : subscribe_with_wallet chain signup token (pos 500) ledger ≡ ok subscribed
unfolding subscribe_with_wallet eventop.Subscription.Subscribe.try_accounts
    eventop.Subscription.Subscribe.handler
signup_done = refl

-- The same token for a plan of another merchant.
abbrev signup_again : SubscribeWithWallet
signup_again = record signup {
  subscription_state = account 6113 none;
  session_token_tracker = subscribed.accounts.session_token_tracker;
  merchant_plan = account 5116 (record (plan.state) { merchant = 5001 });
}

token_refused :
    subscribe_with_wallet chain signup_again token (pos 501) ledger
    ≡ err (code session_token_already_used)
unfolding subscribe_with_wallet eventop.Subscription.Subscribe.try_accounts
    eventop.Subscription.Subscribe.handler
token_refused = refl

long_token_fails_example :
    (e : Error) × (subscribe_with_wallet chain signup (bytes 33) (pos 500) ledger ≡ err e)
long_token_fails_example =
    long_token_fails chain-IsSolana signup (bytes 33) (pos 500) ledger (omega arith)

abbrev cancellation : CancelSubscriptionWallet
cancellation = record {
  subscription_state = subscription;
  subscription_wallet = wallet;
  merchant_plan = plan;
  user = signer 1000;
}

abbrev cancelled : Outcome CancelledAccounts
cancelled =
    value_or
      (record {
        accounts = record {
          subscription_state = account 0 none;
          subscription_wallet = wallet;
          merchant_plan = plan;
          user = signer 1000;
        };
        ledger = ledger;
        events = [];
      })
      (cancel_subscription_wallet chain cancellation ledger)

cancel_done : cancel_subscription_wallet chain cancellation ledger ≡ ok cancelled
unfolding cancel_subscription_wallet eventop.Subscription.CancelSubscription.try_accounts
    eventop.Subscription.CancelSubscription.handler
cancel_done = refl

-- A plan that the subscription has nothing to do with.
abbrev stranger : Account MerchantPlan
stranger = account 77 (record (plan.state) { merchant = 6_000; total_subscribers = 5 })

cancel_any_plan_example :
    (o : Outcome CancelledAccounts) × (cancel_subscription_wallet chain
        (with_plan stranger cancellation)
        ledger
      ≡ ok o)
    × (o.accounts.merchant_plan.state.total_subscribers ≡ 5 - 1)
cancel_any_plan_example = cancel_any_plan chain cancellation stranger ledger cancel_done
