-- ===== src/Tests/Registries.antt =====
-- A new wallet, a subscription that it is charged for, and the subscription cancelled and opened
-- again with another session token, and then paid for.
use eventop.Base.{some, true, ℕ, pos, ◌≡◌, refl, none, [], ◌∷◌, Text}
use eventop.State.SubscriptionState.{SubscriptionState}
use eventop.State.SessionToken.{SessionTokenTracker}
use eventop.Outcome.{Outcome}
use eventop.Subscription.Subscribe.{SubscribeWithWallet, subscribe_with_wallet}
use eventop.Subscription.CancelSubscription.{
  CancelSubscriptionWallet, CancelledAccounts, cancel_subscription_wallet,
}
use eventop.Registry.{
  Registry, Reachable, Step, start, next, create, subscribe, pay, cancel, empty, store_wallet,
  store_subscription, store_tracker, close_subscription,
}
use eventop.Registry.Consent.{Agrees, SignedUp, payment-SignedUp}
use eventop.Registry.Spending.{charges, total_spent-eq}
use eventop.Registry.Lifecycle.{LifeStep, SignedStep, Reachable-LifeStep}
use eventop.Subscription.ExecutePayment.{ExecutePaymentFromWallet, execute_payment_from_wallet}
use eventop.Runtime.Result.{ok}
use eventop.Tests.Payment.{charge}
use eventop.Registry.Counts.{open_subscriptions, total_subscriptions-eq}
use eventop.Registry.Tokens.{AreDistinct, Reachable-AreDistinct}
use eventop.Registry.Release.{subscription_unique}
use eventop.Tests.Accounts.{value_or, done, ledger, account, signer, plan, subscription, token}
use eventop.Tests.Chain.{chain, chain-IsSolana}
use eventop.Tests.Derived.{creation, created, new_wallet}
use eventop.Tests.Signup.{signup}

abbrev with_wallet : Registry
with_wallet = store_wallet (account 1119 new_wallet) empty

abbrev opening : SubscribeWithWallet
opening = record signup { subscription_wallet = account 1119 new_wallet }

abbrev opened : Outcome SubscribeWithWallet
opened = value_or (done opening ledger) (subscribe_with_wallet chain opening token (pos 500) ledger)

abbrev opened_state : SubscriptionState
opened_state = record (subscription.state) { total_paid = 0; payment_count = 0 }

abbrev tracker_of : Text → ℕ → SessionTokenTracker
tracker_of t now = record {
  session_token = t;
  user = 1000;
  subscription = 6112;
  timestamp = pos now;
  is_used = true;
  bump = 255;
}

abbrev with_subscription : Registry
with_subscription =
    store_wallet opened.accounts.subscription_wallet
      (store_subscription 6112 opened_state (store_tracker 16 (tracker_of token 500) with_wallet))

abbrev closing : CancelSubscriptionWallet
closing = record {
  subscription_state = account 6112 opened_state;
  subscription_wallet = opened.accounts.subscription_wallet;
  merchant_plan = plan;
  user = signer 1000;
}

abbrev closed : Outcome CancelledAccounts
closed =
    value_or
      (record {
        accounts = record {
          subscription_state = account 0 none;
          subscription_wallet = closing.subscription_wallet;
          merchant_plan = plan;
          user = signer 1000;
        };
        ledger = ledger;
        events = [];
      })
      (cancel_subscription_wallet chain closing ledger)

abbrev without_subscription : Registry
without_subscription =
    store_wallet closed.accounts.subscription_wallet (close_subscription 6112 with_subscription)

abbrev next_token : Text
next_token = 97 ∷ 98 ∷ 99 ∷ 100 ∷ []

abbrev reopening : SubscribeWithWallet
reopening = record opening {
  session_token_tracker = account 17 none;
  subscription_wallet = closed.accounts.subscription_wallet;
}

abbrev reopened : Outcome SubscribeWithWallet
reopened =
    value_or (done reopening ledger)
      (subscribe_with_wallet chain reopening next_token (pos 700) ledger)

abbrev reopened_state : SubscriptionState
reopened_state = record opened_state {
  last_payment_timestamp = pos 700;
  session_token = next_token;
}

abbrev with_second : Registry
with_second = store_wallet reopened.accounts.subscription_wallet (
    store_subscription 6112 reopened_state
      (store_tracker 17 (tracker_of next_token 700) without_subscription))

history : Reachable chain with_second (next_token ∷ token ∷ [])
unfolding eventop.Wallet.CreateWallet.create_subscription_wallet
    eventop.Wallet.CreateWallet.try_accounts eventop.Wallet.CreateWallet.handler
    subscribe_with_wallet eventop.Subscription.Subscribe.try_accounts
    eventop.Subscription.Subscribe.handler cancel_subscription_wallet
    eventop.Subscription.CancelSubscription.try_accounts
    eventop.Subscription.CancelSubscription.handler
history =
    next
      (next
        (next (next start (create creation ledger created new_wallet refl refl refl refl refl) refl)
          (subscribe opening token (pos 500) ledger opened opened_state (tracker_of token 500) refl
            refl refl refl refl refl refl refl)
          refl)
        (cancel closing ledger closed refl refl refl refl refl) refl)
      (subscribe reopening next_token (pos 700) ledger reopened reopened_state
        (tracker_of next_token 700) refl refl refl refl refl refl refl refl)
      refl

abbrev charging : ExecutePaymentFromWallet
charging = record charge {
  subscription_state = account 6112 reopened_state;
  subscription_wallet = reopened.accounts.subscription_wallet;
}

abbrev charged : Outcome ExecutePaymentFromWallet
charged =
    value_or (done charging ledger) (execute_payment_from_wallet chain charging (pos 800) ledger)

charging_done : execute_payment_from_wallet chain charging (pos 800) ledger ≡ ok charged
unfolding execute_payment_from_wallet eventop.Subscription.ExecutePayment.try_accounts
    subscribe_with_wallet eventop.Subscription.Subscribe.try_accounts cancel_subscription_wallet
    eventop.Subscription.CancelSubscription.try_accounts eventop.Subscription.Subscribe.handler
    eventop.Subscription.CancelSubscription.handler eventop.Subscription.ExecutePayment.handler
    eventop.Runtime.Word.sub_i64 eventop.Base.◌-ℤ◌
    eventop.Subscription.ExecutePayment.protocol_fee_of eventop.Subscription.ExecutePayment.settle
    eventop.Subscription.ExecutePayment.pay
charging_done = refl

abbrev with_payment : Registry
with_payment =
    store_wallet charged.accounts.subscription_wallet
      (store_subscription 6112 charged.accounts.subscription_state.state with_second)

charge_step : Step chain with_second with_payment []
unfolding subscribe_with_wallet eventop.Subscription.Subscribe.try_accounts
    eventop.Subscription.Subscribe.handler cancel_subscription_wallet
    eventop.Subscription.CancelSubscription.try_accounts
    eventop.Subscription.CancelSubscription.handler execute_payment_from_wallet
    eventop.Subscription.ExecutePayment.try_accounts eventop.Subscription.ExecutePayment.handler
    eventop.Runtime.Word.sub_i64 eventop.Base.◌-ℤ◌
    eventop.Subscription.ExecutePayment.protocol_fee_of eventop.Subscription.ExecutePayment.settle
    eventop.Subscription.ExecutePayment.pay
charge_step = pay charging (pos 800) ledger charged refl refl charging_done refl refl

total_subscriptions-eq_example :
    reopened.accounts.subscription_wallet.state.total_subscriptions
    ≡ open_subscriptions 1119 with_second
unfolding subscribe_with_wallet eventop.Subscription.Subscribe.try_accounts
    eventop.Subscription.Subscribe.handler cancel_subscription_wallet
    eventop.Subscription.CancelSubscription.try_accounts
    eventop.Subscription.CancelSubscription.handler
total_subscriptions-eq_example =
    total_subscriptions-eq 1119 reopened.accounts.subscription_wallet.state history refl

Reachable-AreDistinct_example : AreDistinct (next_token ∷ token ∷ [])
Reachable-AreDistinct_example = Reachable-AreDistinct history

payment-SignedUp_example :
    SignedUp (λ c t. Agrees reopened_state c t × (1119 ≡ c.subscription_wallet.key)) history
unfolding history
payment-SignedUp_example =
    payment-SignedUp history charging (pos 800) ledger {o = charged} refl charging_done

-- One payment of 1,000 units.
total_spent-eq_example :
    charged.accounts.subscription_wallet.state.total_spent
    ≡ charges 1119 (next history charge_step refl)
unfolding subscribe_with_wallet eventop.Subscription.Subscribe.try_accounts
    eventop.Subscription.Subscribe.handler cancel_subscription_wallet
    eventop.Subscription.CancelSubscription.try_accounts
    eventop.Subscription.CancelSubscription.handler execute_payment_from_wallet
    eventop.Subscription.ExecutePayment.try_accounts eventop.Subscription.ExecutePayment.handler
    eventop.Runtime.Word.sub_i64 eventop.Base.◌-ℤ◌
    eventop.Subscription.ExecutePayment.protocol_fee_of eventop.Subscription.ExecutePayment.settle
    eventop.Subscription.ExecutePayment.pay
total_spent-eq_example =
    total_spent-eq 1119 charged.accounts.subscription_wallet.state (next history charge_step refl)
      refl

Reachable-LifeStep_example :
    LifeStep
      (SignedStep charge_step)
      (some reopened_state)
      (some charged.accounts.subscription_state.state)
Reachable-LifeStep_example = Reachable-LifeStep 6112 history charge_step

abbrev leaving : CancelSubscriptionWallet
leaving = record closing {
  subscription_state = account 6112 reopened_state;
  subscription_wallet = reopened.accounts.subscription_wallet;
}

subscription_unique_example : leaving.subscription_state.key ≡ 6112
subscription_unique_example =
    subscription_unique chain-IsSolana history 6112 6112 reopened_state reopened_state refl refl
      refl refl refl
