-- ===== src/Subscription/Cancellation.antt =====
-- instructions/subscription/cancel_subscription.rs: who can cancel, and what is counted.
use eventop.Base.{◌-◌, ◌≡◌, arith, true, none}
use eventop.Runtime.Result.{ok, ok_of_ne_err}
use eventop.Runtime.Token.{Ledger}
use eventop.Runtime.Anchor.{Solana, Account}
use eventop.State.MerchantPlan.{MerchantPlan}
use eventop.Outcome.{Outcome}
use eventop.Subscription.CancelSubscription.{
  CancelSubscriptionWallet, CancelledAccounts, try_accounts, handler, cancel_subscription_wallet,
}

pub record IsCancelled (ctx : CancelSubscriptionWallet) (l : Ledger) (o : Outcome CancelledAccounts)
    : Type 0 where
  pub signed : ctx.user.is_signer ≡ true
  pub by_user : ctx.subscription_state.state.user ≡ ctx.user.key
  pub was_active : ctx.subscription_state.state.is_active ≡ true
  pub own_wallet : ctx.subscription_wallet.key ≡ ctx.subscription_state.state.subscription_wallet
  pub closed : o.accounts.subscription_state.state ≡ none
  pub wallet_count :
      o.accounts.subscription_wallet.state.total_subscriptions
      ≡ ctx.subscription_wallet.state.total_subscriptions - 1
  pub plan_count :
      o.accounts.merchant_plan.state.total_subscribers
      ≡ ctx.merchant_plan.state.total_subscribers - 1
  pub no_transfer : o.ledger ≡ l

-- A cancellation is signed by the subscriber of an active subscription, closes its account, lowers
-- both counts by one, down to 0, and moves no token.
pub cancel-IsCancelled :
    (solana : Solana) (ctx : CancelSubscriptionWallet) (l : Ledger) {o : Outcome CancelledAccounts}
    → cancel_subscription_wallet solana ctx l ≡ ok o
    → IsCancelled ctx l o
unfolding cancel_subscription_wallet try_accounts handler
cancel-IsCancelled solana ctx l h = ground arith

-- The same accounts with another plan.
abbrev pub with_plan : Account MerchantPlan → CancelSubscriptionWallet → CancelSubscriptionWallet
with_plan plan ctx = record ctx { merchant_plan = plan }

cancels :
    (solana : Solana) (ctx : CancelSubscriptionWallet) (plan : Account MerchantPlan) (l : Ledger)
    {o : Outcome CancelledAccounts}
    → cancel_subscription_wallet solana ctx l ≡ ok o
    → (o' : Outcome CancelledAccounts) × (cancel_subscription_wallet solana (with_plan plan ctx) l
        ≡ ok o')
unfolding cancel_subscription_wallet try_accounts handler
cancels solana ctx plan l h =
    ok_of_ne_err (cancel_subscription_wallet solana (with_plan plan ctx) l) λ e bad. ground arith

-- Where a cancellation goes through it also goes through with any other plan account, and lowers that
-- plan's count of subscribers by one, where it is not 0 already.
pub cancel_any_plan :
    (solana : Solana) (ctx : CancelSubscriptionWallet) (plan : Account MerchantPlan) (l : Ledger)
    {o : Outcome CancelledAccounts}
    → cancel_subscription_wallet solana ctx l ≡ ok o
    → (o' : Outcome CancelledAccounts) × (cancel_subscription_wallet solana (with_plan plan ctx) l
        ≡ ok o')
      × (o'.accounts.merchant_plan.state.total_subscribers ≡ plan.state.total_subscribers - 1)
cancel_any_plan solana ctx plan l {o} h =
    let (o', done) = cancels solana ctx plan l h in
    (o', done, (cancel-IsCancelled solana (with_plan plan ctx) l done).plan_count)
