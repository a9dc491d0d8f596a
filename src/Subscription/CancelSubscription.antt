-- ===== src/Subscription/CancelSubscription.antt =====
-- instructions/subscription/cancel_subscription.rs of the program.
use eventop.Base.{Option, none, [], ◌∷◌, ◌==◌}
use eventop.Errors.{subscription_inactive, unauthorized_cancellation}
use eventop.Runtime.Result.{Result, ok, ◌>>◌, require, check, constraint_raw}
use eventop.Runtime.Word.{saturating_sub}
use eventop.Runtime.Token.{Ledger}
use eventop.Runtime.Anchor.{Account, Signer, Solana, check_signer, check_seeds}
use eventop.State.SubscriptionWallet.{SubscriptionWallet}
use eventop.State.MerchantPlan.{MerchantPlan}
use eventop.State.SubscriptionState.{SubscriptionState, subscription_seeds}
use eventop.Events.{subscription_cancelled}
use eventop.Outcome.{Outcome, with_state}

pub record CancelSubscriptionWallet : Type 0 where
  pub subscription_state : Account SubscriptionState
  pub subscription_wallet : Account SubscriptionWallet
  pub merchant_plan : Account MerchantPlan
  pub user : Signer

-- The accounts afterwards: `close = user` removes the subscription's.
pub record CancelledAccounts : Type 0 where
  pub subscription_state : Account (Option SubscriptionState)
  pub subscription_wallet : Account SubscriptionWallet
  pub merchant_plan : Account MerchantPlan
  pub user : Signer

unfoldable pub try_accounts : Solana → CancelSubscriptionWallet → Result (Unit {0})
try_accounts solana ctx =
    let subscription = ctx.subscription_state.state in
    do
      check_signer ctx.user
      check_seeds solana
          (subscription_seeds subscription.user subscription.merchant subscription.mint)
          subscription.bump ctx.subscription_state.key
      require (subscription.user == ctx.user.key) unauthorized_cancellation
      check (ctx.subscription_wallet.key == subscription.subscription_wallet) constraint_raw

unfoldable pub handler : CancelSubscriptionWallet → Ledger → Result (Outcome CancelledAccounts)
handler ctx ledger =
    let subscription = ctx.subscription_state.state in
    let wallet = ctx.subscription_wallet.state in
    let plan = ctx.merchant_plan.state in
    do
      require subscription.is_active subscription_inactive
      ok (record {
        accounts = record {
          subscription_state = record { key = ctx.subscription_state.key; state = none };
          subscription_wallet =
              with_state ctx.subscription_wallet (record wallet {
                total_subscriptions = saturating_sub wallet.total_subscriptions 1;
              });
          merchant_plan =
              with_state ctx.merchant_plan
                (record plan { total_subscribers = saturating_sub plan.total_subscribers 1 });
          user = ctx.user;
        };
        ledger = ledger;
        events =
            subscription_cancelled (record {
              subscription_pda = ctx.subscription_state.key;
              wallet_pda = ctx.subscription_wallet.key;
              user = subscription.user;
              merchant = subscription.merchant;
              payments_made = subscription.payment_count;
            })
            ∷ [];
      })

-- The entry point in lib.rs.
unfoldable pub cancel_subscription_wallet :
    Solana → CancelSubscriptionWallet → Ledger → Result (Outcome CancelledAccounts)
cancel_subscription_wallet solana ctx ledger = try_accounts solana ctx >> handler ctx ledger
