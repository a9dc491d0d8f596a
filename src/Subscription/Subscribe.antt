-- ===== src/Subscription/Subscribe.antt =====
-- instructions/subscription/subscribe.rs of the program.
use eventop.Base.{
  ℕ, ℤ, pos, true, false, not, ◌&&◌, Option, none, some, [], ◌∷◌, Text, length, is_empty, text_eq,
  leb, ◌==◌,
}
use eventop.Errors.{
  plan_inactive, unauthorized_wallet_access, session_token_too_long, session_token_required,
  session_token_already_used, insufficient_wallet_balance, math_overflow,
}
use eventop.Runtime.Result.{Result, ok, ◌>>=◌, ◌>>◌, require, ok_or, unwrap}
use eventop.Runtime.Word.{u32_mod, u64_mod, checked_add, checked_mul}
use eventop.Runtime.Token.{TokenAccount, Ledger}
use eventop.Runtime.Anchor.{
  Account, Signer, Solana, check_signer, check_init, check_canonical, check_token_mint,
  check_token_authority,
}
use eventop.State.SubscriptionWallet.{SubscriptionWallet, check_wallet_seeds}
use eventop.State.MerchantPlan.{MerchantPlan}
use eventop.State.SubscriptionState.{SubscriptionState, subscription_seeds}
use eventop.State.SessionToken.{SessionTokenTracker, session_seeds}
use eventop.Events.{subscription_created}
use eventop.Outcome.{Outcome, with_state}

pub record SubscribeWithWallet : Type 0 where
  pub subscription_state : Account (Option SubscriptionState)
  pub session_token_tracker : Account (Option SessionTokenTracker)
  pub subscription_wallet : Account SubscriptionWallet
  pub merchant_plan : Account MerchantPlan
  pub user : Signer
  pub wallet_token_account : Account TokenAccount

pub record Bumps : Type 0 where
  pub subscription_state : ℕ
  pub session_token_tracker : ℕ

-- `init_if_needed`: an account that did not exist has zeroes.
abbrev pub tracker_or_new : Option SessionTokenTracker → SessionTokenTracker
tracker_or_new none = record {
  session_token = [];
  user = 0;
  subscription = 0;
  timestamp = pos 0;
  is_used = false;
  bump = 0;
}
tracker_or_new (some tracker) = tracker

unfoldable pub try_accounts : Solana → SubscribeWithWallet → Text → Result Bumps
try_accounts solana ctx session_token =
    let plan = ctx.merchant_plan.state in
    do
      check_signer ctx.user
      subscription_bump ←
          check_canonical solana (subscription_seeds ctx.user.key plan.merchant plan.mint)
            ctx.subscription_state.key
      check_init ctx.subscription_state
      tracker_bump ←
          check_canonical solana (session_seeds session_token) ctx.session_token_tracker.key
      require (not (tracker_or_new ctx.session_token_tracker.state).is_used)
          session_token_already_used
      check_wallet_seeds solana ctx.subscription_wallet
      require plan.is_active plan_inactive
      check_token_authority ctx.wallet_token_account ctx.subscription_wallet.key
      check_token_mint ctx.wallet_token_account ctx.subscription_wallet.state.mint
      ok (record { subscription_state = subscription_bump; session_token_tracker = tracker_bump })

unfoldable pub handler :
    SubscribeWithWallet
    → Bumps
    → Text
    → (current_time : ℤ) → Ledger
    → Result (Outcome SubscribeWithWallet)
handler ctx bumps session_token current_time ledger =
    let plan = ctx.merchant_plan.state in
    let wallet = ctx.subscription_wallet.state in
    let tracker = tracker_or_new ctx.session_token_tracker.state in
    do
      require plan.is_active plan_inactive
      require (wallet.owner == ctx.user.key) unauthorized_wallet_access
      require (leb (length session_token) 64) session_token_too_long
      require (not (is_empty session_token)) session_token_required
      require (not tracker.is_used) session_token_already_used
      require
          (not (
            not (is_empty tracker.session_token)
            && not (text_eq tracker.session_token session_token)))
          session_token_already_used
      min_buffer ← unwrap (checked_mul u64_mod plan.fee_amount 3)
      require (leb min_buffer ctx.wallet_token_account.state.amount) insufficient_wallet_balance
      total_subscriptions ← ok_or (checked_add u32_mod wallet.total_subscriptions 1) math_overflow
      total_subscribers ← ok_or (checked_add u32_mod plan.total_subscribers 1) math_overflow
      ok (record {
        accounts = record ctx {
          subscription_state = with_state ctx.subscription_state (
              some (record {
                user = ctx.user.key;
                subscription_wallet = ctx.subscription_wallet.key;
                merchant = plan.merchant;
                mint = plan.mint;
                merchant_plan = ctx.merchant_plan.key;
                fee_amount = plan.fee_amount;
                payment_interval = plan.payment_interval;
                last_payment_timestamp = current_time;
                total_paid = 0;
                payment_count = 0;
                is_active = true;
                session_token = session_token;
                bump = bumps.subscription_state;
              }));
          session_token_tracker = with_state ctx.session_token_tracker (
              some (record {
                session_token = session_token;
                user = ctx.user.key;
                subscription = ctx.subscription_state.key;
                timestamp = current_time;
                is_used = true;
                bump = bumps.session_token_tracker;
              }));
          subscription_wallet =
              with_state ctx.subscription_wallet
                (record wallet { total_subscriptions = total_subscriptions });
          merchant_plan =
              with_state ctx.merchant_plan (record plan { total_subscribers = total_subscribers });
        };
        ledger = ledger;
        events =
            subscription_created (record {
              subscription_pda = ctx.subscription_state.key;
              user = ctx.user.key;
              wallet = ctx.subscription_wallet.key;
              merchant = plan.merchant;
              plan_id = plan.plan_id;
              session_token = session_token;
            })
            ∷ [];
      })

-- The entry point in lib.rs.
unfoldable pub subscribe_with_wallet :
    Solana → SubscribeWithWallet → Text → ℤ → Ledger → Result (Outcome SubscribeWithWallet)
subscribe_with_wallet solana ctx session_token current_time ledger =
    try_accounts solana ctx session_token >>= λ bumps.
    handler ctx bumps session_token current_time ledger
