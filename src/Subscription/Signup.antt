-- ===== src/Subscription/Signup.antt =====
-- instructions/subscription/subscribe.rs: what a subscription that is accepted has checked, and when
-- a session token can be used.
use eventop.Base.{
  ℕ, ℤ, ◌+◌, ◌*◌, ◌≤◌, ◌<◌, ◌≡◌, ◌≢◌, inl, arith, true, false, none, some, [], Text, length,
}
use eventop.Runtime.Result.{ok, err, Error, err_of_ne_ok, >>=-eq-ok}
use eventop.Runtime.Token.{Ledger}
use eventop.Runtime.Anchor.{Solana}
use eventop.Runtime.Laws.{IsSolana, max_seed_len}
use eventop.State.SubscriptionState.{SubscriptionState}
use eventop.State.SessionToken.{session_seeds}
use eventop.Outcome.{Outcome}
use eventop.Subscription.Subscribe.{
  SubscribeWithWallet, Bumps, tracker_or_new, try_accounts, handler, subscribe_with_wallet,
}

-- The subscription that the plan and the signer determine.
abbrev pub opened : SubscribeWithWallet → ℕ → Text → ℤ → SubscriptionState
opened ctx bump session_token now = record {
  user = ctx.user.key;
  subscription_wallet = ctx.subscription_wallet.key;
  merchant = ctx.merchant_plan.state.merchant;
  mint = ctx.merchant_plan.state.mint;
  merchant_plan = ctx.merchant_plan.key;
  fee_amount = ctx.merchant_plan.state.fee_amount;
  payment_interval = ctx.merchant_plan.state.payment_interval;
  last_payment_timestamp = now;
  total_paid = 0;
  payment_count = 0;
  is_active = true;
  session_token = session_token;
  bump = bump;
}

pub record IsSubscribed (ctx : SubscribeWithWallet) (session_token : Text) (now : ℤ)
    (o : Outcome SubscribeWithWallet) : Type 0 where
  pub signed : ctx.user.is_signer ≡ true
  pub owner : ctx.subscription_wallet.state.owner ≡ ctx.user.key
  pub active : ctx.merchant_plan.state.is_active ≡ true
  pub fresh : ctx.subscription_state.state ≡ none
  pub unused : (tracker_or_new ctx.session_token_tracker.state).is_used ≡ false
  pub named : session_token ≢ []
  pub reserve : ctx.merchant_plan.state.fee_amount * 3 ≤ ctx.wallet_token_account.state.amount
  pub used : (tracker_or_new o.accounts.session_token_tracker.state).is_used ≡ true
  pub wallet_count :
      o.accounts.subscription_wallet.state.total_subscriptions
      ≡ ctx.subscription_wallet.state.total_subscriptions + 1
  pub plan_count :
      o.accounts.merchant_plan.state.total_subscribers
      ≡ ctx.merchant_plan.state.total_subscribers + 1

module _ (solana : Solana) (ctx : SubscribeWithWallet) (session_token : Text) (now : ℤ)
    (l : Ledger) where
  accounts_checked :
      {b : Bumps}
      → try_accounts solana ctx session_token ≡ ok b
      → (ctx.user.is_signer ≡ true)
        × (ctx.subscription_state.state ≡ none)
        × ((tracker_or_new ctx.session_token_tracker.state).is_used ≡ false)
  unfolding try_accounts
  accounts_checked h = ground arith

  handler-IsSubscribed :
      (b : Bumps) {o : Outcome SubscribeWithWallet}
      → try_accounts solana ctx session_token ≡ ok b
      → handler ctx b session_token now l ≡ ok o
      → IsSubscribed ctx session_token now o
        × (o.accounts.subscription_state.state
            ≡ some (opened ctx b.subscription_state session_token now))
  unfolding handler
  handler-IsSubscribed b checked h = ground (arith, accounts_checked checked)

  -- A subscription that is accepted is the signer's, on an own wallet that holds three fees, under
  -- the plan's terms, and uses up its session token.
  pub subscribe-IsSubscribed :
      {o : Outcome SubscribeWithWallet}
      → subscribe_with_wallet solana ctx session_token now l ≡ ok o
      → IsSubscribed ctx session_token now o
        × ((bump : ℕ) × (o.accounts.subscription_state.state
              ≡ some (opened ctx bump session_token now)))
  unfolding subscribe_with_wallet
  subscribe-IsSubscribed h =
      let (b, checked, done) = >>=-eq-ok (try_accounts solana ctx session_token) _ h in
      let (facts, state) = handler-IsSubscribed b checked done in
      (facts, (b.subscription_state, state))

-- A second subscription on the tracker that an accepted one left fails, whatever the other accounts,
-- the token and the time are.
pub session_token_single_use :
    (solana : Solana) (ctx ctx' : SubscribeWithWallet) (token token' : Text) (now now' : ℤ)
    (l l' : Ledger) {o : Outcome SubscribeWithWallet}
    → subscribe_with_wallet solana ctx token now l ≡ ok o
    → ctx'.session_token_tracker ≡ o.accounts.session_token_tracker
    → (e : Error) × (subscribe_with_wallet solana ctx' token' now' l' ≡ err e)
session_token_single_use solana ctx ctx' token token' now now' l l' {o} first same =
    err_of_ne_ok (subscribe_with_wallet solana ctx' token' now' l') λ o' second.
      let a = (subscribe-IsSubscribed solana ctx token now l first).0 in
      let b = (subscribe-IsSubscribed solana ctx' token' now' l' second).0 in
      cc (a.used, b.unused, same)

-- A subscription with a session token of more than 32 bytes is never accepted.
pub long_token_fails :
    {solana : Solana} (laws : IsSolana solana) (ctx : SubscribeWithWallet) (token : Text) (now : ℤ)
    (l : Ledger)
    → max_seed_len < length token
    → (e : Error) × (subscribe_with_wallet solana ctx token now l ≡ err e)
unfolding subscribe_with_wallet try_accounts
long_token_fails {solana} laws ctx token now l long =
    let lost = laws.find_too_long (session_seeds token) (inl long) in
    err_of_ne_ok (subscribe_with_wallet solana ctx token now l) λ o h. ground arith
