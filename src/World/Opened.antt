-- ===== src/World/Opened.antt =====
-- What a sign-up leaves in the subscription and in the session token's tracker, and that a
-- cancellation removes the subscription.
use eventop.Base.{ℕ, ℤ, ◌≡◌, refl, sym, arith, true, false, Option, none, some, Text}
use eventop.Runtime.Result.{ok, >>=-eq-ok}
use eventop.Runtime.Token.{Ledger}
use eventop.Runtime.Anchor.{Pubkey, Account, Solana}
use eventop.Outcome.{Outcome}
use eventop.State.SubscriptionState.{SubscriptionState, subscription_seeds}
use eventop.State.SessionToken.{SessionTokenTracker, session_seeds}
use eventop.Subscription.Subscribe
use eventop.Subscription.Subscribe.{SubscribeWithWallet, subscribe_with_wallet}
use eventop.Subscription.Signup.{opened}
use eventop.Subscription.CancelSubscription
use eventop.Subscription.CancelSubscription.{
  CancelSubscriptionWallet, CancelledAccounts, cancel_subscription_wallet,
}
use eventop.World.Made.{Makes}

-- A tracker that is written was unused, and is used.
abbrev pub Marks : (t t' : Account (Option SessionTokenTracker)) → Type 0
Marks t t' =
    ((Subscribe.tracker_or_new t.state).is_used ≡ false)
    × (v : SessionTokenTracker) × (t' ≡ record { key = t.key; state = some v })
    × (v.is_used ≡ true)

module _ (solana : Solana) where
  -- A tracker stands at the address of its token, which is used.
  pub record TrackerFits (k : Pubkey) (t : SessionTokenTracker) : Type 0 where
    pub address : solana.find_program_address (session_seeds t.session_token) ≡ some (k, t.bump)
    pub used : t.is_used ≡ true

  -- A new subscription has its plan's terms, and is charged to a wallet of its user.
  pub record OpenedOn (ctx : SubscribeWithWallet) (k : Pubkey) (s : SubscriptionState)
      : Type 0 where
    pub address :
        solana.find_program_address (subscription_seeds s.user s.merchant s.mint) ≡ some (k, s.bump)
    pub active : s.is_active ≡ true
    pub wallet : s.subscription_wallet ≡ ctx.subscription_wallet.key
    pub user : s.user ≡ ctx.subscription_wallet.state.owner
    pub plan : s.merchant_plan ≡ ctx.merchant_plan.key
    pub merchant : s.merchant ≡ ctx.merchant_plan.state.merchant
    pub mint : s.mint ≡ ctx.merchant_plan.state.mint
    pub fee : s.fee_amount ≡ ctx.merchant_plan.state.fee_amount
    pub interval : s.payment_interval ≡ ctx.merchant_plan.state.payment_interval

  subscription_checked :
      (ctx : SubscribeWithWallet) (token : Text) {b : Subscribe.Bumps}
      → Subscribe.try_accounts solana ctx token ≡ ok b
      → (ctx.subscription_state.state ≡ none)
        × (solana.find_program_address (
              subscription_seeds ctx.user.key ctx.merchant_plan.state.merchant
                ctx.merchant_plan.state.mint)
            ≡ some (ctx.subscription_state.key, b.subscription_state))
  unfolding Subscribe.try_accounts
  subscription_checked ctx token h = ground arith

  signup_writes :
      (ctx : SubscribeWithWallet) (b : Subscribe.Bumps) (token : Text) (now : ℤ) (l : Ledger)
      {o : Outcome SubscribeWithWallet}
      → Subscribe.handler ctx b token now l ≡ ok o
      → (ctx.subscription_wallet.state.owner ≡ ctx.user.key)
        × (o.accounts.subscription_state.key ≡ ctx.subscription_state.key)
        × (o.accounts.subscription_state.state ≡ some (opened ctx b.subscription_state token now))
  unfolding Subscribe.handler
  signup_writes ctx b token now l h = ground arith

  pub subscribe-Makes :
      (ctx : SubscribeWithWallet) (token : Text) (now : ℤ) (l : Ledger)
      {o : Outcome SubscribeWithWallet}
      → subscribe_with_wallet solana ctx token now l ≡ ok o
      → Makes (OpenedOn ctx) ctx.subscription_state o.accounts.subscription_state
  unfolding subscribe_with_wallet
  subscribe-Makes ctx token now l h =
      let (b, checked, done) = >>=-eq-ok (Subscribe.try_accounts solana ctx token) _ h in
      let (fresh, address) = subscription_checked ctx token checked in
      let (owner, key, state) = signup_writes ctx b token now l done in
      (
        fresh,
        opened ctx b.subscription_state token now,
        cc,
        record {
          address = address;
          active = refl;
          wallet = refl;
          user = sym owner;
          plan = refl;
          merchant = refl;
          mint = refl;
          fee = refl;
          interval = refl;
        },
      )

  tracker_checked :
      (ctx : SubscribeWithWallet) (token : Text) {b : Subscribe.Bumps}
      → Subscribe.try_accounts solana ctx token ≡ ok b
      → (Subscribe.tracker_or_new ctx.session_token_tracker.state).is_used ≡ false
  unfolding Subscribe.try_accounts
  tracker_checked ctx token h = ground arith

  abbrev marked : SubscribeWithWallet → ℕ → Text → ℤ → SessionTokenTracker
  marked ctx bump token now = record {
    session_token = token;
    user = ctx.user.key;
    subscription = ctx.subscription_state.key;
    timestamp = now;
    is_used = true;
    bump = bump;
  }

  tracker_writes :
      (ctx : SubscribeWithWallet) (b : Subscribe.Bumps) (token : Text) (now : ℤ) (l : Ledger)
      {o : Outcome SubscribeWithWallet}
      → Subscribe.handler ctx b token now l ≡ ok o
      → o.accounts.session_token_tracker ≡ record {
        key = ctx.session_token_tracker.key;
        state = some (marked ctx b.session_token_tracker token now);
      }
  unfolding Subscribe.handler
  tracker_writes ctx b token now l h = ground arith

  pub subscribe-Marks :
      (ctx : SubscribeWithWallet) (token : Text) (now : ℤ) (l : Ledger)
      {o : Outcome SubscribeWithWallet}
      → subscribe_with_wallet solana ctx token now l ≡ ok o
      → Marks ctx.session_token_tracker o.accounts.session_token_tracker
  unfolding subscribe_with_wallet
  subscribe-Marks ctx token now l {o} h =
      let (b, checked, done) = >>=-eq-ok (Subscribe.try_accounts solana ctx token) _ h in
      (
        tracker_checked ctx token checked,
        marked ctx b.session_token_tracker token now,
        tracker_writes ctx b token now l done,
        refl,
      )

  tracker_address :
      (ctx : SubscribeWithWallet) (token : Text) {b : Subscribe.Bumps}
      → Subscribe.try_accounts solana ctx token ≡ ok b
      → solana.find_program_address (session_seeds token)
        ≡ some (ctx.session_token_tracker.key, b.session_token_tracker)
  unfolding Subscribe.try_accounts
  tracker_address ctx token h = ground arith

  -- The tracker that a sign-up leaves.
  pub subscribe-Tracks :
      (ctx : SubscribeWithWallet) (token : Text) (now : ℤ) (l : Ledger)
      {o : Outcome SubscribeWithWallet}
      → subscribe_with_wallet solana ctx token now l ≡ ok o
      → (t : SessionTokenTracker) × (o.accounts.session_token_tracker
          ≡ record { key = ctx.session_token_tracker.key; state = some t })
        × TrackerFits ctx.session_token_tracker.key t
  unfolding subscribe_with_wallet
  subscribe-Tracks ctx token now l h =
      let (b, checked, done) = >>=-eq-ok (Subscribe.try_accounts solana ctx token) _ h in
      (
        marked ctx b.session_token_tracker token now,
        tracker_writes ctx b token now l done,
        record { address = tracker_address ctx token checked; used = refl },
      )

  pub cancel_closes :
      (ctx : CancelSubscriptionWallet) (l : Ledger) {o : Outcome CancelledAccounts}
      → cancel_subscription_wallet solana ctx l ≡ ok o
      → o.accounts.subscription_state ≡ record { key = ctx.subscription_state.key; state = none }
  unfolding cancel_subscription_wallet CancelSubscription.handler
  cancel_closes ctx l h = ground arith
