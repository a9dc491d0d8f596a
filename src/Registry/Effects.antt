-- ===== src/Registry/Effects.antt =====
-- What each instruction does to the counts, the keys and the session tokens.
use eventop.Base.{ℕ, ℤ, ◌+◌, ◌≡◌, arith, true, false, none, some, Text}
use eventop.Runtime.Result.{ok, >>=-eq-ok}
use eventop.Runtime.Token.{Ledger}
use eventop.Runtime.Anchor.{Account, Solana}
use eventop.State.SubscriptionWallet.{SubscriptionWallet}
use eventop.State.SubscriptionState.{SubscriptionState}
use eventop.State.SessionToken.{SessionTokenTracker, session_seeds}
use eventop.Outcome.{Outcome}
use eventop.YieldOps.Accounts.{YieldAccounts}
use eventop.YieldOps.Request.{Request, enable, deposit, withdraw, disable, run}
use eventop.YieldOps.EnableYield
use eventop.YieldOps.DepositToYield
use eventop.YieldOps.WithdrawFromYield
use eventop.YieldOps.DisableYield
use eventop.Wallet.CreateWallet
use eventop.Wallet.CreateWallet.{CreateSubscriptionWallet, create_subscription_wallet}
use eventop.Subscription.PaymentFees.{payment-no-redemption}
use eventop.Subscription.ExecutePayment
use eventop.Subscription.ExecutePayment.{ExecutePaymentFromWallet, execute_payment_from_wallet}
use eventop.Subscription.Subscribe
use eventop.Subscription.Subscribe.{
  SubscribeWithWallet, Bumps, tracker_or_new, subscribe_with_wallet,
}
use eventop.Subscription.CancelSubscription
use eventop.Subscription.CancelSubscription.{
  CancelSubscriptionWallet, CancelledAccounts, cancel_subscription_wallet,
}

-- The wallet's account is written back under its key with the same number of subscriptions.
abbrev pub CountKept : Account SubscriptionWallet → Account SubscriptionWallet → Type 0
CountKept w w' = (w'.key ≡ w.key) × (w'.state.total_subscriptions ≡ w.state.total_subscriptions)

pub run-CountKept :
    (solana : Solana) (ctx : YieldAccounts) (q : Request) (l : Ledger) {o : Outcome YieldAccounts}
    → run solana ctx q l ≡ ok o
    → CountKept ctx.subscription_wallet o.accounts.subscription_wallet
unfolding run EnableYield.enable_yield DepositToYield.deposit_to_yield
    WithdrawFromYield.withdraw_from_yield DisableYield.disable_yield EnableYield.handler
    DepositToYield.handler WithdrawFromYield.handler DisableYield.handler
run-CountKept solana ctx (enable n) l h = ground arith
run-CountKept solana ctx (deposit n) l h = ground arith
run-CountKept solana ctx (withdraw n) l h = ground arith
run-CountKept solana ctx disable l h = ground arith

pub record CreatesWallet (ctx : CreateSubscriptionWallet) (w : SubscriptionWallet) : Type 0 where
  pub fresh : ctx.subscription_wallet.state ≡ none
  pub no_subscriptions : w.total_subscriptions ≡ 0

pub create-CreatesWallet :
    (solana : Solana) (ctx : CreateSubscriptionWallet) (l : Ledger)
    {o : Outcome CreateSubscriptionWallet} {w : SubscriptionWallet}
    → create_subscription_wallet solana ctx l ≡ ok o
    → o.accounts.subscription_wallet.state ≡ some w
    → CreatesWallet ctx w
unfolding create_subscription_wallet CreateWallet.try_accounts CreateWallet.handler
create-CreatesWallet solana ctx l h e = ground arith

-- The subscription's account is new, and the tracker's goes from unused to used.
pub record Opens (solana : Solana) (ctx : SubscribeWithWallet) (token : Text)
    (o : Outcome SubscribeWithWallet) (s : SubscriptionState) (t : SessionTokenTracker)
    : Type 0 where
  pub fresh : ctx.subscription_state.state ≡ none
  pub same_key : o.accounts.subscription_state.key ≡ ctx.subscription_state.key
  pub wallet_key : o.accounts.subscription_wallet.key ≡ ctx.subscription_wallet.key
  pub tracker_key : o.accounts.session_token_tracker.key ≡ ctx.session_token_tracker.key
  pub charged_to : s.subscription_wallet ≡ ctx.subscription_wallet.key
  pub one_more :
      o.accounts.subscription_wallet.state.total_subscriptions
      ≡ ctx.subscription_wallet.state.total_subscriptions + 1
  pub unused : (tracker_or_new ctx.session_token_tracker.state).is_used ≡ false
  pub used : t.is_used ≡ true
  pub address :
      (bump : ℕ) × (solana.find_program_address (session_seeds token)
        ≡ some (ctx.session_token_tracker.key, bump))

tracker_address :
    (solana : Solana) (ctx : SubscribeWithWallet) (token : Text) (b : Bumps)
    → Subscribe.try_accounts solana ctx token ≡ ok b
    → (ctx.subscription_state.state ≡ none)
      × ((tracker_or_new ctx.session_token_tracker.state).is_used ≡ false)
      × (solana.find_program_address (session_seeds token)
          ≡ some (ctx.session_token_tracker.key, b.session_token_tracker))
unfolding Subscribe.try_accounts
tracker_address solana ctx token b h = ground arith

pub subscribe-Opens :
    (solana : Solana) (ctx : SubscribeWithWallet) (token : Text) (now : ℤ) (l : Ledger)
    {o : Outcome SubscribeWithWallet} {s : SubscriptionState} {t : SessionTokenTracker}
    → subscribe_with_wallet solana ctx token now l ≡ ok o
    → o.accounts.subscription_state.state ≡ some s
    → o.accounts.session_token_tracker.state ≡ some t
    → Opens solana ctx token o s t
unfolding subscribe_with_wallet Subscribe.handler
subscribe-Opens solana ctx token now l {o} {s} {t} h es et =
    let (b, checked, done) = >>=-eq-ok (Subscribe.try_accounts solana ctx token) _ h in
    let (new, unused, there) = tracker_address solana ctx token b checked in
    record {
      fresh = new;
      same_key = ground arith;
      wallet_key = ground arith;
      tracker_key = ground arith;
      charged_to = ground arith;
      one_more = ground arith;
      unused = unused;
      used = ground arith;
      address = (b.session_token_tracker, there);
    }

abbrev pub PaysOn : ExecutePaymentFromWallet → Outcome ExecutePaymentFromWallet → Type 0
PaysOn ctx o =
    (o.accounts.subscription_state.key ≡ ctx.subscription_state.key)
    × (o.accounts.subscription_state.state.subscription_wallet
        ≡ ctx.subscription_state.state.subscription_wallet)
    × CountKept ctx.subscription_wallet o.accounts.subscription_wallet

pub payment-PaysOn :
    (solana : Solana) (ctx : ExecutePaymentFromWallet) (now : ℤ) (l : Ledger)
    {o : Outcome ExecutePaymentFromWallet}
    → ExecutePayment.handler solana ctx now l ≡ ok o
    → PaysOn ctx o
unfolding ExecutePayment.handler
payment-PaysOn solana ctx now l h = ground (arith, payment-no-redemption solana ctx now l h)

pub cancel_key :
    (solana : Solana) (ctx : CancelSubscriptionWallet) (l : Ledger) {o : Outcome CancelledAccounts}
    → cancel_subscription_wallet solana ctx l ≡ ok o
    → o.accounts.subscription_wallet.key ≡ ctx.subscription_wallet.key
unfolding cancel_subscription_wallet CancelSubscription.handler
cancel_key solana ctx l h = ground arith
