-- ===== src/Registry/Release.antt =====
-- A subscriber can always leave: a subscription that is open can be cancelled.
use eventop.Base.{ℤ, ◌≡◌, sym, arith, true, some, List, Text, ==_iff}
use mathlib.Core.Path.{subst}
use eventop.Base.Assoc.{find, put, remove, find-put, find-remove, Unique}
use eventop.Runtime.Result.{ok, ok_of_ne_err}
use eventop.Runtime.Token.{Ledger}
use eventop.Runtime.Anchor.{Pubkey, Solana, check_seeds}
use eventop.Runtime.Laws.{IsSolana}
use eventop.State.SubscriptionState.{SubscriptionState, subscription_seeds, get_pda}
use eventop.Outcome.{Outcome}
use eventop.Subscription.ExecutePayment
use eventop.Subscription.ExecutePayment.{ExecutePaymentFromWallet, execute_payment_from_wallet}
use eventop.Subscription.CancelSubscription
use eventop.Subscription.CancelSubscription.{
  CancelSubscriptionWallet, CancelledAccounts, cancel_subscription_wallet,
}
use eventop.Subscription.PaymentFees.{payment-no-redemption, handler_of_payment}
use eventop.Addresses.{subscribe_accepted}
use eventop.Registry.{Registry, create, trade, subscribe, pay, cancel, Reachable, start, next}
use eventop.Registry.Effects.{subscribe-Opens}
use eventop.Registry.Lifecycle.{Reachable-Unique, subscribe-IsNew}

-- A subscription that is active, and stands at the address of its user, merchant and mint.
abbrev IsOpen : Solana → Pubkey → SubscriptionState → Type 0
IsOpen solana k s =
    (s.is_active ≡ true)
    × (check_seeds solana (subscription_seeds s.user s.merchant s.mint) s.bump k ≡ ok tt)
    × (get_pda solana s.user s.merchant s.mint ≡ ok (k, s.bump))

abbrev AreOpen : Solana → List (Pubkey × SubscriptionState) → Type 0
AreOpen solana m = (k : Pubkey) (s : SubscriptionState) → find k m ≡ some s → IsOpen solana k s

put-AreOpen :
    (solana : Solana) (j : Pubkey) (s : SubscriptionState) (m : List (Pubkey × SubscriptionState))
    → IsOpen solana j s
    → AreOpen solana m
    → AreOpen solana (put j s m)
put-AreOpen solana j s m new old k t found = ground (arith, find-put k j s m, old k t, ==_iff k j)

remove-AreOpen :
    (solana : Solana) (j : Pubkey) (m : List (Pubkey × SubscriptionState))
    → Unique m
    → AreOpen solana m
    → AreOpen solana (remove j m)
remove-AreOpen solana j m unique old k t found = ground (arith, find-remove k j m unique, old k t)

payment-IsOpen :
    (solana : Solana) (ctx : ExecutePaymentFromWallet) (now : ℤ) (l : Ledger)
    {o : Outcome ExecutePaymentFromWallet}
    → ExecutePayment.handler solana ctx now l ≡ ok o
    → IsOpen solana ctx.subscription_state.key ctx.subscription_state.state
    → IsOpen solana o.accounts.subscription_state.key o.accounts.subscription_state.state
unfolding ExecutePayment.handler
payment-IsOpen solana ctx now l h (active, there, derived) =
    ground (arith, payment-no-redemption solana ctx now l h)

Reachable-AreOpen :
    {solana : Solana} {r : Registry} {used : List Text}
    → IsSolana solana
    → Reachable solana r used
    → AreOpen solana r.subscriptions
Reachable-AreOpen laws start = λ k s found. cc
Reachable-AreOpen {solana} laws (next before (create ctx l o w _ _ _ e _) _) =
    subst (λ (q : Registry). AreOpen solana q.subscriptions) (sym e) (Reachable-AreOpen laws before)
Reachable-AreOpen {solana} laws (next before (trade ctx q l o _ _ e _) _) =
    subst (λ (q : Registry). AreOpen solana q.subscriptions) (sym e) (Reachable-AreOpen laws before)
Reachable-AreOpen {solana} laws
      (next {r} before (subscribe ctx token now l o s t _ _ _ done es et e _) _) =
    let c = subscribe-Opens solana ctx token now l done es et in
    let (derived, there) = subscribe_accepted laws ctx token now l done es in
    let active = (subscribe-IsNew solana ctx token now l done es).active in
    subst (λ (q : Registry). AreOpen solana q.subscriptions) (sym e)
      (put-AreOpen solana o.accounts.subscription_state.key s r.subscriptions
        (active, rw c.same_key there, rw c.same_key derived) (Reachable-AreOpen laws before))
Reachable-AreOpen {solana} laws (next {r} before (pay ctx now l o found _ done e _) _) =
    let old = Reachable-AreOpen laws before in
    let kept =
      payment-IsOpen solana ctx now l (handler_of_payment solana ctx now l done)
        (old ctx.subscription_state.key ctx.subscription_state.state found) in
    subst (λ (q : Registry). AreOpen solana q.subscriptions) (sym e)
      (put-AreOpen solana o.accounts.subscription_state.key o.accounts.subscription_state.state
        r.subscriptions kept old)
Reachable-AreOpen {solana} laws (next {r} before (cancel ctx l o _ _ _ e _) _) =
    subst (λ (q : Registry). AreOpen solana q.subscriptions) (sym e)
      (remove-AreOpen solana ctx.subscription_state.key r.subscriptions (Reachable-Unique before)
        (Reachable-AreOpen laws before))

-- After any history, a cancellation of a stored subscription that its user has signed goes through,
-- on the wallet that the subscription is charged to, whatever the wallet's and the plan's state.
pub cancel_succeeds :
    {solana : Solana} (laws : IsSolana solana) {r : Registry} {used : List Text}
    (h : Reachable solana r used) (ctx : CancelSubscriptionWallet) (l : Ledger)
    → find ctx.subscription_state.key r.subscriptions ≡ some ctx.subscription_state.state
    → ctx.user.is_signer ≡ true
    → ctx.user.key ≡ ctx.subscription_state.state.user
    → ctx.subscription_wallet.key ≡ ctx.subscription_state.state.subscription_wallet
    → (o : Outcome CancelledAccounts) × (cancel_subscription_wallet solana ctx l ≡ ok o)
unfolding cancel_subscription_wallet CancelSubscription.try_accounts CancelSubscription.handler
cancel_succeeds {solana} laws {r} h ctx l found signs user wallet =
    let (active, there, _) =
      Reachable-AreOpen laws h ctx.subscription_state.key ctx.subscription_state.state found in
    ok_of_ne_err (cancel_subscription_wallet solana ctx l) λ e bad. ground arith

-- After any history, there is at most one stored subscription of a user with a merchant in a mint,
-- whatever the merchant's plans.
pub subscription_unique :
    {solana : Solana} (laws : IsSolana solana) {r : Registry} {used : List Text}
    (h : Reachable solana r used) (k k' : Pubkey) (s s' : SubscriptionState)
    → find k r.subscriptions ≡ some s
    → find k' r.subscriptions ≡ some s'
    → s.user ≡ s'.user
    → s.merchant ≡ s'.merchant
    → s.mint ≡ s'.mint
    → k ≡ k'
subscription_unique laws h k k' s s' found found' user merchant mint =
    let (_, _, there) = Reachable-AreOpen laws h k s found in
    let (_, _, there') = Reachable-AreOpen laws h k' s' found' in cc
