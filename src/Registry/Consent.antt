-- ===== src/Registry/Consent.antt =====
-- What a subscriber has signed: every subscription of the program, and every charge for one, goes
-- back to a sign-up in the history.
use eventop.Base.{ℤ, ◌≡◌, ◌∙◌, sym, ap, arith, true, some, inl, inr, ◌⊎◌, List, Text}
use mathlib.Core.Path.{subst}
use eventop.Base.Assoc.{All, find-All, put-All, remove-All, All-map, find}
use eventop.Runtime.Result.{ok}
use eventop.Runtime.Token.{Ledger}
use eventop.Runtime.Anchor.{Solana}
use eventop.State.SubscriptionState.{SubscriptionState}
use eventop.Outcome.{Outcome}
use eventop.Subscription.Subscribe.{SubscribeWithWallet, subscribe_with_wallet}
use eventop.Subscription.ExecutePayment
use eventop.Subscription.ExecutePayment.{ExecutePaymentFromWallet, execute_payment_from_wallet}
use eventop.Subscription.Signup.{subscribe-IsSubscribed}
use eventop.Subscription.PaymentFees.{payment-no-redemption, handler_of_payment}
use eventop.Registry.{Registry, create, trade, subscribe, pay, cancel, Reachable, start, next}

-- The owner of a wallet has signed the sign-up `c`, and `s` is charged to that wallet as it says.
pub record Agrees (s : SubscriptionState) (c : SubscribeWithWallet) (token : Text) : Type 0 where
  pub signed : c.user.is_signer ≡ true
  pub owner : c.subscription_wallet.state.owner ≡ c.user.key
  pub user : s.user ≡ c.user.key
  pub wallet : s.subscription_wallet ≡ c.subscription_wallet.key
  pub plan : s.merchant_plan ≡ c.merchant_plan.key
  pub merchant : s.merchant ≡ c.merchant_plan.state.merchant
  pub fee : s.fee_amount ≡ c.merchant_plan.state.fee_amount
  pub interval : s.payment_interval ≡ c.merchant_plan.state.payment_interval
  pub session_token : s.session_token ≡ token

-- Some sign-up of the history has a property.
abbrev pub SignedUp :
    {solana : Solana} {r : Registry} {used : List Text}
    → (SubscribeWithWallet → Text → Type 0)
    → Reachable solana r used
    → Type 0
SignedUp P start = ⊥
SignedUp P (next before (subscribe ctx token _ _ _ _ _ _ _ _ _ _ _ _ _) _) =
    P ctx token ⊎ SignedUp P before
SignedUp P (next before _ _) = SignedUp P before

-- What a payment leaves of the terms.
pub record SameTerms (s s' : SubscriptionState) : Type 0 where
  pub user : s'.user ≡ s.user
  pub wallet : s'.subscription_wallet ≡ s.subscription_wallet
  pub plan : s'.merchant_plan ≡ s.merchant_plan
  pub merchant : s'.merchant ≡ s.merchant
  pub fee : s'.fee_amount ≡ s.fee_amount
  pub interval : s'.payment_interval ≡ s.payment_interval
  pub session_token : s'.session_token ≡ s.session_token

pub payment-SameTerms :
    (solana : Solana) (ctx : ExecutePaymentFromWallet) (now : ℤ) (l : Ledger)
    {o : Outcome ExecutePaymentFromWallet}
    → ExecutePayment.handler solana ctx now l ≡ ok o
    → (o.accounts.subscription_state.key ≡ ctx.subscription_state.key)
      × SameTerms ctx.subscription_state.state o.accounts.subscription_state.state
unfolding ExecutePayment.handler
payment-SameTerms solana ctx now l h = ground (arith, payment-no-redemption solana ctx now l h)

Agrees-same :
    (s s' : SubscriptionState)
    → SameTerms s s'
    → (c : SubscribeWithWallet) (token : Text) → Agrees s c token
    → Agrees s' c token
Agrees-same s s' same c token a = ground (arith, same, a)

SignedUp-map :
    {solana : Solana} {r : Registry} {used : List Text} (P Q : SubscribeWithWallet → Text → Type 0)
    → ((c : SubscribeWithWallet) (token : Text) → P c token → Q c token)
    → (h : Reachable solana r used) → SignedUp P h
    → SignedUp Q h
SignedUp-map P Q f start p = p
SignedUp-map P Q f (next before (subscribe ctx token now l o s t a b c d e g i j) k) (inl p) =
    inl (f ctx token p)
SignedUp-map P Q f (next before (subscribe ctx token now l o s t a b c d e g i j) k) (inr p) =
    inr (SignedUp-map P Q f before p)
SignedUp-map P Q f (next before (create _ _ _ _ _ _ _ _ _) _) p = SignedUp-map P Q f before p
SignedUp-map P Q f (next before (trade _ _ _ _ _ _ _ _) _) p = SignedUp-map P Q f before p
SignedUp-map P Q f (next before (pay _ _ _ _ _ _ _ _ _) _) p = SignedUp-map P Q f before p
SignedUp-map P Q f (next before (cancel _ _ _ _ _ _ _ _) _) p = SignedUp-map P Q f before p

pub subscribe-Agrees :
    (solana : Solana) (ctx : SubscribeWithWallet) (token : Text) (now : ℤ) (l : Ledger)
    {o : Outcome SubscribeWithWallet} {s : SubscriptionState}
    → subscribe_with_wallet solana ctx token now l ≡ ok o
    → o.accounts.subscription_state.state ≡ some s
    → Agrees s ctx token
subscribe-Agrees solana ctx token now l {o} {s} h es =
    let (facts, (bump, state)) = subscribe-IsSubscribed solana ctx token now l h in
    let known = sym es ∙ state in ground (arith, facts)

Reachable-AreAgreed :
    {solana : Solana} {r : Registry} {used : List Text} (h : Reachable solana r used)
    → All (λ s. SignedUp (Agrees s) h) r.subscriptions
Reachable-AreAgreed start = tt
Reachable-AreAgreed (next before (create ctx l o w stored done made e u) a) =
    subst (All (λ s. SignedUp (Agrees s) before)) (sym (ap (λ (q : Registry). q.subscriptions) e))
      (Reachable-AreAgreed before)
Reachable-AreAgreed (next before (trade ctx q l o stored done e u) a) =
    subst (All (λ s. SignedUp (Agrees s) before)) (sym (ap (λ (q : Registry). q.subscriptions) e))
      (Reachable-AreAgreed before)
Reachable-AreAgreed {solana}
      (next {r} before (subscribe ctx token now l o s t f d stored done es et e u) a) =
    let Signed : SubscriptionState → Type 0 =
      λ s'. Agrees s' ctx token ⊎ SignedUp (Agrees s') before in
    let agreed = subscribe-Agrees solana ctx token now l done es in
    let old =
      All-map (λ s'. SignedUp (Agrees s') before) Signed r.subscriptions (λ s' p. inr p)
        (Reachable-AreAgreed before) in
    subst (All Signed) (sym (ap (λ (q : Registry). q.subscriptions) e))
      (put-All Signed o.accounts.subscription_state.key s r.subscriptions (inl agreed) old)
Reachable-AreAgreed {solana} (next {r} before (pay ctx now l o found stored done e u) a) =
    let Signed : SubscriptionState → Type 0 = λ s'. SignedUp (Agrees s') before in
    let old = Reachable-AreAgreed before in
    let s = ctx.subscription_state.state in
    let s' = o.accounts.subscription_state.state in
    let (_, same) = payment-SameTerms solana ctx now l (handler_of_payment solana ctx now l done) in
    let kept =
      SignedUp-map (Agrees s) (Agrees s') (Agrees-same s s' same) before
        (find-All Signed ctx.subscription_state.key s r.subscriptions old found) in
    subst (All Signed) (sym (ap (λ (q : Registry). q.subscriptions) e))
      (put-All Signed o.accounts.subscription_state.key s' r.subscriptions kept old)
Reachable-AreAgreed (next {r} before (cancel ctx l o found stored done e u) a) =
    let Signed : SubscriptionState → Type 0 = λ s'. SignedUp (Agrees s') before in
    subst (All Signed) (sym (ap (λ (q : Registry). q.subscriptions) e))
      (remove-All Signed ctx.subscription_state.key r.subscriptions (Reachable-AreAgreed before))

own_wallet :
    (solana : Solana) (ctx : ExecutePaymentFromWallet) (now : ℤ) (l : Ledger)
    {o : Outcome ExecutePaymentFromWallet}
    → execute_payment_from_wallet solana ctx now l ≡ ok o
    → ctx.subscription_wallet.key ≡ ctx.subscription_state.state.subscription_wallet
unfolding execute_payment_from_wallet ExecutePayment.try_accounts
own_wallet solana ctx now l h = ground arith

-- After any history, a payment that goes through for a stored subscription goes back to a sign-up of
-- the history: the owner of a wallet has signed it, the payment charges that wallet, and the
-- subscription has the plan, merchant, fee and interval that were signed for.
pub payment-SignedUp :
    {solana : Solana} {r : Registry} {used : List Text} (h : Reachable solana r used)
    (ctx : ExecutePaymentFromWallet) (now : ℤ) (l : Ledger) {o : Outcome ExecutePaymentFromWallet}
    → find ctx.subscription_state.key r.subscriptions ≡ some ctx.subscription_state.state
    → execute_payment_from_wallet solana ctx now l ≡ ok o
    → SignedUp
        (λ c token.
          Agrees ctx.subscription_state.state c token
          × (ctx.subscription_wallet.key ≡ c.subscription_wallet.key))
        h
payment-SignedUp {solana} {r} h ctx now l found done =
    let s = ctx.subscription_state.state in
    let agreed =
      find-All (λ s'. SignedUp (Agrees s') h) ctx.subscription_state.key s r.subscriptions
        (Reachable-AreAgreed h) found in
    SignedUp-map (Agrees s) _ (λ c token a. (a, own_wallet solana ctx now l done ∙ a.wallet)) h
      agreed
