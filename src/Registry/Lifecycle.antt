-- ===== src/Registry/Lifecycle.antt =====
-- The life of a subscription as its subscriber and merchant see it: opened, charged, closed. The
-- registry's instructions refine it.
use eventop.Base.{
  ℤ, ◌+◌, ◌≡◌, ◌≤ℤ◌, ◌-ℤ◌, ◌∙◌, refl, sym, ap, arith, true, Option, none, some, inl, inr,
  Bool-cases, ==_iff, List, Text, ◌==◌, if◌then◌else◌,
}
use mathlib.Core.Path.{subst}
use eventop.Base.Assoc.{find, find-put, find-remove, Unique, put-Unique, remove-Unique}
use eventop.Runtime.Result.{ok}
use eventop.Runtime.Token.{Ledger}
use eventop.Runtime.Anchor.{Pubkey, Solana, Signer}
use eventop.State.SubscriptionState.{SubscriptionState}
use eventop.Outcome.{Outcome}
use eventop.Subscription.Subscribe.{SubscribeWithWallet, subscribe_with_wallet}
use eventop.Subscription.Signup.{subscribe-IsSubscribed}
use eventop.Subscription.Cancellation.{cancel-IsCancelled}
use eventop.Subscription.PaymentFees.{handler_of_payment}
use eventop.Subscription.PaymentEffect.{payment-IsCharged}
use eventop.Registry.{Registry, Step, create, trade, subscribe, pay, cancel, Reachable, start, next}
use eventop.Registry.Effects.{subscribe-Opens}
use eventop.Registry.Consent.{subscribe-Agrees, SameTerms, payment-SameTerms}

-- A subscription that is new: active, and nothing paid.
pub record IsNew (s : SubscriptionState) : Type 0 where
  pub active : s.is_active ≡ true
  pub unpaid : s.total_paid ≡ 0
  pub uncounted : s.payment_count ≡ 0

-- A subscription before and after a charge: due, and one fee more paid under the same terms.
pub record IsChargedOnce (s s' : SubscriptionState) : Type 0 where
  pub due : s.payment_interval ≤ℤ s'.last_payment_timestamp -ℤ s.last_payment_timestamp
  pub paid : s'.total_paid ≡ s.total_paid + s.fee_amount
  pub counted : s'.payment_count ≡ s.payment_count + 1
  pub terms : SameTerms s s'

-- What may happen to a subscription, where `Signs u` says that u has signed.
pub data LifeStep (Signs : Pubkey → Type 0) (a b : Option SubscriptionState) : Type 0 where
  idle : b ≡ a → LifeStep Signs a b
  opens :
      (s : SubscriptionState) → a ≡ none → b ≡ some s → IsNew s → Signs s.user → LifeStep Signs a b
  charges :
      (s s' : SubscriptionState)
      → a ≡ some s
      → b ≡ some s'
      → IsChargedOnce s s'
      → LifeStep Signs a b
  closes : (s : SubscriptionState) → a ≡ some s → b ≡ none → Signs s.user → LifeStep Signs a b

abbrev pub Signed : Signer → Pubkey → Type 0
Signed signer u = (signer.is_signer ≡ true) × (signer.key ≡ u)

-- Who has signed the instruction of a step as a subscriber.
abbrev pub SignedStep :
    {solana : Solana} {r r' : Registry} {used : List Text} → Step solana r r' used → Pubkey → Type 0
SignedStep (subscribe ctx _ _ _ _ _ _ _ _ _ _ _ _ _ _) u = Signed ctx.user u
SignedStep (cancel ctx _ _ _ _ _ _ _) u = Signed ctx.user u
SignedStep _ u = ⊥

pub subscribe-IsNew :
    (solana : Solana) (ctx : SubscribeWithWallet) (token : Text) (now : ℤ) (l : Ledger)
    {o : Outcome SubscribeWithWallet} {s : SubscriptionState}
    → subscribe_with_wallet solana ctx token now l ≡ ok o
    → o.accounts.subscription_state.state ≡ some s
    → IsNew s
subscribe-IsNew solana ctx token now l {o} {s} h es =
    let (_, (bump, state)) = subscribe-IsSubscribed solana ctx token now l h in
    let known = sym es ∙ state in ground arith

-- An entry that is written is what happens to its key, and nothing happens to another.
written-LifeStep :
    (Signs : Pubkey → Type 0) (k j : Pubkey) (m m' : List (Pubkey × SubscriptionState))
    (x : Option SubscriptionState)
    → find k m' ≡ (if k == j then x else find k m)
    → LifeStep Signs (find j m) x
    → LifeStep Signs (find k m) (find k m')
written-LifeStep Signs k j m m' x written st = elim (Bool-cases (k == j)) [
  | inl hit ↦
      let here : find k m ≡ find j m = ap (λ (i : Pubkey). find i m) ((==_iff k j).0 hit) in
      let now : find k m' ≡ x = rw hit at written in rw (here, now) st
  | inr miss ↦ idle (rw miss at written)
]

pub Reachable-Unique :
    {solana : Solana} {r : Registry} {used : List Text}
    → Reachable solana r used
    → Unique r.subscriptions
Reachable-Unique start = tt
Reachable-Unique (next before (create ctx l o w _ _ _ e _) _) =
    subst (λ (q : Registry). Unique q.subscriptions) (sym e) (Reachable-Unique before)
Reachable-Unique (next before (trade ctx q l o _ _ e _) _) =
    subst (λ (q : Registry). Unique q.subscriptions) (sym e) (Reachable-Unique before)
Reachable-Unique (next before (subscribe ctx token now l o s t _ _ _ _ _ _ e _) _) =
    subst (λ (q : Registry). Unique q.subscriptions) (sym e)
      (put-Unique _ s _ (Reachable-Unique before))
Reachable-Unique (next before (pay ctx now l o _ _ _ e _) _) =
    subst (λ (q : Registry). Unique q.subscriptions) (sym e)
      (put-Unique _ o.accounts.subscription_state.state _ (Reachable-Unique before))
Reachable-Unique (next before (cancel ctx l o _ _ _ e _) _) =
    subst (λ (q : Registry). Unique q.subscriptions) (sym e)
      (remove-Unique _ _ (Reachable-Unique before))

-- In a registry that the program can reach, every step is, for the subscription at any key, a step of
-- its life: nothing, its opening by its subscriber, a charge that is due, or its closing by its
-- subscriber. The subscriber has signed the first and the last.
pub Reachable-LifeStep :
    {solana : Solana} {r r' : Registry} {before used : List Text} (k : Pubkey)
    → Reachable solana r before
    → (st : Step solana r r' used)
    → LifeStep (SignedStep st) (find k r.subscriptions) (find k r'.subscriptions)
Reachable-LifeStep k h (create ctx l o w stored done made e _) =
    idle (ap (λ (q : Registry). find k q.subscriptions) e)
Reachable-LifeStep k h (trade ctx q l o stored done e _) =
    idle (ap (λ (q : Registry). find k q.subscriptions) e)
Reachable-LifeStep {solana} {r} k h
      (subscribe ctx token now l o s t at_key _ stored done es et e _) =
    let c = subscribe-Opens solana ctx token now l done es et in
    let j = o.accounts.subscription_state.key in
    let agreed = subscribe-Agrees solana ctx token now l done es in
    let absent : find j r.subscriptions ≡ none =
      ap (λ (i : Pubkey). find i r.subscriptions) c.same_key ∙ sym at_key ∙ c.fresh in
    written-LifeStep (Signed ctx.user) k j r.subscriptions _ (some s)
      (ap (λ (q : Registry). find k q.subscriptions) e ∙ find-put k j s r.subscriptions)
      (opens s absent refl (subscribe-IsNew solana ctx token now l done es)
        (agreed.signed, sym agreed.user))
Reachable-LifeStep {solana} {r} k h (pay ctx now l o found stored done e _) =
    let s' = o.accounts.subscription_state.state in
    let j = o.accounts.subscription_state.key in
    let c = payment-IsCharged solana ctx now l done in
    let (key, terms) =
      payment-SameTerms solana ctx now l (handler_of_payment solana ctx now l done) in
    let charged : IsChargedOnce ctx.subscription_state.state s' = record {
      due = rw c.stamped c.waited;
      paid = c.paid;
      counted = c.counted;
      terms = terms;
    } in
    written-LifeStep (λ u. ⊥) k j r.subscriptions _ (some s')
      (ap (λ (q : Registry). find k q.subscriptions) e ∙ find-put k j s' r.subscriptions)
      (charges ctx.subscription_state.state s'
        (ap (λ (i : Pubkey). find i r.subscriptions) key ∙ found) refl charged)
Reachable-LifeStep {solana} {r} k h (cancel ctx l o found stored done e _) =
    let c = cancel-IsCancelled solana ctx l done in
    let j = ctx.subscription_state.key in
    written-LifeStep (Signed ctx.user) k j r.subscriptions _ none
      (ap (λ (q : Registry). find k q.subscriptions) e
        ∙ find-remove k j r.subscriptions (Reachable-Unique h))
      (closes ctx.subscription_state.state found refl (c.signed, sym c.by_user))
