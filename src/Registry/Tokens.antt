-- ===== src/Registry/Tokens.antt =====
-- No session token opens two subscriptions, ever.
use eventop.Base.{
  ℕ, ◌≡◌, ◌≢◌, ◌∙◌, sym, ap, arith, true, false, some, List, [], ◌∷◌, ◌++◌, Text, ◌==◌,
  if◌then◌else◌,
}
use mathlib.Core.Path.{subst}
use eventop.Base.Assoc.{find, put, find-put}
use eventop.Runtime.Anchor.{Pubkey, Solana}
use eventop.State.SessionToken.{SessionTokenTracker, session_seeds}
use eventop.Subscription.Subscribe.{tracker_or_new}
use eventop.Registry.{Registry, Step, create, trade, subscribe, pay, cancel, Reachable, start, next}
use eventop.Registry.Effects.{subscribe-Opens}

-- The address of the token's tracker holds a used tracker.
pub record IsSpent (solana : Solana) (r : Registry) (token : Text) : Type 0 where
  pub key : Pubkey
  pub bump : ℕ
  pub tracker : SessionTokenTracker
  pub address : solana.find_program_address (session_seeds token) ≡ some (key, bump)
  pub stored : find key r.trackers ≡ some tracker
  pub used : tracker.is_used ≡ true

abbrev AreSpent : Solana → Registry → List Text → Type 0
AreSpent solana r [] = Unit
AreSpent solana r (t ∷ ts) = IsSpent solana r t × AreSpent solana r ts

abbrev pub NotAmong : Text → List Text → Type 0
NotAmong t [] = Unit
NotAmong t (u ∷ us) = (t ≢ u) × NotAmong t us

abbrev pub AreDistinct : List Text → Type 0
AreDistinct [] = Unit
AreDistinct (t ∷ ts) = NotAmong t ts × AreDistinct ts

-- A used tracker that is stored spends no token less.
IsSpent-put :
    {solana : Solana} (r r' : Registry) (token : Text) (k : Pubkey) (t : SessionTokenTracker)
    → r'.trackers ≡ put k t r.trackers
    → t.is_used ≡ true
    → IsSpent solana r token
    → IsSpent solana r' token
IsSpent-put r r' token k t e used h =
    let new : SessionTokenTracker = if h.key == k then t else h.tracker in
    record {
      key = h.key;
      bump = h.bump;
      tracker = new;
      address = h.address;
      stored = ground (arith, find-put h.key k t r.trackers, h.stored);
      used = ground (arith, h.used);
    }

AreSpent-put :
    (solana : Solana) (r r' : Registry) (tokens : List Text) (k : Pubkey) (t : SessionTokenTracker)
    → r'.trackers ≡ put k t r.trackers
    → t.is_used ≡ true
    → AreSpent solana r tokens
    → AreSpent solana r' tokens
AreSpent-put solana r r' [] k t e used h = tt
AreSpent-put solana r r' (u ∷ us) k t e used (h, hs) =
    (IsSpent-put r r' u k t e used h, AreSpent-put solana r r' us k t e used hs)

AreSpent-same :
    (solana : Solana) (r r' : Registry) (tokens : List Text)
    → r'.trackers ≡ r.trackers
    → AreSpent solana r tokens
    → AreSpent solana r' tokens
AreSpent-same solana r r' [] e h = tt
AreSpent-same solana r r' (u ∷ us) e (h, hs) = (
  record {
    key = h.key;
    bump = h.bump;
    tracker = h.tracker;
    address = h.address;
    stored = ap (find h.key) e ∙ h.stored;
    used = h.used;
  },
  AreSpent-same solana r r' us e hs,
)

-- A token whose tracker is not used is none of the spent ones.
unused_NotAmong :
    (solana : Solana) (r : Registry) (token : Text) (k : Pubkey) (bump : ℕ) (tokens : List Text)
    → solana.find_program_address (session_seeds token) ≡ some (k, bump)
    → (tracker_or_new (find k r.trackers)).is_used ≡ false
    → AreSpent solana r tokens
    → NotAmong token tokens
unused_NotAmong solana r token k bump [] address unused h = tt
unused_NotAmong solana r token k bump (u ∷ us) address unused (h, hs) = (
  λ same.
      let there : solana.find_program_address (session_seeds token) ≡ some (h.key, h.bump) =
        ap (λ (t : Text). solana.find_program_address (session_seeds t)) same ∙ h.address in
      ground (arith, h.stored, h.used),
  unused_NotAmong solana r token k bump us address unused hs,
)

-- What holds of the tokens of a history.
record Tokens (solana : Solana) (r : Registry) (tokens : List Text) : Type 0 where
  spent : AreSpent solana r tokens
  distinct : AreDistinct tokens

Tokens-same :
    {solana : Solana} (r r' : Registry) {before used all : List Text}
    → r'.trackers ≡ r.trackers
    → used ≡ []
    → all ≡ used ++ before
    → Tokens solana r before
    → Tokens solana r' all
Tokens-same {solana} r r' {before} {used} {all} same none_used e h =
    let known : all ≡ before = e ∙ ap (λ (ts : List Text). ts ++ before) none_used in
    subst (Tokens solana r') (sym known)
      (record { spent = AreSpent-same solana r r' before same h.spent; distinct = h.distinct })

Tokens-next :
    {solana : Solana} {r r' : Registry} {before used all : List Text}
    → Step solana r r' used
    → all ≡ used ++ before
    → Tokens solana r before
    → Tokens solana r' all
Tokens-next {r} {r'} (create ctx l o w stored done made e u) a h =
    Tokens-same r r' (ap (λ (q : Registry). q.trackers) e) u a h
Tokens-next {r} {r'} (trade ctx q l o stored done e u) a h =
    Tokens-same r r' (ap (λ (q : Registry). q.trackers) e) u a h
Tokens-next {solana} {r} {r'} {before}
      (subscribe ctx token now l o s t _ tracked stored done es et e u) a h =
    let c = subscribe-Opens solana ctx token now l done es et in
    let (bump, there) = c.address in
    let k = ctx.session_token_tracker.key in
    let trackers : r'.trackers ≡ put k t r.trackers =
      ap (λ (q : Registry). q.trackers) e ∙ ap (λ (j : Pubkey). put j t r.trackers) c.tracker_key in
    let unused : (tracker_or_new (find k r.trackers)).is_used ≡ false =
      subst (λ st. (tracker_or_new st).is_used ≡ false) tracked c.unused in
    let new : IsSpent solana r' token = record {
      key = k;
      bump = bump;
      tracker = t;
      address = there;
      stored = ground (arith, find-put k k t r.trackers);
      used = c.used;
    } in
    let all_known = a ∙ ap (λ (ts : List Text). ts ++ before) u in
    subst (Tokens solana r') (sym all_known) (record {
      spent = (new, AreSpent-put solana r r' before k t trackers c.used h.spent);
      distinct = (unused_NotAmong solana r token k bump before there unused h.spent, h.distinct);
    })
Tokens-next {r} {r'} (pay ctx now l o found stored done e u) a h =
    Tokens-same r r' (ap (λ (q : Registry). q.trackers) e) u a h
Tokens-next {r} {r'} (cancel ctx l o found stored done e u) a h =
    Tokens-same r r' (ap (λ (q : Registry). q.trackers) e) u a h

Reachable-Tokens :
    {solana : Solana} {r : Registry} {used : List Text}
    → Reachable solana r used
    → Tokens solana r used
Reachable-Tokens start = record { spent = tt; distinct = tt }
Reachable-Tokens (next before step a) = Tokens-next step a (Reachable-Tokens before)

-- In any history of the instructions the session tokens with which subscriptions were opened are
-- pairwise different, also where a subscription has been cancelled in between.
pub Reachable-AreDistinct :
    {solana : Solana} {r : Registry} {used : List Text} → Reachable solana r used → AreDistinct used
Reachable-AreDistinct reached = (Reachable-Tokens reached).distinct
