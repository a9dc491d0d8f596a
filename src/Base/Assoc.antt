-- ===== src/Base/Assoc.antt =====
-- Association lists keyed by numbers, and sums over their values.
use Prim.Native.Nat.{ℕ, ◌+◌}
use mathlib.Core.Path.{◌≡◌, refl}
use mathlib.Core.Option.{Option, none, some, some-injective}
use mathlib.Core.Path.{subst}
use mathlib.Core.Logic.{inl, inr}
use mathlib.Core.List.{List, [], ◌∷◌}
use native.Mathlib.Omega.{arith}
use eventop.Base.Tests.{Bool-cases, ◌==◌, if◌then◌else◌}

module _ {ℓ} {V : Type ℓ} where
  abbrev pub find : ℕ → List (ℕ × V) → Option V
  find k [] = none
  find k ((j, v) ∷ m) = if k == j then some v else find k m

  -- The entry of a key is replaced where it stands, and a new one goes last.
  abbrev pub put : ℕ → V → List (ℕ × V) → List (ℕ × V)
  put k v [] = (k, v) ∷ []
  put k v (e ∷ m) = if k == e.0 then (k, v) ∷ m else e ∷ put k v m

  abbrev pub sum_of : (V → ℕ) → List (ℕ × V) → ℕ
  sum_of f [] = 0
  sum_of f (e ∷ m) = f e.1 + sum_of f m

  abbrev pub remove : ℕ → List (ℕ × V) → List (ℕ × V)
  remove k [] = []
  remove k (e ∷ m) = if k == e.0 then m else e ∷ remove k m

  abbrev pub All {κ} : (V → Type κ) → List (ℕ × V) → Type κ
  All P [] = Unit
  All P (e ∷ m) = P e.1 × All P m

  pub sum_of-put :
      (f : V → ℕ) (k : ℕ) (v old : V) (m : List (ℕ × V))
      → find k m ≡ some old
      → sum_of f (put k v m) + f old ≡ sum_of f m + f v
  sum_of-put f k v old [] h = cc
  sum_of-put f k v old (e ∷ m) h = grind (arith, sum_of-put f k v old m)

  pub sum_of-put_new :
      (f : V → ℕ) (k : ℕ) (v : V) (m : List (ℕ × V))
      → find k m ≡ none
      → sum_of f (put k v m) ≡ sum_of f m + f v
  sum_of-put_new f k v [] h = omega arith
  sum_of-put_new f k v (e ∷ m) h = grind (arith, sum_of-put_new f k v m)

  pub put-All {κ} :
      (P : V → Type κ) (k : ℕ) (v : V) (m : List (ℕ × V)) → P v → All P m → All P (put k v m)
  put-All P k v [] p h = (p, tt)
  put-All P k v (e ∷ m) p (q, h) = elim (Bool-cases (k == e.0)) [
    | inl same ↦ rw same (p, h)
    | inr other ↦ rw other (q, put-All P k v m p h)
  ]

  pub find-All {κ} :
      (P : V → Type κ) (k : ℕ) (v : V) (m : List (ℕ × V)) → All P m → find k m ≡ some v → P v
  find-All P k v [] h e = cc
  find-All P k v ((j, w) ∷ m) (p, h) e = elim (Bool-cases (k == j)) [
    | inl same ↦ subst P (some-injective _ _ (rw same at e)) p
    | inr other ↦ find-All P k v m h (rw other at e)
  ]

  pub find-put :
      (j k : ℕ) (v : V) (m : List (ℕ × V))
      → find j (put k v m) ≡ (if j == k then some v else find j m)
  find-put j k v [] = refl
  find-put j k v (e ∷ m) = ground (arith, find-put j k v m)

  pub sum_of-remove :
      (f : V → ℕ) (k : ℕ) (v : V) (m : List (ℕ × V))
      → find k m ≡ some v
      → sum_of f (remove k m) + f v ≡ sum_of f m
  sum_of-remove f k v [] h = cc
  sum_of-remove f k v (e ∷ m) h = grind (arith, sum_of-remove f k v m)

  pub remove-All {κ} : (P : V → Type κ) (k : ℕ) (m : List (ℕ × V)) → All P m → All P (remove k m)
  remove-All P k [] h = tt
  remove-All P k (e ∷ m) (p, h) = elim (Bool-cases (k == e.0)) [
    | inl same ↦ rw same h
    | inr other ↦ rw other (p, remove-All P k m h)
  ]

  pub All-map {κ μ} :
      (P : V → Type κ) (Q : V → Type μ) (m : List (ℕ × V))
      → ((v : V) → P v → Q v)
      → All P m
      → All Q m
  All-map P Q [] f h = tt
  All-map P Q (e ∷ m) f (p, h) = (f e.1 p, All-map P Q m f h)

  -- No key has two entries.
  abbrev pub Unique : List (ℕ × V) → Type ℓ
  Unique [] = Unit
  Unique (e ∷ m) = (find e.0 m ≡ none) × Unique m

  pub find-remove :
      (j k : ℕ) (m : List (ℕ × V))
      → Unique m
      → find j (remove k m) ≡ (if j == k then none else find j m)
  find-remove j k [] u = ground arith
  find-remove j k (e ∷ m) u = ground (arith, find-remove j k m)

  pub put-Unique : (k : ℕ) (v : V) (m : List (ℕ × V)) → Unique m → Unique (put k v m)
  put-Unique k v [] u = (refl, tt)
  put-Unique k v (e ∷ m) (new, u) = elim (Bool-cases (k == e.0)) [
    | inl same ↦ rw same (ground arith, u)
    | inr other ↦ rw other (ground (arith, find-put e.0 k v m), put-Unique k v m u)
  ]

  pub remove-Unique : (k : ℕ) (m : List (ℕ × V)) → Unique m → Unique (remove k m)
  remove-Unique k [] u = tt
  remove-Unique k (e ∷ m) (new, u) = elim (Bool-cases (k == e.0)) [
    | inl same ↦ rw same u
    | inr other ↦ rw other (ground (arith, find-remove e.0 k m), remove-Unique k m u)
  ]
