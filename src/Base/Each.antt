-- ===== src/Base/Each.antt =====
-- Association lists by lookup: what holds of every entry that is found, and what stays of it.
use Prim.Native.Nat.{ℕ}
use mathlib.Core.Path.{◌≡◌, subst, sym}
use mathlib.Core.Option.{some, some-injective}
use mathlib.Core.Logic.{inl, inr}
use mathlib.Core.List.{List}
use native.Mathlib.Omega.{arith}
use eventop.Base.Tests.{Bool-cases, ◌==◌, ==_iff}
use eventop.Base.Assoc.{find, put, remove, find-put, find-remove, Unique}

module _ {ℓ} {V : Type ℓ} where
  abbrev pub Each {κ} : (ℕ → V → Type κ) → List (ℕ × V) → Type (ℓ ⊔ κ)
  Each P m = (k : ℕ) (v : V) → find k m ≡ some v → P k v

  -- Every entry is found again, and the two values are related.
  abbrev pub Grows {κ} : (V → V → Type κ) → List (ℕ × V) → List (ℕ × V) → Type (ℓ ⊔ κ)
  Grows R m m' = (k : ℕ) (v : V) → find k m ≡ some v → (v' : V) × (find k m' ≡ some v') × R v v'

  pub put-Each {κ} :
      (P : ℕ → V → Type κ) (k : ℕ) (v : V) (m : List (ℕ × V))
      → P k v
      → Each P m
      → Each P (put k v m)
  put-Each P k v m p each j u h = elim (Bool-cases (j == k)) [
    | inl same ↦
        let value : some v ≡ some u = rw (find-put j k v m, same) at h in
        subst (λ i. P i u) (sym ((==_iff j k).0 same)) (subst (P k) (some-injective _ _ value) p)
    | inr other ↦ each j u (rw (find-put j k v m, other) at h)
  ]

  pub remove-Each {κ} :
      (P : ℕ → V → Type κ) (k : ℕ) (m : List (ℕ × V)) → Unique m → Each P m → Each P (remove k m)
  remove-Each P k m unique each j u h = elim (Bool-cases (j == k)) [
    | inl same ↦ absurd (ground (arith, find-remove j k m unique))
    | inr other ↦ each j u (ground (arith, find-remove j k m unique))
  ]

  pub put-Grows {κ} :
      (R : V → V → Type κ) (k : ℕ) (v : V) (m : List (ℕ × V))
      → ((u : V) → R u u)
      → ((old : V) → find k m ≡ some old → R old v)
      → Grows R m (put k v m)
  put-Grows R k v m same_R kept j u h = elim (Bool-cases (j == k)) [
    | inl same ↦ (
      v,
      ground (arith, find-put j k v m),
      kept u (subst (λ i. find i m ≡ some u) ((==_iff j k).0 same) h),
    )
    | inr other ↦ (u, ground (arith, find-put j k v m), same_R u)
  ]

  pub Each-map {κ μ} :
      (P : ℕ → V → Type κ) (Q : ℕ → V → Type μ) (m : List (ℕ × V))
      → ((k : ℕ) (v : V) → P k v → Q k v)
      → Each P m
      → Each Q m
  Each-map P Q m f each k v h = f k v (each k v h)

  pub Grows-trans {κ} :
      (R : V → V → Type κ) (l m n : List (ℕ × V))
      → ((u v x : V) → R u v → R v x → R u x)
      → Grows R l m
      → Grows R m n
      → Grows R l n
  Grows-trans R l m n join first second k v h =
      let (v', h', r) = first k v h in
      let (v'', h'', s) = second k v' h' in (v'', h'', join v v' v'' r s)

  pub Grows-refl {κ} : (R : V → V → Type κ) (m : List (ℕ × V)) → ((u : V) → R u u) → Grows R m m
  Grows-refl R m same_R k v h = (v, h, same_R v)
