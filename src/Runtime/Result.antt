-- ===== src/Runtime/Result.antt =====
-- How an instruction ends: Rust's `Result` with the errors of the program, of Anchor's account
-- checks and of other programs, and a panic, which aborts the transaction as an error does.
use eventop.Base.{ℕ, ◌≡◌, refl, Bool, true, false, Option, none, some}
use eventop.Errors.{ErrorCodes}

-- The failing attribute of an `#[account(...)]` declaration, or the account type's own check.
pub data AnchorError : Type 0 where
  account_not_signer : AnchorError
  account_in_use : AnchorError
  account_not_initialized : AnchorError
  constraint_raw : AnchorError
  constraint_seeds : AnchorError
  constraint_token_mint : AnchorError
  constraint_token_owner : AnchorError

pub data Error : Type 0 where
  code : ErrorCodes → Error
  anchor : AnchorError → Error
  program_error : ℕ → Error
  panicked : Error

pub data Result {κ} (Out : Type κ) : Type κ where
  err : Error → Result Out
  ok : Out → Result Out

-- `require!(test, ErrorCodes::e)`
abbrev pub require : Bool → ErrorCodes → Result (Unit {0})
require true e = ok tt
require false e = err (code e)

-- A check made by an account attribute.
abbrev pub check : Bool → AnchorError → Result (Unit {0})
check true e = ok tt
check false e = err (anchor e)

-- `.ok_or(ErrorCodes::e)?`
abbrev pub ok_or {ℓ} : {A : Type ℓ} → Option A → ErrorCodes → Result A
ok_or none e = err (code e)
ok_or (some a) e = ok a

-- An account that must exist.
abbrev pub loaded {ℓ} : {A : Type ℓ} → Option A → Result A
loaded none = err (anchor account_not_initialized)
loaded (some a) = ok a

-- `.unwrap()`
abbrev pub unwrap {ℓ} : {A : Type ℓ} → Option A → Result A
unwrap none = err panicked
unwrap (some a) = ok a

-- `?`: the first error ends the instruction.
abbrev pub ◌>>=◌ {κ ℓ} : {In : Type κ} {Out : Type ℓ} → Result In → (In → Result Out) → Result Out
err failure >>= next = err failure
ok value >>= next = next value

-- A check has no value.
abbrev pub ◌>>◌ {κ} : {Out : Type κ} → Result (Unit {0}) → Result Out → Result Out
checked >> rest = checked >>= λ _. rest

infixl 5 ◌>>=◌ ◌>>◌
pub >>=-ok {κ ℓ} :
    {In : Type κ} {Out : Type ℓ} {first : Result In} (next : In → Result Out) {value : In}
    → first ≡ ok value
    → (first >>= next) ≡ next value
>>=-ok next h = rw h

-- Inversion of a chain that succeeded.
pub >>=-eq-ok {κ ℓ} :
    {In : Type κ} {Out : Type ℓ} (first : Result In) (next : In → Result Out) {last : Out}
    → (first >>= next) ≡ ok last
    → (value : In) × (first ≡ ok value) × (next value ≡ ok last)
>>=-eq-ok (err failure) next succeeded = cc
>>=-eq-ok (ok value) next succeeded = (value, refl, succeeded)

pub >>-eq-ok {ℓ} :
    {B : Type ℓ} (m : Result (Unit {0})) (k : Result B) {b : B} → (m >> k) ≡ ok b → k ≡ ok b
>>-eq-ok (ok a) k h = h
>>-eq-ok (err e) k h = cc

pub require-eq-ok : (b : Bool) (e : ErrorCodes) {u : Unit {0}} → require b e ≡ ok u → b ≡ true
require-eq-ok true e h = refl
require-eq-ok false e h = cc

pub check-eq-ok : (b : Bool) (e : AnchorError) {u : Unit {0}} → check b e ≡ ok u → b ≡ true
check-eq-ok true e h = refl
check-eq-ok false e h = cc

abbrev pub IsOk {ℓ} : {A : Type ℓ} → Result A → Type 0
IsOk (ok a) = Unit
IsOk (err e) = ⊥

-- What never succeeds fails with some error.
pub err_of_ne_ok {ℓ} :
    {A : Type ℓ} (r : Result A) → ((a : A) → r ≡ ok a → ⊥) → (e : Error) × (r ≡ err e)
err_of_ne_ok (ok a) h = absurd (h a refl)
err_of_ne_ok (err e) h = (e, refl)

pub ok_of_ne_err {ℓ} :
    {A : Type ℓ} (r : Result A) → ((e : Error) → r ≡ err e → ⊥) → (a : A) × (r ≡ ok a)
ok_of_ne_err (ok a) h = (a, refl)
ok_of_ne_err (err e) h = absurd (h e refl)
