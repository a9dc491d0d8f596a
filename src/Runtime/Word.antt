-- ===== src/Runtime/Word.antt =====
-- Rust's machine integers: u16, u32, u64 and u128 are natural numbers below their moduli, and i64 is
-- an integer in its range. The release profile has `overflow-checks = true`, so a plain operator
-- that overflows panics.
use eventop.Base.{
  ℕ, ◌+◌, ◌-◌, ◌*◌, ◌/◌, ◌%◌, ◌^◌, Bool, ◌&&◌, Option, none, some, ltb, leb, ◌==◌, if◌then◌else◌, ℤ,
  pos, negsuc, ◌+ℤ◌, ◌-ℤ◌, leb_ℤ,
}
use eventop.Runtime.Result.{Result, ok, err, panicked}

abbrev pub u16_mod : ℕ
u16_mod = 2 ^ 16

abbrev pub u32_mod : ℕ
u32_mod = 2 ^ 32

abbrev pub u64_mod : ℕ
u64_mod = 2 ^ 64

abbrev pub u128_mod : ℕ
u128_mod = 2 ^ 128

abbrev pub checked : ℕ → ℕ → Option ℕ
checked modulus n = if ltb n modulus then some n else none

-- `a.checked_add(b)` on a type with the given modulus.
abbrev pub checked_add : ℕ → ℕ → ℕ → Option ℕ
checked_add modulus a b = checked modulus (a + b)

abbrev pub checked_mul : ℕ → ℕ → ℕ → Option ℕ
checked_mul modulus a b = checked modulus (a * b)

abbrev pub checked_sub : ℕ → ℕ → Option ℕ
checked_sub a b = if leb b a then some (a - b) else none

abbrev pub checked_div : ℕ → ℕ → Option ℕ
checked_div a b = if b == 0 then none else some (a / b)

-- `a.saturating_sub(b)` and `a.saturating_mul(b)`
abbrev pub saturating_sub : ℕ → ℕ → ℕ
saturating_sub a b = a - b

abbrev pub saturating_mul : ℕ → ℕ → ℕ → ℕ
saturating_mul modulus a b = if ltb (a * b) modulus then a * b else modulus - 1

-- `n as u64`
abbrev pub as_u64 : ℕ → ℕ
as_u64 n = n % 2 ^ 64

abbrev pub i64_max : ℤ
i64_max = pos (2 ^ 63 - 1)

abbrev pub i64_min : ℤ
i64_min = negsuc (2 ^ 63 - 1)

abbrev pub in_i64 : ℤ → Bool
in_i64 a = leb_ℤ i64_min a && leb_ℤ a i64_max

-- `a + b` and `a - b` on i64.
unfoldable pub add_i64 : ℤ → ℤ → Result ℤ
add_i64 a b = let c = a +ℤ b in if in_i64 c then ok c else err panicked

unfoldable pub sub_i64 : ℤ → ℤ → Result ℤ
sub_i64 a b = let c = a -ℤ b in if in_i64 c then ok c else err panicked
