-- ===== src/Utils/Calculations/Ranges.antt =====
-- utils/calculations.rs: on u64 arguments the u128 product never overflows, and where the quotient
-- fits a u64 the final `as u64` keeps it.
use native.Mathlib.Nat.{mul-le-mul, mod-eq_of_lt}
use eventop.Base.{ℕ, ◌-◌, ◌*◌, ◌/◌, ◌^◌, ◌≤◌, ◌<◌, ◌≡◌, arith, ◌∙◌, ap}
use eventop.Runtime.Result.{ok}
use eventop.Runtime.Word.{u64_mod, u128_mod, as_u64}
use eventop.Utils.Calculations.{mul_div}

pub product_fits : (a b : ℕ) → a < u64_mod → b < u64_mod → a * b < u128_mod
product_fits a b ha hb =
    let a_le : a ≤ 2 ^ 64 - 1 = omega arith in
    let b_le : b ≤ 2 ^ 64 - 1 = omega arith in omega (arith, mul-le-mul a_le b_le)

pub mul_div-eq :
    (a b c : ℕ) → a < u64_mod → b < u64_mod → 0 < c → mul_div a b c ≡ ok (as_u64 (a * b / c))
mul_div-eq a b c ha hb hc = ground (arith, product_fits a b ha hb)

pub mul_div_exact :
    (a b c : ℕ)
    → a < u64_mod
    → b < u64_mod
    → 0 < c
    → a * b / c < u64_mod
    → mul_div a b c ≡ ok (a * b / c)
mul_div_exact a b c ha hb hc fits = mul_div-eq a b c ha hb hc ∙ ap ok (mod-eq_of_lt fits)
