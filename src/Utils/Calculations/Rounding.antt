-- ===== src/Utils/Calculations/Rounding.antt =====
-- utils/calculations.rs: which way the share arithmetic rounds, and who gains by it.
use native.Mathlib.Nat.{
  mul-div_cancel_left, mul-sub, div-add-mod', div-mul-le_self, mod-le, mod-eq_of_lt,
  mul-le-mul_right, le_of_mul-le-mul_right, le_trans, le-div_iff_mul-le,
}
use eventop.Base.{ℕ, ◌+◌, ◌-◌, ◌*◌, ◌/◌, ◌%◌, ◌^◌, ◌≤◌, ◌<◌, ◌≡◌, ◌≢◌, ◌∙◌, arith}
use eventop.Runtime.Result.{ok}
use eventop.Runtime.Word.{u64_mod, as_u64}
use eventop.Utils.Calculations.{
  calculate_current_exchange_rate, mul_div, calculate_buffer_amount, calculate_shares_for_deposit,
  calculate_usdc_value_of_shares, calculate_shares_for_withdrawal,
}
use eventop.Utils.Calculations.Ranges.{mul_div-eq, mul_div_exact}

-- Whatever it narrows to, the result is at most the true quotient.
pub mul_div-le : (a b c : ℕ) {r : ℕ} → mul_div a b c ≡ ok r → r * c ≤ a * b
mul_div-le a b c {r} h = grind (arith, mod-le (a * b / c) (2 ^ 64), div-mul-le_self (a * b) c)

-- With at most 10,000 basis points the buffer's part of a total is exact, and at most the total.
pub buffer_exact :
    (total bps : ℕ)
    → total < u64_mod
    → bps ≤ 10_000
    → (calculate_buffer_amount total bps ≡ ok (total * bps / 10_000))
      × (total * bps / 10_000 ≤ total)
unfolding calculate_buffer_amount
buffer_exact total bps ht hb =
    let le : total * bps / 10_000 ≤ total = grind arith in
    (mul_div_exact total bps 10_000 ht (omega arith) (omega arith) (omega arith), le)

-- Adding shares at no more than their price.
pub deposit_bound :
    (d s shares value v : ℕ)
    → s * value ≤ d * shares
    → v * (shares + s) ≤ s * (value + d)
    → 0 < shares
    → v ≤ d
deposit_bound d s shares value v bought sold h = grind arith

pub deposit_shares-le :
    (d shares value : ℕ) {s : ℕ}
    → 0 < shares
    → calculate_shares_for_deposit d shares value ≡ ok s
    → s * value ≤ d * shares
unfolding calculate_shares_for_deposit
deposit_shares-le d shares value h e = grind (arith, mul_div-le d shares value)

pub redeem-le :
    (s shares value : ℕ) {v : ℕ}
    → calculate_usdc_value_of_shares s shares value ≡ ok v
    → v * shares ≤ s * value
unfolding calculate_usdc_value_of_shares
redeem-le s shares value e = grind (arith, mul_div-le s value shares)

-- A depositor into a vault with shares who redeems at once, at the vault's new shares and value,
-- gets back at most the deposit.
pub deposit_no_profit :
    (d shares value : ℕ) {s v : ℕ}
    → 0 < shares
    → calculate_shares_for_deposit d shares value ≡ ok s
    → calculate_usdc_value_of_shares s (shares + s) (value + d) ≡ ok v
    → v ≤ d
deposit_no_profit d shares value {s} {v} h bought sold =
    deposit_bound d s shares value v (deposit_shares-le d shares value h bought)
      (redeem-le s (shares + s) (value + d) sold) h

-- A deposit into a vault with shares does not lower the price of a share.
pub deposit_keeps_price :
    (d shares value : ℕ) {s : ℕ}
    → 0 < shares
    → calculate_shares_for_deposit d shares value ≡ ok s
    → value * (shares + s) ≤ (value + d) * shares
deposit_keeps_price d shares value h bought =
    omega (arith, deposit_shares-le d shares value h bought)

redeem_at_most :
    (s shares value v : ℕ) → s ≤ shares → v * shares ≤ s * value → 0 < shares → v ≤ value
redeem_at_most s shares value v le sold h = grind arith

price_after :
    (s shares value v : ℕ)
    → s ≤ shares
    → v ≤ value
    → v * shares ≤ s * value
    → value * (shares - s) ≤ (value - v) * shares
price_after s shares value v le le' sold =
    omega (arith, mul-sub value shares s, mul-sub shares value v)

-- Redeeming some of a vault's shares pays at most the vault's value, and does not lower the price of
-- the shares that are left.
pub redeem_keeps_price :
    (s shares value : ℕ) {v : ℕ}
    → s ≤ shares
    → 0 < shares
    → calculate_usdc_value_of_shares s shares value ≡ ok v
    → (v ≤ value) × (value * (shares - s) ≤ (value - v) * shares)
redeem_keeps_price s shares value {v} le h sold =
    let paid = redeem-le s shares value sold in
    let most = redeem_at_most s shares value v le paid h in
    (most, price_after s shares value v le most paid)

-- What the narrowed quotient leaves over is at least the remainder.
mul_div_floor : (a b c : ℕ) {r : ℕ} → 0 < c → mul_div a b c ≡ ok r → r * c + (a * b) % c ≤ a * b
mul_div_floor a b c {r} hc h = grind (arith, mod-le (a * b / c) (2 ^ 64), div-add-mod' (a * b) c)

-- The shares burned for a withdrawal are worth strictly less than what is withdrawn, wherever the
-- division by a positive value leaves a remainder.
pub withdrawal_rounds_down :
    (w shares value : ℕ) {n : ℕ}
    → 0 < value
    → (w * shares) % value ≢ 0
    → calculate_shares_for_withdrawal w shares value ≡ ok n
    → n * value < w * shares
unfolding calculate_shares_for_withdrawal
withdrawal_rounds_down w shares value {n} h r e = grind (arith, mul_div_floor w shares value)

-- Where the true number of shares for a deposit does not fit 64 bits, the code succeeds with fewer
-- shares, and not with an overflow error.
pub deposit_wraps :
    (d shares value : ℕ)
    → d < u64_mod
    → shares < u64_mod
    → 0 < shares
    → 0 < value
    → u64_mod ≤ d * shares / value
    → (s : ℕ) × (calculate_shares_for_deposit d shares value ≡ ok s) × (s < d * shares / value)
unfolding calculate_shares_for_deposit
deposit_wraps d shares value hd hs h hv big =
    (as_u64 (d * shares / value), grind (arith, mul_div-eq d shares value), omega arith)

-- All the shares of a vault are worth all of its value.
pub whole_value :
    (shares value : ℕ)
    → 0 < shares
    → shares < u64_mod
    → value < u64_mod
    → calculate_usdc_value_of_shares shares shares value ≡ ok value
unfolding calculate_usdc_value_of_shares
whole_value shares value h hs hv =
    let quotient = mul-div_cancel_left value h in
    ground (arith, mul_div_exact shares value shares hs hv h (rw quotient hv))

pub rate-eq :
    (shares value : ℕ) {rate : ℕ}
    → 0 < shares
    → calculate_current_exchange_rate shares value ≡ ok rate
    → rate ≡ as_u64 (value * 1_000_000 / shares)
unfolding calculate_current_exchange_rate
rate-eq shares value {rate} h e = ground arith

-- A share that is not worth less has a rate that is not lower, if the later rate fits 64 bits.
pub rate_mono :
    (shares value shares' value' : ℕ) {rate rate' : ℕ}
    → 0 < shares
    → 0 < shares'
    → value * shares' ≤ value' * shares
    → value' * 1_000_000 / shares' < u64_mod
    → calculate_current_exchange_rate shares value ≡ ok rate
    → calculate_current_exchange_rate shares' value' ≡ ok rate'
    → rate ≤ rate'
rate_mono shares value shares' value' {rate} {rate'} h h' le fits e e' =
    let q = value * 1_000_000 / shares in
    let first : rate ≤ q = rw (rate-eq shares value h e) (mod-le q (2 ^ 64)) in
    let exact : rate' ≡ value' * 1_000_000 / shares' =
      rate-eq shares' value' h' e' ∙ mod-eq_of_lt fits in
    let below : q * shares ≤ value * 1_000_000 = div-mul-le_self (value * 1_000_000) shares in
    let scaled : q * shares * shares' ≤ value * 1_000_000 * shares' =
      mul-le-mul_right shares' below in
    let bound : q * shares' ≤ value' * 1_000_000 =
      le_of_mul-le-mul_right {k = shares} (grind (arith, scaled, le)) h in
    rw exact (le_trans first ((le-div_iff_mul-le h').1 bound))
