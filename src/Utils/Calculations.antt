-- ===== src/Utils/Calculations.antt =====
-- utils/calculations.rs of the program: basis points, shares, the exchange rate and the committed
-- balance. Every function widens to u128, multiplies, divides, and narrows by `as u64`.
pub mod Ranges
pub mod Rounding
use eventop.Base.{ℕ, ◌||◌, ◌==◌, if◌then◌else◌}
use eventop.Errors.{math_overflow}
use eventop.Runtime.Result.{Result, ok, ◌>>=◌, ok_or}
use eventop.Runtime.Word.{u128_mod, checked_mul, checked_div, as_u64}
use eventop.State.SubscriptionWallet.{SubscriptionWallet}

-- `(a as u128).checked_mul(b as u128).ok_or(MathOverflow)?.checked_div(c).ok_or(MathOverflow)? as u64`
abbrev pub mul_div : ℕ → ℕ → ℕ → Result ℕ
mul_div a b c = do
  product ← ok_or (checked_mul u128_mod a b) math_overflow
  quotient ← ok_or (checked_div product c) math_overflow
  ok (as_u64 quotient)

unfoldable pub calculate_buffer_amount : ℕ → ℕ → Result ℕ
calculate_buffer_amount total_amount buffer_bps = mul_div total_amount buffer_bps 10_000

unfoldable pub calculate_shares_for_deposit : ℕ → ℕ → ℕ → Result ℕ
calculate_shares_for_deposit deposit_amount total_shares total_vault_value =
    if total_shares == 0 || total_vault_value == 0
    then ok deposit_amount
    else mul_div deposit_amount total_shares total_vault_value

unfoldable pub calculate_usdc_value_of_shares : ℕ → ℕ → ℕ → Result ℕ
calculate_usdc_value_of_shares shares total_shares total_vault_value =
    if total_shares == 0 then ok 0 else mul_div shares total_vault_value total_shares

unfoldable pub calculate_shares_for_withdrawal : ℕ → ℕ → ℕ → Result ℕ
calculate_shares_for_withdrawal withdraw_amount total_shares total_vault_value =
    if total_vault_value == 0 then ok 0 else mul_div withdraw_amount total_shares total_vault_value

unfoldable pub calculate_current_exchange_rate : ℕ → ℕ → Result ℕ
calculate_current_exchange_rate total_shares total_vault_value =
    if total_shares == 0 then ok 1_000_000 else mul_div total_vault_value 1_000_000 total_shares

-- The placeholder of the source: no balance is committed.
unfoldable pub calculate_committed_balance : SubscriptionWallet → Result ℕ
calculate_committed_balance wallet = ok 0
