-- ===== src/Tests/Numbers.antt =====
-- The share arithmetic and the encodings at concrete numbers.
use eventop.Base.{ℕ, ◌≡◌, ◌*◌, ◌/◌, ◌<◌, refl, arith}
use eventop.Runtime.Result.{ok}
use eventop.Utils.Calculations.{calculate_shares_for_deposit, calculate_shares_for_withdrawal}
use eventop.Utils.Calculations.Rounding.{withdrawal_rounds_down, deposit_wraps}
use eventop.Utils.VaultOperations.{from_le_bytes, to_le_bytes}
use eventop.Utils.Encoding.{from_le_bytes-to_le_bytes}

-- 7 units are withdrawn for 5 shares, which are worth 6 and 2/3.
withdrawal_rounds_down_example : 5 * 4_000 < 7 * 3_000
unfolding calculate_shares_for_withdrawal
withdrawal_rounds_down_example =
    withdrawal_rounds_down 7 3_000 4_000 (omega arith) (omega arith) refl

-- 2 ^ 40 units for 2 ^ 40 shares at the value of 2: the low 64 bits of 2 ^ 79 are 0.
deposit_wraps_example :
    (s : ℕ) × (calculate_shares_for_deposit 1_099_511_627_776 1_099_511_627_776 2 ≡ ok s)
    × (s < 1_099_511_627_776 * 1_099_511_627_776 / 2)
deposit_wraps_example =
    deposit_wraps 1_099_511_627_776 1_099_511_627_776 2 (omega arith) (omega arith) (omega arith)
      (omega arith) (omega arith)

bytes_read_back : from_le_bytes (to_le_bytes 8 1_200_000_000) ≡ 1_200_000_000
bytes_read_back = from_le_bytes-to_le_bytes 8 1_200_000_000 (omega arith)
