-- ===== src/Utils/Encoding.antt =====
-- utils/vault_operations.rs: the numbers in the instruction data and in the lending account.
use native.Mathlib.Nat.{pow-suc, div-lt_iff_lt-mul}
use eventop.Base.{
  ◌≤◌, ◌+◌, le→leb, ap, ◌∙◌, ℕ, zero, suc, ◌*◌, ◌/◌, ◌^◌, ◌<◌, ◌≡◌, refl, arith, [], ◌∷◌, ◌++◌,
  Text, length, take, drop, length-append,
}
use eventop.Runtime.Result.{ok}
use eventop.Runtime.Word.{u64_mod, as_u64}
use eventop.Runtime.Anchor.{Pubkey}
use eventop.Utils.Calculations.Ranges.{mul_div-eq}
use mathlib.Core.Path.{subst}
use eventop.Utils.VaultOperations.{from_le_bytes, to_le_bytes, exchange_rate_offset, ftoken_value}
use eventop.Utils.JupiterLend.{JupiterLendAccounts, deposit_instruction, withdraw_instruction}

pub length-to_le_bytes : (k n : ℕ) → length (to_le_bytes k n) ≡ k
unfolding to_le_bytes
length-to_le_bytes zero n = refl
length-to_le_bytes (suc k) n = omega (arith, length-to_le_bytes k (n / 256))

-- Reading back the bytes of a number that fits them gives the number.
pub from_le_bytes-to_le_bytes : (k n : ℕ) → n < 256 ^ k → from_le_bytes (to_le_bytes k n) ≡ n
unfolding from_le_bytes to_le_bytes
from_le_bytes-to_le_bytes zero n h = omega arith
from_le_bytes-to_le_bytes (suc k) n h =
    let wide : n < 256 ^ k * 256 = rw (← pow-suc 256 k) h in
    let high : n / 256 < 256 ^ k = (div-lt_iff_lt-mul {k = 256} (omega arith)).1 wide in
    rw (from_le_bytes-to_le_bytes k (n / 256) high) (omega arith)

pub take-append_length : (xs ys : Text) → take (length xs) (xs ++ ys) ≡ xs
take-append_length [] ys = refl
take-append_length (x ∷ xs) ys = rw (take-append_length xs ys)

pub drop-append_length : (xs ys : Text) → drop (length xs) (xs ++ ys) ≡ ys
drop-append_length [] ys = refl
drop-append_length (x ∷ xs) ys = drop-append_length xs ys

-- The bytes behind the eight of the discriminator, of either instruction, are its amount.
pub instruction_amount :
    (vault from to token_program : Pubkey) (j : JupiterLendAccounts) (amount : ℕ)
    → amount < u64_mod
    → (from_le_bytes
          (drop 8 (deposit_instruction vault from to token_program j amount).instruction_data)
        ≡ amount)
      × (from_le_bytes
            (drop 8 (withdraw_instruction vault from to token_program j amount).instruction_data)
          ≡ amount)
instruction_amount vault from to token_program j amount h =
    let same = from_le_bytes-to_le_bytes 8 amount h in (same, same)

rate_found :
    (prefix rest : Text) (rate : ℕ)
    → length prefix ≡ exchange_rate_offset
    → rate < u64_mod
    → from_le_bytes (take 8 (drop exchange_rate_offset (prefix ++ (to_le_bytes 8 rate ++ rest))))
      ≡ rate
rate_found prefix rest rate at_rate hr =
    let bytes = to_le_bytes 8 rate in
    let dropped : drop exchange_rate_offset (prefix ++ (bytes ++ rest)) ≡ bytes ++ rest =
      subst (λ n. drop n (prefix ++ (bytes ++ rest)) ≡ bytes ++ rest) at_rate
        (drop-append_length prefix (bytes ++ rest)) in
    let taken : take 8 (bytes ++ rest) ≡ bytes =
      subst (λ n. take n (bytes ++ rest) ≡ bytes) (length-to_le_bytes 8 rate)
        (take-append_length bytes rest) in
    ap (λ (t : Text). from_le_bytes (take 8 t)) dropped
    ∙ ap from_le_bytes taken
    ∙ from_le_bytes-to_le_bytes 8 rate hr

ftoken_value_at :
    (contents : Text) (key balance rate : ℕ)
    → exchange_rate_offset + 8 ≤ length contents
    → from_le_bytes (take 8 (drop exchange_rate_offset contents)) ≡ rate
    → balance < u64_mod
    → rate < u64_mod
    → ftoken_value (record { key = key; contents = contents }) balance
      ≡ ok (as_u64 (balance * rate / 1_000_000_000))
unfolding ftoken_value
ftoken_value_at contents key balance rate size found hb hr =
    rw (le→leb 8 (length contents) (omega arith), le→leb 123 (length contents) size, found)
      (mul_div-eq balance rate 1_000_000_000 hb hr (omega arith))

-- A lending account that holds a 64-bit rate at the offset of the exchange price values a balance of
-- fTokens at that rate, in billionths, narrowed to 64 bits.
pub ftoken_value-reads :
    (prefix rest : Text) (key balance rate : ℕ)
    → length prefix ≡ exchange_rate_offset
    → balance < u64_mod
    → rate < u64_mod
    → ftoken_value (record { key = key; contents = prefix ++ (to_le_bytes 8 rate ++ rest) }) balance
      ≡ ok (as_u64 (balance * rate / 1_000_000_000))
ftoken_value-reads prefix rest key balance rate at_rate hb hr =
    let bytes = to_le_bytes 8 rate in
    ftoken_value_at (prefix ++ (bytes ++ rest)) key balance rate
      (omega (
        arith,
        at_rate,
        length-append prefix (bytes ++ rest),
        length-append bytes rest,
        length-to_le_bytes 8 rate,
      ))
      (rate_found prefix rest rate at_rate hr) hb hr
