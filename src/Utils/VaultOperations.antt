-- ===== src/Utils/VaultOperations.antt =====
-- utils/vault_operations.rs of the program: the value of a vault, and the transfer out of its buffer.
use eventop.Base.{
  ℕ, zero, suc, ◌+◌, ◌*◌, ◌/◌, ◌%◌, ◌&&◌, Option, none, some, List, [], ◌∷◌, Text, length, take,
  drop, ltb, leb, if◌then◌else◌,
}
use eventop.Errors.{math_overflow, invalid_jupiter_lend_account}
use eventop.Runtime.Result.{Result, ok, ◌>>=◌, ◌>>◌, require, ok_or}
use eventop.Runtime.Word.{u64_mod, checked_add}
use eventop.Runtime.Token.{TokenAccount, Ledger}
use eventop.Runtime.Anchor.{
  Pubkey, Seed, tag, key_bytes, bump_byte, Account, AccountInfo, Solana, unsigned, is_none,
}
use eventop.State.YieldVault.{YieldVault}
use eventop.Utils.Calculations.{mul_div}

-- `u64::from_le_bytes`, and `to_le_bytes` for a number of bytes.
unfoldable pub from_le_bytes : Text → ℕ
from_le_bytes [] = 0
from_le_bytes (b ∷ bs) = b + 256 * from_le_bytes bs

unfoldable pub to_le_bytes : ℕ → ℕ → Text
to_le_bytes zero n = []
to_le_bytes (suc k) n = (n % 256) ∷ to_le_bytes k (n / 256)

-- Where the lending account holds `token_exchange_price`.
abbrev pub exchange_rate_offset : ℕ
exchange_rate_offset = 8 + 32 + 32 + 2 + 1 + 32 + 8

-- The underlying value of a balance of fTokens, at the rate that the lending account holds.
unfoldable pub ftoken_value : AccountInfo → ℕ → Result ℕ
unfolding from_le_bytes
ftoken_value jupiter_lending ftoken_balance = do
  require (leb 8 (length jupiter_lending.contents)) invalid_jupiter_lend_account
  require (leb (exchange_rate_offset + 8) (length jupiter_lending.contents))
      invalid_jupiter_lend_account
  let exchange_rate = from_le_bytes (take 8 (drop exchange_rate_offset jupiter_lending.contents))
  mul_div ftoken_balance exchange_rate 1_000_000_000

abbrev pub add_buffer : Option (Account TokenAccount) → ℕ → Result ℕ
add_buffer none total = ok total
add_buffer (some buffer) total = ok_or (checked_add u64_mod total buffer.state.amount) math_overflow

abbrev pub add_ftoken_value : AccountInfo → ℕ → ℕ → Result ℕ
add_ftoken_value lending balance total = do
  value ← ftoken_value lending balance
  ok_or (checked_add u64_mod total value) math_overflow

abbrev pub add_ftokens : AccountInfo → Option (Account TokenAccount) → ℕ → Result ℕ
add_ftokens lending none total = ok total
add_ftokens lending (some account) total =
    let balance = account.state.amount in
    if ltb 0 balance then add_ftoken_value lending balance total else ok total

unfoldable pub get_vault_total_value :
    AccountInfo
    → YieldVault
    → Option (Account TokenAccount)
    → Option (Account TokenAccount)
    → Result ℕ
get_vault_total_value jupiter_lending vault vault_buffer_account vault_ftoken_account = do
  buffer_value ← add_buffer vault_buffer_account 0
  total_value ← add_ftokens jupiter_lending vault_ftoken_account buffer_value
  let untracked = is_none vault_buffer_account && is_none vault_ftoken_account
  ok (if untracked then vault.total_usdc_deposited else total_value)

-- The seeds with which a vault's account signs.
abbrev pub vault_signer : YieldVault → List (List Seed)
vault_signer vault = (tag "yield_vault" ∷ key_bytes vault.mint ∷ bump_byte vault.bump ∷ []) ∷ []

module _ (solana : Solana) where
  unfoldable pub withdraw_from_vault_internal :
      (vault_key : Pubkey) (vault : YieldVault) (vault_buffer destination : Pubkey) (amount : ℕ)
      → Ledger
      → Result Ledger
  withdraw_from_vault_internal vault_key vault vault_buffer destination amount ledger =
      solana.transfer
        (record {
          from = vault_buffer;
          to = destination;
          authority = unsigned vault_key;
          signer_seeds = vault_signer vault;
        })
        amount ledger
