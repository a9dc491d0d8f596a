-- ===== src/State/YieldVault.antt =====
-- state/yield_vault.rs of the program: the pooled vault of one mint.
use eventop.Base.{ℕ, Bool, not, List, [], ◌∷◌}
use eventop.Runtime.Word.{u128_mod, saturating_mul, checked_div, as_u64}
use eventop.Runtime.Anchor.{Pubkey, Seed, tag, key_bytes, Solana, Account, check_seeds}
use eventop.Runtime.Result.{unwrap, Result}
use eventop.State.ProtocolConfig.{or_zero}

pub record YieldVault : Type 0 where
  pub authority : Pubkey
  pub mint : Pubkey
  pub usdc_buffer : Pubkey
  pub jupiter_ftoken_account : Pubkey
  pub jupiter_lending : Pubkey
  pub total_shares_issued : ℕ
  pub total_usdc_deposited : ℕ
  pub target_buffer_bps : ℕ
  pub emergency_mode : Bool
  pub emergency_exchange_rate : ℕ
  pub bump : ℕ

abbrev pub vault_seeds : Pubkey → List Seed
vault_seeds mint = tag "yield_vault" ∷ key_bytes mint ∷ []

unfoldable pub get_pda : Solana → Pubkey → Result (Pubkey × ℕ)
get_pda solana mint = unwrap (solana.find_program_address (vault_seeds mint))

unfoldable pub is_operational : YieldVault → Bool
is_operational vault = not vault.emergency_mode

unfoldable pub calculate_target_buffer : YieldVault → ℕ → ℕ
calculate_target_buffer vault total_value =
    as_u64
      (or_zero (checked_div (saturating_mul u128_mod total_value vault.target_buffer_bps) 10_000))

-- `seeds = [b"yield_vault", mint], bump = yield_vault.bump`
abbrev pub check_vault_seeds : Solana → Pubkey → Account YieldVault → Result (Unit {0})
check_vault_seeds solana mint vault =
    check_seeds solana (vault_seeds mint) vault.state.bump vault.key
