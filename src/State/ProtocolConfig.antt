-- ===== src/State/ProtocolConfig.antt =====
-- state/protocol_config.rs of the program: the protocol's administrator, treasury and fee.
use eventop.Base.{ℕ, List, [], ◌∷◌, Option, none, some}
use eventop.Runtime.Result.{Result, unwrap}
use eventop.Runtime.Word.{u128_mod, saturating_mul, checked_div, as_u64}
use eventop.Runtime.Anchor.{Pubkey, Seed, tag, Solana}

pub record ProtocolConfig : Type 0 where
  pub authority : Pubkey
  pub treasury : Pubkey
  pub protocol_fee_bps : ℕ
  pub bump : ℕ

abbrev pub config_seeds : List Seed
config_seeds = tag "protocol_config" ∷ []

unfoldable pub get_pda : Solana → Result (Pubkey × ℕ)
get_pda solana = unwrap (solana.find_program_address config_seeds)

-- `.unwrap_or(0)`
abbrev pub or_zero : Option ℕ → ℕ
or_zero none = 0
or_zero (some n) = n

unfoldable pub calculate_fee : ProtocolConfig → ℕ → ℕ
calculate_fee config amount =
    as_u64 (or_zero (checked_div (saturating_mul u128_mod amount config.protocol_fee_bps) 10_000))
