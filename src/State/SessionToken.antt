-- ===== src/State/SessionToken.antt =====
-- state/session_token.rs of the program: the record that a session token has been used.
use eventop.Base.{ℕ, ℤ, Bool, true, false, List, [], ◌∷◌, Text, leb_ℤ}
use eventop.Runtime.Result.{unwrap, Result, ok, ◌>>=◌}
use eventop.Runtime.Word.{sub_i64}
use eventop.Runtime.Anchor.{Pubkey, Seed, tag, text_bytes, Solana}

pub record SessionTokenTracker : Type 0 where
  pub session_token : Text
  pub user : Pubkey
  pub subscription : Pubkey
  pub timestamp : ℤ
  pub is_used : Bool
  pub bump : ℕ

abbrev pub session_seeds : Text → List Seed
session_seeds session_token = tag "session_token" ∷ text_bytes session_token ∷ []

unfoldable pub get_pda : Solana → Text → Result (Pubkey × ℕ)
get_pda solana session_token = unwrap (solana.find_program_address (session_seeds session_token))

-- `&&` does not read the age of a used token.
unfoldable pub is_valid : SessionTokenTracker → ℤ → ℤ → Result Bool
unfolding sub_i64
is_valid tracker current_time max_age_seconds = elim tracker.is_used [
  | true ↦ ok false
  | false ↦ do age ← sub_i64 current_time tracker.timestamp; ok (leb_ℤ age max_age_seconds)
]
