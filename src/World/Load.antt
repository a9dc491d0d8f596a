-- ===== src/World/Load.antt =====
-- Reading the accounts of an instruction, before its entry point runs. An account of the program
-- that is not there fails the instruction; one that is to be made may be missing.
use eventop.Base.{arith, ◌≡◌, ◌==◌, ◌||◌, Bool, false, Option, none, some, List, [], ◌∷◌}
use eventop.Base.Assoc.{find, put, remove}
use eventop.Runtime.Result.{Result, ok, ◌>>=◌, loaded}
use eventop.Runtime.Token.{TokenAccount}
use eventop.Runtime.Anchor.{Pubkey, Account, AccountInfo, Signer}
use eventop.World.{World}

abbrev pub is_in : Pubkey → List Pubkey → Bool
is_in k [] = false
is_in k (j ∷ ks) = k == j || is_in k ks

abbrev pub signer_at : List Pubkey → Pubkey → Signer
signer_at signers k = record { key = k; is_signer = is_in k signers }

module _ {ℓ} {V : Type ℓ} where
  -- `Account<'info, V>`
  unfoldable pub load : Pubkey → List (Pubkey × V) → Result (Account V)
  load k m = do v ← loaded (find k m); ok (record { key = k; state = v })

  -- An account that the instruction is to make.
  abbrev pub load_new : Pubkey → List (Pubkey × V) → Account (Option V)
  load_new k m = record { key = k; state = find k m }

  -- `Option<Account<'info, V>>`
  unfoldable pub load_optional : Option Pubkey → List (Pubkey × V) → Result (Option (Account V))
  unfolding load
  load_optional none m = ok none
  load_optional (some k) m = do a ← load k m; ok (some a)

  -- What is stored of an account that the instruction made or closed.
  abbrev pub save_as : Pubkey → Option V → List (Pubkey × V) → List (Pubkey × V)
  save_as k none m = remove k m
  save_as k (some v) m = put k v m

  abbrev pub save_new : Account (Option V) → List (Pubkey × V) → List (Pubkey × V)
  save_new a m = save_as a.key a.state m

  abbrev pub save : Account V → List (Pubkey × V) → List (Pubkey × V)
  save a m = put a.key a.state m

  abbrev pub save_optional : Option (Account V) → List (Pubkey × V) → List (Pubkey × V)
  save_optional none m = m
  save_optional (some a) m = save a m

  pub load-eq-ok :
      (k : Pubkey) (m : List (Pubkey × V)) {a : Account V}
      → load k m ≡ ok a
      → (a.key ≡ k) × (find k m ≡ some a.state)
  unfolding load
  load-eq-ok k m h = ground arith

abbrev pub tokens_at : World → Pubkey → Account TokenAccount
tokens_at w k = record { key = k; state = w.ledger k }

abbrev pub optional_tokens_at : World → Option Pubkey → Option (Account TokenAccount)
optional_tokens_at w none = none
optional_tokens_at w (some k) = some (tokens_at w k)

abbrev pub info_at : World → Pubkey → AccountInfo
info_at w k = record { key = k; contents = w.contents k }

abbrev pub optional_info_at : World → Option Pubkey → Option AccountInfo
optional_info_at w none = none
optional_info_at w (some k) = some (info_at w k)
