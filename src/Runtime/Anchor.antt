-- ===== src/Runtime/Anchor.antt =====
-- What the program sees of Solana and Anchor: keys, seeds, accounts, signers, instructions for other
-- programs, and the checks behind the `#[account(...)]` attributes. Key derivation, the token
-- program and the lending program are not part of the repository: they are the fields of `Solana`.
use Prim.Native.String.{String}
use eventop.Base.{ℕ, Bool, true, false, Option, none, some, List, [], ◌∷◌, ◌==◌, ◌++◌, Text}
use eventop.Runtime.Result.{
  Result, ok, unwrap, ◌>>=◌, ◌>>◌, check, constraint_seeds, constraint_token_mint,
  constraint_token_owner, account_not_signer, account_in_use,
}
use eventop.Runtime.Token.{TokenAccount, Ledger}

-- A public key is only ever compared and hashed.
abbrev pub Pubkey : Type 0
Pubkey = ℕ

-- One entry of a seed array: a byte string literal, a key, a text argument, or the bump.
pub data Seed : Type 0 where
  tag : String → Seed
  key_bytes : Pubkey → Seed
  text_bytes : Text → Seed
  bump_byte : ℕ → Seed

-- `Account<'info, A>`: an account's key with the contents read when the instruction began.
pub record Account {ℓ} (A : Type ℓ) : Type ℓ where
  pub key : Pubkey
  pub state : A

pub record Signer : Type 0 where
  pub key : Pubkey
  pub is_signer : Bool

-- An account that the program does not interpret, or reads byte by byte.
pub record AccountInfo : Type 0 where
  pub key : Pubkey
  pub contents : Text

-- `Transfer` with its `CpiContext`; no signer seeds for `CpiContext::new`.
pub record TransferContext : Type 0 where
  pub from : Pubkey
  pub to : Pubkey
  pub authority : Signer
  pub signer_seeds : List (List Seed)

pub record AccountMeta : Type 0 where
  pub pubkey : Pubkey
  pub is_signer : Bool
  pub is_writable : Bool

pub record Instruction : Type 0 where
  pub program_id : Pubkey
  pub accounts : List AccountMeta
  pub instruction_data : Text

-- The code outside the repository that the program calls.
pub record Solana : Type 0 where
  -- `none` where no bump gives an address, on which the library's function panics.
  pub find_program_address : List Seed → Option (Pubkey × ℕ)
  pub create_program_address : List Seed → Option Pubkey
  pub transfer : TransferContext → ℕ → Ledger → Result Ledger
  pub invoke_signed : Instruction → List Pubkey → List (List Seed) → Ledger → Option Ledger

abbrev pub new_readonly : Pubkey → Bool → AccountMeta
new_readonly k s = record { pubkey = k; is_signer = s; is_writable = false }

abbrev pub new_writable : Pubkey → Bool → AccountMeta
new_writable k s = record { pubkey = k; is_signer = s; is_writable = true }

-- A program-derived account signs only through its seeds.
abbrev pub unsigned : Pubkey → Signer
unsigned k = record { key = k; is_signer = false }

abbrev pub seeds_match : Option Pubkey → Pubkey → Bool
seeds_match none k = false
seeds_match (some derived) k = derived == k

-- `seeds = [...], bump = b`
abbrev pub check_seeds : Solana → List Seed → ℕ → Pubkey → Result (Unit {0})
check_seeds solana seeds bump k =
    check (seeds_match (solana.create_program_address (seeds ++ (bump_byte bump ∷ []))) k)
      constraint_seeds

-- `seeds = [...], bump`: the bump is the canonical one, which the handler finds in `ctx.bumps`.
abbrev pub check_canonical : Solana → List Seed → Pubkey → Result ℕ
check_canonical solana seeds k = do
  found ← unwrap (solana.find_program_address seeds)
  check (found.0 == k) constraint_seeds
  ok found.1

abbrev pub is_none {ℓ} : {A : Type ℓ} → Option A → Bool
is_none none = true
is_none (some a) = false

-- `init`: the account must not exist yet.
abbrev pub check_init {ℓ} : {A : Type ℓ} → Account (Option A) → Result (Unit {0})
check_init a = check (is_none a.state) account_in_use

abbrev pub check_signer : Signer → Result (Unit {0})
check_signer s = check s.is_signer account_not_signer

-- `token::mint = m`
abbrev pub check_token_mint : Account TokenAccount → Pubkey → Result (Unit {0})
check_token_mint a m = check (a.state.mint == m) constraint_token_mint

-- `token::authority = k`
abbrev pub check_token_authority : Account TokenAccount → Pubkey → Result (Unit {0})
check_token_authority a k = check (a.state.owner == k) constraint_token_owner
