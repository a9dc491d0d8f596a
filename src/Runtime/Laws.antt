-- ===== src/Runtime/Laws.antt =====
-- What the program relies on in the code that it calls. Each law is documented behaviour: of
-- Solana's program-derived addresses, and of the SPL token program's transfer.
use eventop.Base.{◌⊎◌, none, length, ℕ, ◌+◌, ◌≤◌, ◌<◌, ◌≡◌, ◌≢◌, true, some, List, [], ◌∷◌, ◌++◌}
use eventop.Runtime.Result.{ok}
use eventop.Runtime.Word.{u64_mod}
use eventop.Runtime.Token.{Ledger}
use eventop.Runtime.Anchor.{Pubkey, Seed, bump_byte, text_bytes, Solana, TransferContext}

-- The authority's signature is on the transaction, or its seeds were given.
abbrev pub IsSigned : Solana → TransferContext → Type 0
IsSigned solana c = go c.signer_seeds
  where
    go : List (List Seed) → Type 0
    go [] = c.authority.is_signer ≡ true
    go (s ∷ _) = solana.create_program_address s ≡ some c.authority.key

-- `MAX_SEED_LEN` of Solana.
abbrev pub max_seed_len : ℕ
max_seed_len = 32

abbrev pub HasLongSeed : List Seed → Type 0
HasLongSeed [] = ⊥
HasLongSeed (text_bytes t ∷ seeds) = (max_seed_len < length t) ⊎ HasLongSeed seeds
HasLongSeed (_ ∷ seeds) = HasLongSeed seeds

pub record IsSolana (solana : Solana) : Type 0 where
  -- The bump that is found is one with which the address is made.
  pub create_found :
      (seeds : List Seed) (k : Pubkey) (bump : ℕ)
      → solana.find_program_address seeds ≡ some (k, bump)
      → solana.create_program_address (seeds ++ (bump_byte bump ∷ [])) ≡ some k
  -- A seed has at most 32 bytes: with a longer one there is no address.
  pub find_too_long :
      (seeds : List Seed) → HasLongSeed seeds → solana.find_program_address seeds ≡ none
  -- A transfer between two accounts moves the amount and touches no third account.
  pub transfer_debits :
      (c : TransferContext) (n : ℕ) (l l' : Ledger)
      → c.from ≢ c.to
      → solana.transfer c n l ≡ ok l'
      → (l' c.from).amount + n ≡ (l c.from).amount
  pub transfer_credits :
      (c : TransferContext) (n : ℕ) (l l' : Ledger)
      → c.from ≢ c.to
      → solana.transfer c n l ≡ ok l'
      → (l' c.to).amount ≡ (l c.to).amount + n
  pub transfer_others :
      (c : TransferContext) (n : ℕ) (l l' : Ledger) (k : Pubkey)
      → k ≢ c.from
      → k ≢ c.to
      → solana.transfer c n l ≡ ok l'
      → l' k ≡ l k
  -- A transfer changes no account's mint or owner.
  pub transfer_keeps :
      (c : TransferContext) (n : ℕ) (l l' : Ledger) (k : Pubkey)
      → solana.transfer c n l ≡ ok l'
      → ((l' k).mint ≡ (l k).mint) × ((l' k).owner ≡ (l k).owner)
  -- Only between accounts of one mint.
  pub transfer_mints :
      (c : TransferContext) (n : ℕ) (l l' : Ledger)
      → solana.transfer c n l ≡ ok l'
      → (l c.from).mint ≡ (l c.to).mint
  -- Accounts of one mint, the owner's signature and enough funds: then the transfer succeeds.
  pub transfer_succeeds :
      (c : TransferContext) (n : ℕ) (l : Ledger)
      → c.from ≢ c.to
      → IsSigned solana c
      → (l c.from).owner ≡ c.authority.key
      → (l c.from).mint ≡ (l c.to).mint
      → n ≤ (l c.from).amount
      → (l c.to).amount + n < u64_mod
      → (l' : Ledger) × (solana.transfer c n l ≡ ok l')
