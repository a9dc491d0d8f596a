-- ===== src/Tests/Chain.antt =====
-- A small chain on which the laws of `IsSolana` hold: keys are sums of seeds, and the token program
-- moves amounts between accounts of one mint at their owner's signature.
use Prim.Native.String.{len}
use eventop.Base.{
  ℕ, ◌+◌, ◌-◌, ◌≤◌, ◌<◌, ◌≡◌, ◌≢◌, refl, ap, Bool, true, false, ◌&&◌, ◌||◌, none, some, List, [],
  ◌∷◌, ◌++◌, length, arith, ltb, leb, ◌==◌, if◌then◌else◌,
}
use eventop.Runtime.Result.{Result, ok, err, program_error}
use eventop.Runtime.Word.{u64_mod}
use eventop.Runtime.Token.{Ledger}
use eventop.Runtime.Anchor.{
  Pubkey, Seed, tag, key_bytes, text_bytes, bump_byte, Solana, TransferContext,
}
use eventop.Runtime.Laws.{IsSolana, IsSigned, HasLongSeed}

abbrev seed_code : Seed → ℕ
seed_code (tag s) = len s
seed_code (key_bytes k) = k
seed_code (text_bytes t) = length t
seed_code (bump_byte b) = 0

abbrev pub address : List Seed → ℕ
address [] = 0
address (s ∷ seeds) = seed_code s + address seeds

abbrev has_long_seed : List Seed → Bool
has_long_seed [] = false
has_long_seed (text_bytes t ∷ seeds) = ltb 32 (length t) || has_long_seed seeds
has_long_seed (_ ∷ seeds) = has_long_seed seeds

abbrev signed : List (List Seed) → Bool → Pubkey → Bool
signed [] given k = given
signed (s ∷ _) given k = address s == k

abbrev move : Ledger → Pubkey → Pubkey → ℕ → Ledger
move l from to n k =
    if k == from
    then record (l k) { amount = (l k).amount - n }
    else if k == to
    then record (l k) { amount = (l k).amount + n }
    else l k

abbrev allowed : TransferContext → ℕ → Ledger → Bool
allowed c n l =
    signed c.signer_seeds c.authority.is_signer c.authority.key
    && (l c.from).owner == c.authority.key
    && (l c.from).mint == (l c.to).mint
    && leb n (l c.from).amount
    && ltb ((l c.to).amount + n) u64_mod

abbrev test_transfer : TransferContext → ℕ → Ledger → Result Ledger
test_transfer c n l =
    if allowed c n l
    then ok (if c.from == c.to then l else move l c.from c.to n)
    else err (program_error 1)

abbrev pub chain : Solana
chain = record {
  find_program_address = λ seeds. if has_long_seed seeds then none else some (address seeds, 255);
  create_program_address = λ seeds. some (address seeds);
  transfer = test_transfer;
  invoke_signed = λ instruction keys seeds l. some l;
}

address-bump : (seeds : List Seed) (b : ℕ) → address (seeds ++ (bump_byte b ∷ [])) ≡ address seeds
address-bump [] b = refl
address-bump (s ∷ seeds) b = ap (λ (n : ℕ). seed_code s + n) (address-bump seeds b)

long_seed_found : (seeds : List Seed) → HasLongSeed seeds → has_long_seed seeds ≡ true
long_seed_found [] h = absurd h
long_seed_found (tag s ∷ seeds) h = long_seed_found seeds h
long_seed_found (key_bytes s ∷ seeds) h = long_seed_found seeds h
long_seed_found (bump_byte s ∷ seeds) h = long_seed_found seeds h
long_seed_found (text_bytes t ∷ seeds) h = ground (arith, long_seed_found seeds)

signed_of :
    (seeds : List (List Seed)) (given : Bool) (k : Pubkey)
    → IsSigned chain (record {
      from = 0;
      to = 0;
      authority = record { key = k; is_signer = given };
      signer_seeds = seeds;
    })
    → signed seeds given k ≡ true
signed_of [] given k h = h
signed_of (s ∷ _) given k h = ground arith

test_transfer_succeeds :
    (c : TransferContext) (n : ℕ) (l : Ledger)
    → c.from ≢ c.to
    → IsSigned chain c
    → (l c.from).owner ≡ c.authority.key
    → (l c.from).mint ≡ (l c.to).mint
    → n ≤ (l c.from).amount
    → (l c.to).amount + n < u64_mod
    → allowed c n l ≡ true
test_transfer_succeeds c n l ne s o m e f =
    ground (arith, signed_of c.signer_seeds c.authority.is_signer c.authority.key s)

pub chain-IsSolana : IsSolana chain
chain-IsSolana = record {
  create_found = λ seeds k bump h. ground (arith, address-bump seeds bump);
  find_too_long = λ seeds h. rw (long_seed_found seeds h);
  transfer_debits = λ c n l l' ne h. ground arith;
  transfer_credits = λ c n l l' ne h. ground arith;
  transfer_others = λ c n l l' k nf nt h. ground arith;
  transfer_keeps = λ c n l l' k h. ground arith;
  transfer_mints = λ c n l l' h. ground arith;
  transfer_succeeds = λ c n l ne s o m e f.
      (move l c.from c.to n, ground (arith, test_transfer_succeeds c n l ne s o m e f));
}
