-- ===== src/Funds/Conservation.antt =====
-- What the calls of the program do to the balances: whose can fall.
use eventop.Base.{ℕ, ◌≤◌, ◌<◌, ◌≡◌, ◌≢◌, sym, ◌∙◌, arith, inl, inr, Bool-cases, ==_iff, List, ◌==◌}
use eventop.Runtime.Result.{ok}
use eventop.Runtime.Token.{Ledger}
use eventop.Runtime.Anchor.{Pubkey, Solana, TransferContext}
use eventop.Runtime.Laws.{IsSolana}
use eventop.Funds.{Call, exec, source_of, IsAuthorised}
use eventop.Funds.Moves.{Paid, done, skip, send, exec-Paid, exec-IsAuthorised}

module _ {solana : Solana} (laws : IsSolana solana) where
  open laws use {transfer_debits, transfer_credits, transfer_others}

  -- Only the account that a transfer takes from loses anything.
  transfer-le :
      (c : TransferContext) (n : ℕ) (l l' : Ledger) (k : Pubkey)
      → k ≢ c.from
      → solana.transfer c n l ≡ ok l'
      → (l k).amount ≤ (l' k).amount
  transfer-le c n l l' k other h = elim (Bool-cases (k == c.to)) [
    | inl hit ↦
        let here : k ≡ c.to = (==_iff k c.to).0 hit in
        rw here (omega (arith, transfer_credits c n l l' (λ q. other (here ∙ sym q)) h))
    | inr miss ↦
        let away : l' k ≡ l k =
          transfer_others c n l l' k other (λ q. cc ((==_iff k c.to).1 q, miss)) h in
        rw away (omega arith)
  ]

  pub Paid-le :
      {source : Pubkey} {targets : List Pubkey} {l l' : Ledger} (k : Pubkey)
      → k ≢ source
      → Paid solana source targets l l'
      → (l k).amount ≤ (l' k).amount
  Paid-le k other done = omega arith
  Paid-le k other (skip rest) = Paid-le k other rest
  Paid-le {l} k other (send {l' = m} c n from _ h rest) =
      omega (arith, transfer-le c n l m k (λ q. other (q ∙ from)) h, Paid-le k other rest)

  -- A deposit, a withdrawal, a yield instruction or a payment lowers the balance of one account at
  -- most: the one that it takes from, and only where the account's or the wallet's owner has signed
  -- or the active subscription's interval has passed.
  pub exec-spends :
      (c : Call) (l : Ledger) {l' : Ledger} (k : Pubkey)
      → exec solana c l ≡ ok l'
      → (l' k).amount < (l k).amount
      → (k ≡ source_of c) × IsAuthorised c
  exec-spends c l k h fell = elim (Bool-cases (k == source_of c)) [
    | inl hit ↦ ((==_iff k (source_of c)).0 hit, exec-IsAuthorised solana c l h)
    | inr miss ↦ absurd (
        omega (
          arith,
          Paid-le k (λ q. cc ((==_iff k (source_of c)).1 q, miss)) (exec-Paid solana c l h),
        ))
  ]
