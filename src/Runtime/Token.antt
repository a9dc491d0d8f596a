-- ===== src/Runtime/Token.antt =====
-- Token accounts and the state of the token program.
use eventop.Base.{ℕ}

-- The fields of `anchor_spl::token::TokenAccount` that the program reads.
pub record TokenAccount : Type 0 where
  pub mint : ℕ
  pub owner : ℕ
  pub amount : ℕ

-- The token accounts on the chain, by key.
abbrev pub Ledger : Type 0
Ledger = ℕ → TokenAccount
