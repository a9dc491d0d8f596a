-- ===== src/Utils/Lending.antt =====
-- What a rebalancing relies on in the lending program, as the comments of utils/vault_operations.rs
-- say it: a deposit takes its amount of the underlying token from the source account, and a
-- withdrawal pays its amount into the destination. Nothing is said of fTokens or other accounts.
use eventop.Base.{ℕ, ◌+◌, ◌<◌, ◌≡◌, ◌≢◌, some, List}
use eventop.Runtime.Word.{u64_mod}
use eventop.Runtime.Token.{Ledger}
use eventop.Runtime.Anchor.{Pubkey, Seed, Solana}
use eventop.Utils.JupiterLend.{
  JupiterLendAccounts, meta_keys, deposit_instruction, withdraw_instruction,
}

pub record IsLending (solana : Solana) : Type 0 where
  pub deposit_takes :
      (vault from recipient token_program : Pubkey) (j : JupiterLendAccounts) (amount : ℕ)
      (seeds : List (List Seed)) (l l' : Ledger)
      → from ≢ recipient
      → amount < u64_mod
      → solana.invoke_signed
          (deposit_instruction vault from recipient token_program j amount)
          (meta_keys (deposit_instruction vault from recipient token_program j amount).accounts)
          seeds
          l
        ≡ some l'
      → (l' from).amount + amount ≡ (l from).amount
  pub withdrawal_pays :
      (vault owner recipient token_program : Pubkey) (j : JupiterLendAccounts) (amount : ℕ)
      (seeds : List (List Seed)) (l l' : Ledger)
      → owner ≢ recipient
      → amount < u64_mod
      → solana.invoke_signed
          (withdraw_instruction vault owner recipient token_program j amount)
          (meta_keys (withdraw_instruction vault owner recipient token_program j amount).accounts)
          seeds
          l
        ≡ some l'
      → (l' recipient).amount ≡ (l recipient).amount + amount
