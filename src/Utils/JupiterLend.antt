-- ===== src/Utils/JupiterLend.antt =====
-- utils/vault_operations.rs of the program: the two instructions that a vault sends to the lending
-- program.
use eventop.Base.{ℕ, true, false, List, [], ◌∷◌, ◌++◌, map, Text}
use eventop.Errors.{ErrorCodes, jupiter_lend_deposit_failed, jupiter_lend_withdraw_failed}
use eventop.Runtime.Result.{Result, ok_or}
use eventop.Runtime.Token.{Ledger}
use eventop.Runtime.Anchor.{
  Pubkey, Account, AccountInfo, AccountMeta, Instruction, Solana, new_readonly, new_writable,
}
use eventop.State.YieldVault.{YieldVault}
use eventop.Utils.VaultOperations.{to_le_bytes, vault_signer}

abbrev pub get_deposit_discriminator : Text
get_deposit_discriminator = 242 ∷ 35 ∷ 198 ∷ 137 ∷ 82 ∷ 225 ∷ 242 ∷ 182 ∷ []

abbrev pub get_withdraw_discriminator : Text
get_withdraw_discriminator = 183 ∷ 18 ∷ 70 ∷ 156 ∷ 148 ∷ 109 ∷ 161 ∷ 34 ∷ []

pub record JupiterLendAccounts : Type 0 where
  pub mint : AccountInfo
  pub f_token_mint : AccountInfo
  pub lending_admin : AccountInfo
  pub lending : AccountInfo
  pub supply_token_reserves_liquidity : AccountInfo
  pub lending_supply_position_on_liquidity : AccountInfo
  pub rate_model : AccountInfo
  pub jupiter_vault : AccountInfo
  pub liquidity : AccountInfo
  pub liquidity_program : AccountInfo
  pub rewards_rate_model : AccountInfo
  pub claim_account : AccountInfo
  pub lending_program : AccountInfo
  pub associated_token_program : AccountInfo
  pub system_program : AccountInfo

-- The keys of the accounts that go with an instruction.
abbrev pub meta_keys : List AccountMeta → List Pubkey
meta_keys = map (λ m. m.pubkey)

abbrev pub deposit_instruction :
    (vault from recipient token_program : Pubkey) → JupiterLendAccounts → ℕ → Instruction
deposit_instruction vault from recipient token_program j amount = record {
  program_id = j.lending_program.key;
  accounts =
      new_writable vault true
      ∷ new_writable from false
      ∷ new_writable recipient false
      ∷ new_readonly j.mint.key false
      ∷ new_readonly j.lending_admin.key false
      ∷ new_writable j.lending.key false
      ∷ new_writable j.f_token_mint.key false
      ∷ new_writable j.supply_token_reserves_liquidity.key false
      ∷ new_writable j.lending_supply_position_on_liquidity.key false
      ∷ new_readonly j.rate_model.key false
      ∷ new_writable j.jupiter_vault.key false
      ∷ new_writable j.liquidity.key false
      ∷ new_writable j.liquidity_program.key false
      ∷ new_readonly j.rewards_rate_model.key false
      ∷ new_readonly token_program false
      ∷ new_readonly j.associated_token_program.key false
      ∷ new_readonly j.system_program.key false
      ∷ [];
  instruction_data = get_deposit_discriminator ++ to_le_bytes 8 amount;
}

abbrev pub withdraw_instruction :
    (vault owner recipient token_program : Pubkey) → JupiterLendAccounts → ℕ → Instruction
withdraw_instruction vault owner recipient token_program j amount = record {
  program_id = j.lending_program.key;
  accounts =
      new_writable vault true
      ∷ new_writable owner false
      ∷ new_writable recipient false
      ∷ new_readonly j.lending_admin.key false
      ∷ new_writable j.lending.key false
      ∷ new_readonly j.mint.key false
      ∷ new_writable j.f_token_mint.key false
      ∷ new_writable j.supply_token_reserves_liquidity.key false
      ∷ new_writable j.lending_supply_position_on_liquidity.key false
      ∷ new_readonly j.rate_model.key false
      ∷ new_writable j.jupiter_vault.key false
      ∷ new_writable j.claim_account.key false
      ∷ new_writable j.liquidity.key false
      ∷ new_writable j.liquidity_program.key false
      ∷ new_readonly j.rewards_rate_model.key false
      ∷ new_readonly token_program false
      ∷ new_readonly j.associated_token_program.key false
      ∷ new_readonly j.system_program.key false
      ∷ [];
  instruction_data = get_withdraw_discriminator ++ to_le_bytes 8 amount;
}

module _ (solana : Solana) where
  -- A failed call of the other program is mapped to one error code.
  abbrev invoke_or : ErrorCodes → Instruction → YieldVault → Ledger → Result Ledger
  invoke_or e instruction vault ledger =
      ok_or
        (solana.invoke_signed instruction (meta_keys instruction.accounts) (vault_signer vault)
          ledger)
        e

  unfoldable pub deposit_to_jupiter_lend_internal :
      (vault : Account YieldVault) (from recipient token_program : Pubkey)
      → JupiterLendAccounts
      → ℕ
      → Ledger
      → Result Ledger
  deposit_to_jupiter_lend_internal vault from recipient token_program accounts amount =
      invoke_or jupiter_lend_deposit_failed
        (deposit_instruction vault.key from recipient token_program accounts amount) vault.state

  unfoldable pub withdraw_from_jupiter_lend_internal :
      (vault : Account YieldVault) (owner recipient token_program : Pubkey)
      → JupiterLendAccounts
      → ℕ
      → Ledger
      → Result Ledger
  withdraw_from_jupiter_lend_internal vault owner recipient token_program accounts amount =
      invoke_or jupiter_lend_withdraw_failed
        (withdraw_instruction vault.key owner recipient token_program accounts amount) vault.state
