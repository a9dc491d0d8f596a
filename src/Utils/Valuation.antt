-- ===== src/Utils/Valuation.antt =====
-- utils/vault_operations.rs: the value of a vault whose buffer and fTokens are both read.
use eventop.Base.{ℕ, ◌+◌, ◌≤◌, ◌≡◌, arith, some}
use eventop.Runtime.Result.{ok}
use eventop.Runtime.Token.{TokenAccount}
use eventop.Runtime.Anchor.{Account, AccountInfo}
use eventop.State.YieldVault.{YieldVault}
use eventop.Utils.VaultOperations.{get_vault_total_value, ftoken_value}

module _ (lending : AccountInfo) (v : YieldVault) (buffer f_tokens : Account TokenAccount) where
  pub total-le :
      {total : ℕ}
      → get_vault_total_value lending v (some buffer) (some f_tokens) ≡ ok total
      → buffer.state.amount ≤ total
  unfolding get_vault_total_value
  total-le h = ground arith

  pub total-alone :
      {total : ℕ}
      → f_tokens.state.amount ≡ 0
      → get_vault_total_value lending v (some buffer) (some f_tokens) ≡ ok total
      → total ≡ buffer.state.amount
  unfolding get_vault_total_value
  total-alone none_lent h = ground arith

  pub total-eq :
      (lent : ℕ) {total : ℕ}
      → ftoken_value lending f_tokens.state.amount ≡ ok lent
      → get_vault_total_value lending v (some buffer) (some f_tokens) ≡ ok total
      → (f_tokens.state.amount ≡ 0 → lent ≡ 0)
      → total ≡ buffer.state.amount + lent
  unfolding get_vault_total_value
  total-eq lent value h none_lent = ground arith
