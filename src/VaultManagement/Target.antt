-- ===== src/VaultManagement/Target.antt =====
-- instructions/vault_management/rebalance_vault.rs: where a rebalancing leaves the buffer.
use eventop.Base.{ap, ℕ, ◌+◌, ◌/◌, ◌≤◌, ◌<◌, ◌≡◌, ◌≢◌, inl, inr, arith, sym, some}
use eventop.Runtime.Result.{ok}
use eventop.Runtime.Word.{u64_mod}
use eventop.Runtime.Token.{TokenAccount, Ledger}
use eventop.Runtime.Anchor.{Solana}
use eventop.Outcome.{Outcome}
use eventop.Utils.Calculations.{calculate_buffer_amount}
use eventop.Utils.VaultOperations.{get_vault_total_value, vault_signer}
use eventop.Utils.JupiterLend.{
  deposit_to_jupiter_lend_internal, withdraw_from_jupiter_lend_internal,
}
use eventop.Utils.Lending.{IsLending}
use eventop.VaultManagement.RebalanceVault.{RebalanceVault, jupiter_accounts, rebalance_vault}
use eventop.VaultManagement.Rebalancing.{ToppedUp, Lent, rebalance_steps}

-- A balance is at the target, or over it by at most 1% of the total value.
abbrev pub IsOnTarget : (total target balance : ℕ) → Type 0
IsOnTarget total target balance = (target ≤ balance) × (balance ≤ target + total / 100)

target_fits :
    (total bps target : ℕ) → calculate_buffer_amount total bps ≡ ok target → target < u64_mod
unfolding calculate_buffer_amount
target_fits total bps target h = ground arith

module _ {solana : Solana} (lending : IsLending solana) (ctx : RebalanceVault) (l : Ledger)
    (apart : ctx.vault_buffer.key ≢ ctx.jupiter_ftoken_account.key)
    (loaded : l ctx.vault_buffer.key ≡ ctx.vault_buffer.state)
    (fits : ctx.vault_buffer.state.amount < u64_mod) where
  ToppedUp-IsOnTarget :
      (total target : ℕ) (o : Outcome RebalanceVault)
      → target < u64_mod
      → ToppedUp solana ctx l total target o
      → IsOnTarget total target (o.ledger ctx.vault_buffer.key).amount
  unfolding withdraw_from_jupiter_lend_internal
  ToppedUp-IsOnTarget total target o aim (a, sum, _, done, _) =
      let paid =
        lending.withdrawal_pays ctx.yield_vault.key ctx.jupiter_ftoken_account.key
          ctx.vault_buffer.key ctx.token_program (jupiter_accounts ctx) a
          (vault_signer ctx.yield_vault.state) l o.ledger (λ q. apart (sym q)) (omega arith)
          (ground arith) in
      let value = ap (λ (t : TokenAccount). t.amount) loaded in omega arith

  Lent-IsOnTarget :
      (total target : ℕ) (o : Outcome RebalanceVault)
      → Lent solana ctx l total target o
      → IsOnTarget total target (o.ledger ctx.vault_buffer.key).amount
  unfolding deposit_to_jupiter_lend_internal
  Lent-IsOnTarget total target o (a, sum, _, done, _) =
      let taken =
        lending.deposit_takes ctx.yield_vault.key ctx.vault_buffer.key
          ctx.jupiter_ftoken_account.key ctx.token_program (jupiter_accounts ctx) a
          (vault_signer ctx.yield_vault.state) l o.ledger apart (omega arith) (ground arith) in
      let value = ap (λ (t : TokenAccount). t.amount) loaded in omega arith

  -- A rebalancing that succeeds, where the vault's total value and the target buffer are as computed,
  -- leaves the buffer at the target, or over it by at most 1% of the total value: if the lending
  -- program takes and pays the amounts it is told, the buffer is not the account of fTokens, holds a
  -- 64-bit amount, and the ledger agrees with it.
  pub rebalance-IsOnTarget :
      (total target : ℕ) {o : Outcome RebalanceVault}
      → (get_vault_total_value ctx.lending ctx.yield_vault.state
            (some ctx.vault_buffer)
            (some ctx.jupiter_ftoken_account)
          ≡ ok total)
      → calculate_buffer_amount total ctx.yield_vault.state.target_buffer_bps ≡ ok target
      → rebalance_vault solana ctx l ≡ ok o
      → IsOnTarget total target (o.ledger ctx.vault_buffer.key).amount
  rebalance-IsOnTarget total target {o} value aim h =
      elim (rebalance_steps solana ctx l total target value aim h).1 [
        | inl up ↦
            let fits' = target_fits total ctx.yield_vault.state.target_buffer_bps target aim in
            ToppedUp-IsOnTarget total target o fits' up
        | inr (inl down) ↦ Lent-IsOnTarget total target o down
        | inr (inr (low, high, same, _)) ↦ rw (same, loaded) (low, high)
      ]
