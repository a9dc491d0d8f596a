-- ===== src/VaultManagement/Rebalancing.antt =====
-- instructions/vault_management/rebalance_vault.rs: what a rebalancing asks the lending program for.
use eventop.Base.{
  ltb→lt, ltb, Bool-cases, ℕ, ◌+◌, ◌-◌, ◌/◌, ◌≤◌, ◌<◌, ◌≡◌, ◌⊎◌, inl, inr, arith, false, some, [],
}
use eventop.Runtime.Result.{ok, >>-eq-ok}
use eventop.Runtime.Token.{Ledger}
use eventop.Runtime.Anchor.{Solana}
use eventop.Events.{withdraw_from_jupiter_lend, deposit_to_jupiter_lend}
use eventop.Outcome.{Outcome}
use eventop.Utils.Calculations.{calculate_buffer_amount}
use eventop.Utils.VaultOperations.{get_vault_total_value}
use eventop.Utils.JupiterLend.{
  deposit_to_jupiter_lend_internal, withdraw_from_jupiter_lend_internal,
}
use eventop.VaultManagement.RebalanceVault.{
  rebalance_to, RebalanceVault, jupiter_accounts, rebalanced, handler, rebalance_vault,
  try_accounts, lend, top_up, lend_excess,
}

module _ (solana : Solana) (ctx : RebalanceVault) (l : Ledger) (total target : ℕ) where
  -- The call that brings the buffer up to the target.
  abbrev pub ToppedUp : Outcome RebalanceVault → Type 0
  ToppedUp o =
      (a : ℕ) × (ctx.vault_buffer.state.amount + a ≡ target)
      × (0 < a)
      × (withdraw_from_jupiter_lend_internal solana ctx.yield_vault ctx.jupiter_ftoken_account.key
            ctx.vault_buffer.key ctx.token_program (jupiter_accounts ctx) a l
          ≡ ok o.ledger)
      × (o.events ≡ rebalanced withdraw_from_jupiter_lend a)

  -- The call that brings the buffer down to the target.
  abbrev pub Lent : Outcome RebalanceVault → Type 0
  Lent o =
      (a : ℕ) × (ctx.vault_buffer.state.amount ≡ target + a)
      × (total / 100 < a)
      × (deposit_to_jupiter_lend_internal solana ctx.yield_vault ctx.vault_buffer.key
            ctx.jupiter_ftoken_account.key ctx.token_program (jupiter_accounts ctx) a l
          ≡ ok o.ledger)
      × (o.events ≡ rebalanced deposit_to_jupiter_lend a)

  -- The buffer is within 1% of the total value over its target, and nothing is done.
  abbrev pub LeftAlone : Outcome RebalanceVault → Type 0
  LeftAlone o =
      (target ≤ ctx.vault_buffer.state.amount)
      × (ctx.vault_buffer.state.amount ≤ target + total / 100)
      × (o.ledger ≡ l)
      × (o.events ≡ [])

  topped_up :
      {o : Outcome RebalanceVault}
      → ctx.vault_buffer.state.amount < target
      → top_up solana ctx target l ≡ ok o
      → ToppedUp o
  unfolding top_up
  topped_up short h =
      (target - ctx.vault_buffer.state.amount, omega arith, omega arith, ground arith, ground arith)

  lent :
      {o : Outcome RebalanceVault}
      → target < ctx.vault_buffer.state.amount
      → lend_excess solana ctx target total l ≡ ok o
      → Lent o ⊎ LeftAlone o
  unfolding lend_excess lend
  lent {o} over h = elim (Bool-cases (ltb (total / 100) (ctx.vault_buffer.state.amount - target))) [
    | inl big ↦ inl (
      ctx.vault_buffer.state.amount - target,
      omega arith,
      ground arith,
      ground arith,
      ground arith,
    )
    | inr small ↦ inr (ground arith)
  ]

  one_step :
      {o : Outcome RebalanceVault}
      → rebalance_to solana ctx target total l ≡ ok o
      → ToppedUp o ⊎ Lent o ⊎ LeftAlone o
  unfolding rebalance_to
  one_step h = elim (Bool-cases (ltb ctx.vault_buffer.state.amount target)) [
    | inl short ↦ inl (topped_up (ltb→lt _ _ short) (rw short at h))
    | inr enough ↦ elim (Bool-cases (ltb target ctx.vault_buffer.state.amount)) [
      | inl over ↦ inr (lent (ltb→lt _ _ over) (rw (enough, over) at h))
      | inr level ↦ inr (inr (ground arith))
    ]
  ]

  reached :
      {o : Outcome RebalanceVault}
      → (get_vault_total_value ctx.lending ctx.yield_vault.state
            (some ctx.vault_buffer)
            (some ctx.jupiter_ftoken_account)
          ≡ ok total)
      → calculate_buffer_amount total ctx.yield_vault.state.target_buffer_bps ≡ ok target
      → handler solana ctx l ≡ ok o
      → (ctx.yield_vault.state.emergency_mode ≡ false)
        × (rebalance_to solana ctx target total l ≡ ok o)
  unfolding handler
  reached value aim h = ground arith

  -- A rebalancing that succeeds, where the vault's total value and the target buffer are as computed,
  -- is outside emergency mode and tops the buffer up to the target, lends what exceeds it by more
  -- than 1% of the total, or leaves a buffer within that margin alone.
  pub rebalance_steps :
      {o : Outcome RebalanceVault}
      → (get_vault_total_value ctx.lending ctx.yield_vault.state
            (some ctx.vault_buffer)
            (some ctx.jupiter_ftoken_account)
          ≡ ok total)
      → calculate_buffer_amount total ctx.yield_vault.state.target_buffer_bps ≡ ok target
      → rebalance_vault solana ctx l ≡ ok o
      → (ctx.yield_vault.state.emergency_mode ≡ false) × (ToppedUp o ⊎ Lent o ⊎ LeftAlone o)
  unfolding rebalance_vault
  rebalance_steps value aim h =
      let (calm, step) = reached value aim (>>-eq-ok (try_accounts solana ctx) _ h) in
      (calm, one_step step)
