-- ===== src/VaultManagement/Emergency.antt =====
-- instructions/vault_management/set_emergency_mode.rs: what switching the mode changes.
use eventop.Base.{
  ℕ, ◌+◌, ◌*◌, ◌/◌, ◌<◌, ◌≡◌, ◌∙◌, ap, arith, Bool, true, not, some, ◌++◌, Text, length,
}
use eventop.Runtime.Result.{ok, >>-eq-ok, >>=-eq-ok}
use eventop.Runtime.Token.{Ledger}
use eventop.Runtime.Anchor.{Solana}
use eventop.State.YieldVault.{is_operational}
use eventop.Outcome.{Outcome}
use eventop.Utils.Calculations.{calculate_current_exchange_rate}
use eventop.Utils.Calculations.Rounding.{rate-eq}
use eventop.Utils.VaultOperations.{
  ftoken_value, get_vault_total_value, to_le_bytes, exchange_rate_offset,
}
use eventop.Utils.Encoding.{ftoken_value-reads}
use eventop.Utils.Valuation.{total-eq}
use eventop.Runtime.Word.{u64_mod, as_u64}
use eventop.VaultManagement.SetEmergencyMode.{
  SetEmergencyMode, try_accounts, frozen_rate, handler, set_emergency_mode,
}

pub record IsSwitched (ctx : SetEmergencyMode) (enabled : Bool) (o : Outcome SetEmergencyMode)
    : Type 0 where
  pub signed : ctx.authority.is_signer ≡ true
  pub by_authority : ctx.yield_vault.state.authority ≡ ctx.authority.key
  pub flag : o.accounts.yield_vault.state.emergency_mode ≡ enabled
  pub operational : is_operational o.accounts.yield_vault.state ≡ not enabled
  pub rest : o.accounts.yield_vault.state ≡ record (ctx.yield_vault.state) {
    emergency_mode = enabled;
    emergency_exchange_rate = o.accounts.yield_vault.state.emergency_exchange_rate;
  }

module _ (solana : Solana) (ctx : SetEmergencyMode) (l : Ledger) where
  -- Switching the mode is signed by the vault's authority, sets the flag as asked, and changes only
  -- the flag and the rate.
  pub set_emergency-IsSwitched :
      (enabled : Bool) {o : Outcome SetEmergencyMode}
      → set_emergency_mode solana ctx enabled l ≡ ok o
      → IsSwitched ctx enabled o
  unfolding set_emergency_mode handler try_accounts is_operational
  set_emergency-IsSwitched enabled h = ground arith

  frozen :
      {o : Outcome SetEmergencyMode}
      → handler ctx true l ≡ ok o
      → (total : ℕ) × (get_vault_total_value ctx.jupiter_lending ctx.yield_vault.state
            (some ctx.vault_buffer)
            (some ctx.jupiter_ftoken_account)
          ≡ ok total)
        × (calculate_current_exchange_rate ctx.yield_vault.state.total_shares_issued total
            ≡ ok o.accounts.yield_vault.state.emergency_exchange_rate)
  unfolding handler frozen_rate
  frozen {o} h =
      let (rate, computed, done) = >>=-eq-ok (frozen_rate ctx true) _ h in
      let (total, value, at_rate) =
        >>=-eq-ok
          (get_vault_total_value ctx.jupiter_lending ctx.yield_vault.state (some ctx.vault_buffer)
            (some ctx.jupiter_ftoken_account))
          _ computed in
      (total, value, ground arith)

  -- Switching the mode on, where it succeeds and shares are issued, freezes the value of the buffer
  -- and of the fTokens in millionths per share, rounded down: the fTokens at the price in billionths
  -- that the lending account holds at the offset of its exchange price, where that price and the
  -- number of fTokens are 64-bit numbers. Both quotients are narrowed to 64 bits.
  pub set_emergency_rate :
      (prefix rest : Text) (price : ℕ) {o : Outcome SetEmergencyMode}
      → 0 < ctx.yield_vault.state.total_shares_issued
      → ctx.jupiter_lending.contents ≡ prefix ++ (to_le_bytes 8 price ++ rest)
      → length prefix ≡ exchange_rate_offset
      → price < u64_mod
      → ctx.jupiter_ftoken_account.state.amount < u64_mod
      → set_emergency_mode solana ctx true l ≡ ok o
      → o.accounts.yield_vault.state.emergency_exchange_rate
        ≡ as_u64 (
            (ctx.vault_buffer.state.amount
              + as_u64 (ctx.jupiter_ftoken_account.state.amount * price / 1_000_000_000))
            * 1_000_000
            / ctx.yield_vault.state.total_shares_issued)
  unfolding set_emergency_mode
  set_emergency_rate prefix rest price {o} issued contents offset hp hf h =
      let (total, value, rate) = frozen (>>-eq-ok (try_accounts solana ctx) _ h) in
      let balance = ctx.jupiter_ftoken_account.state.amount in
      let lent = as_u64 (balance * price / 1_000_000_000) in
      let read : ftoken_value ctx.jupiter_lending balance ≡ ok lent =
        ap
          (λ (t : Text).
            ftoken_value (record { key = ctx.jupiter_lending.key; contents = t }) balance)
          contents
        ∙ ftoken_value-reads prefix rest ctx.jupiter_lending.key balance price offset hf hp in
      let known =
        total-eq ctx.jupiter_lending ctx.yield_vault.state ctx.vault_buffer
          ctx.jupiter_ftoken_account lent read value (λ q. rw q (omega arith)) in
      rw (← known) (rate-eq ctx.yield_vault.state.total_shares_issued total issued rate)
