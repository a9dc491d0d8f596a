-- ===== src/Tests/Vaults.antt =====
-- A rebalancing and the emergency mode, with funds lent: 10,000 fTokens at the rate 1.2.
use eventop.Base.{ℕ, zero, suc, ◌≡◌, ◌+◌, ◌*◌, ◌/◌, refl, arith, true, [], ◌∷◌, ◌++◌, Text}
use eventop.Errors.{emergency_mode_enabled}
use eventop.Runtime.Result.{ok, err, code}
use eventop.Runtime.Word.{as_u64}
use eventop.Runtime.Token.{TokenAccount}
use eventop.Runtime.Anchor.{Account, AccountInfo}
use eventop.Outcome.{Outcome}
use eventop.Events.{deposit_to_jupiter_lend}
use eventop.Utils.VaultOperations.{to_le_bytes, ftoken_value}
use eventop.VaultManagement.RebalanceVault.{RebalanceVault, rebalanced, rebalance_vault}
use eventop.VaultManagement.SetEmergencyMode.{SetEmergencyMode, set_emergency_mode}
use eventop.VaultManagement.Emergency.{set_emergency_rate}
use eventop.Tests.Accounts.{
  value_or, done, ledger, tokens, account, signer, info, vault, buffer_tokens,
}
use eventop.Tests.Chain.{chain}

abbrev pub zeroes : ℕ → Text
zeroes zero = []
zeroes (suc n) = 0 ∷ zeroes n

-- The bytes of 1,200,000,000 behind 115 others.
abbrev pub lending_account : AccountInfo
lending_account = record { key = 60; contents = zeroes 115 ++ (0 ∷ 140 ∷ 134 ∷ 71 ∷ zeroes 4) }

abbrev pub lent_tokens : Account TokenAccount
lent_tokens = account 6 (tokens 200 111 10_000)

abbrev pub rebalance : RebalanceVault
rebalance = record {
  yield_vault = vault;
  authority = signer 9;
  vault_buffer = buffer_tokens;
  jupiter_ftoken_account = lent_tokens;
  mint = info 100;
  f_token_mint = info 200;
  lending_admin = info 61;
  lending = lending_account;
  supply_token_reserves_liquidity = info 62;
  lending_supply_position_on_liquidity = info 63;
  rate_model = info 64;
  jupiter_vault = info 65;
  claim_account = info 66;
  liquidity = info 67;
  liquidity_program = info 68;
  rewards_rate_model = info 69;
  lending_program = info 70;
  token_program = 71;
  associated_token_program = info 72;
  system_program = info 73;
}

abbrev after : Outcome RebalanceVault
after = value_or (done rebalance ledger) (rebalance_vault chain rebalance ledger)

-- 15% of 16,000 stay.
after_events : after.events ≡ rebalanced deposit_to_jupiter_lend 1_600
unfolding rebalance_vault eventop.VaultManagement.RebalanceVault.try_accounts
    eventop.VaultManagement.RebalanceVault.handler
    eventop.Utils.VaultOperations.get_vault_total_value ftoken_value
    eventop.Utils.Calculations.calculate_buffer_amount
    eventop.Utils.JupiterLend.deposit_to_jupiter_lend_internal
after_events = refl

abbrev switch : SetEmergencyMode
switch = record {
  yield_vault = vault;
  authority = signer 9;
  vault_buffer = buffer_tokens;
  jupiter_ftoken_account = lent_tokens;
  f_token_mint = info 200;
  jupiter_lending = lending_account;
}

abbrev switched : Outcome SetEmergencyMode
switched = value_or (done switch ledger) (set_emergency_mode chain switch true ledger)

switched_done : set_emergency_mode chain switch true ledger ≡ ok switched
unfolding set_emergency_mode eventop.VaultManagement.SetEmergencyMode.try_accounts
    eventop.VaultManagement.SetEmergencyMode.handler
    eventop.Utils.VaultOperations.get_vault_total_value ftoken_value
    eventop.Utils.Calculations.calculate_current_exchange_rate
switched_done = refl

-- 16,000 units for 3,000 shares.
set_emergency_rate_example :
    switched.accounts.yield_vault.state.emergency_exchange_rate
    ≡ as_u64 ((4_000 + as_u64 (10_000 * 1_200_000_000 / 1_000_000_000)) * 1_000_000 / 3_000)
unfolding to_le_bytes
set_emergency_rate_example =
    set_emergency_rate chain switch ledger (zeroes 115) [] 1_200_000_000 {o = switched}
      (omega arith) refl refl (omega arith) (omega arith) switched_done

frozen_rate_example : switched.accounts.yield_vault.state.emergency_exchange_rate ≡ 5_333_333
unfolding set_emergency_mode eventop.VaultManagement.SetEmergencyMode.try_accounts
    eventop.VaultManagement.SetEmergencyMode.handler
    eventop.Utils.VaultOperations.get_vault_total_value ftoken_value
    eventop.Utils.Calculations.calculate_current_exchange_rate
frozen_rate_example = refl

rebalance_refused :
    rebalance_vault chain (record rebalance { yield_vault = switched.accounts.yield_vault }) ledger
    ≡ err (code emergency_mode_enabled)
unfolding rebalance_vault eventop.VaultManagement.RebalanceVault.try_accounts set_emergency_mode
    eventop.VaultManagement.SetEmergencyMode.try_accounts
    eventop.VaultManagement.SetEmergencyMode.handler
    eventop.Utils.VaultOperations.get_vault_total_value ftoken_value
    eventop.Utils.Calculations.calculate_current_exchange_rate
    eventop.VaultManagement.RebalanceVault.handler
rebalance_refused = refl
