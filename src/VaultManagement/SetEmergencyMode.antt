-- ===== src/VaultManagement/SetEmergencyMode.antt =====
-- instructions/vault_management/set_emergency_mode.rs of the program.
use eventop.Base.{ℕ, Bool, true, false, some, [], ◌∷◌, ◌==◌}
use eventop.Errors.{unauthorized_protocol_update}
use eventop.Runtime.Result.{Result, ok, ◌>>=◌, ◌>>◌, require, check, constraint_raw}
use eventop.Runtime.Token.{TokenAccount, Ledger}
use eventop.Runtime.Anchor.{Account, AccountInfo, Signer, Solana, check_signer, check_token_mint}
use eventop.State.YieldVault.{YieldVault, check_vault_seeds}
use eventop.Events.{emergency_mode_changed}
use eventop.Outcome.{Outcome, with_state}
use eventop.Utils.Calculations.{calculate_current_exchange_rate}
use eventop.Utils.VaultOperations.{get_vault_total_value}

pub record SetEmergencyMode : Type 0 where
  pub yield_vault : Account YieldVault
  pub authority : Signer
  pub vault_buffer : Account TokenAccount
  pub jupiter_ftoken_account : Account TokenAccount
  pub f_token_mint : AccountInfo
  pub jupiter_lending : AccountInfo

unfoldable pub try_accounts : Solana → SetEmergencyMode → Result (Unit {0})
try_accounts solana ctx =
    let vault = ctx.yield_vault.state in
    do
      check_signer ctx.authority
      check_vault_seeds solana vault.mint ctx.yield_vault
      require (vault.authority == ctx.authority.key) unauthorized_protocol_update
      check (ctx.vault_buffer.key == vault.usdc_buffer) constraint_raw
      check_token_mint ctx.vault_buffer vault.mint
      check (ctx.jupiter_ftoken_account.key == vault.jupiter_ftoken_account) constraint_raw
      check_token_mint ctx.jupiter_ftoken_account ctx.f_token_mint.key

-- The rate that the vault holds afterwards: the current one, if the mode is switched on.
unfoldable pub frozen_rate : SetEmergencyMode → Bool → Result ℕ
frozen_rate ctx true =
    let vault = ctx.yield_vault.state in
    get_vault_total_value ctx.jupiter_lending vault (some ctx.vault_buffer)
      (some ctx.jupiter_ftoken_account)
    >>= calculate_current_exchange_rate vault.total_shares_issued
frozen_rate ctx false = ok ctx.yield_vault.state.emergency_exchange_rate

unfoldable pub handler : SetEmergencyMode → Bool → Ledger → Result (Outcome SetEmergencyMode)
unfolding frozen_rate
handler ctx enabled ledger =
    let vault = ctx.yield_vault.state in
    do
      rate ← frozen_rate ctx enabled
      ok (record {
        accounts = record ctx {
          yield_vault =
              with_state ctx.yield_vault
                (record vault { emergency_mode = enabled; emergency_exchange_rate = rate });
        };
        ledger = ledger;
        events = emergency_mode_changed (record { enabled = enabled; frozen_rate = rate }) ∷ [];
      })

-- The entry point in lib.rs.
unfoldable pub set_emergency_mode :
    Solana → SetEmergencyMode → Bool → Ledger → Result (Outcome SetEmergencyMode)
set_emergency_mode solana ctx enabled ledger = try_accounts solana ctx >> handler ctx enabled ledger
