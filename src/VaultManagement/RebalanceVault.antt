-- ===== src/VaultManagement/RebalanceVault.antt =====
-- instructions/vault_management/rebalance_vault.rs of the program: moving funds between a vault's
-- buffer and the lending program.
use eventop.Base.{ℕ, not, some, List, [], ◌∷◌, ◌==◌, ltb, if◌then◌else◌}
use eventop.Errors.{unauthorized_protocol_update, emergency_mode_enabled, math_overflow}
use eventop.Runtime.Result.{Result, ok, ◌>>=◌, ◌>>◌, require, check, constraint_raw, ok_or}
use eventop.Runtime.Word.{checked_sub, checked_div}
use eventop.Runtime.Token.{TokenAccount, Ledger}
use eventop.Runtime.Anchor.{
  Pubkey, Account, AccountInfo, Signer, Solana, check_signer, check_token_mint,
}
use eventop.State.YieldVault.{YieldVault, check_vault_seeds}
use eventop.Events.{
  Event, Action, vault_rebalanced, withdraw_from_jupiter_lend, deposit_to_jupiter_lend,
}
use eventop.Outcome.{Outcome}
use eventop.Utils.Calculations.{calculate_buffer_amount}
use eventop.Utils.VaultOperations.{get_vault_total_value}
use eventop.Utils.JupiterLend.{
  JupiterLendAccounts, deposit_to_jupiter_lend_internal, withdraw_from_jupiter_lend_internal,
}

pub record RebalanceVault : Type 0 where
  pub yield_vault : Account YieldVault
  pub authority : Signer
  pub vault_buffer : Account TokenAccount
  pub jupiter_ftoken_account : Account TokenAccount
  pub mint : AccountInfo
  pub f_token_mint : AccountInfo
  pub lending_admin : AccountInfo
  pub lending : AccountInfo
  pub supply_token_reserves_liquidity : AccountInfo
  pub lending_supply_position_on_liquidity : AccountInfo
  pub rate_model : AccountInfo
  pub jupiter_vault : AccountInfo
  pub claim_account : AccountInfo
  pub liquidity : AccountInfo
  pub liquidity_program : AccountInfo
  pub rewards_rate_model : AccountInfo
  pub lending_program : AccountInfo
  pub token_program : Pubkey
  pub associated_token_program : AccountInfo
  pub system_program : AccountInfo

unfoldable pub try_accounts : Solana → RebalanceVault → Result (Unit {0})
try_accounts solana ctx =
    let vault = ctx.yield_vault.state in
    do
      check_signer ctx.authority
      check_vault_seeds solana vault.mint ctx.yield_vault
      require (vault.authority == ctx.authority.key) unauthorized_protocol_update
      check (ctx.vault_buffer.key == vault.usdc_buffer) constraint_raw
      check_token_mint ctx.vault_buffer vault.mint
      check (ctx.jupiter_ftoken_account.key == vault.jupiter_ftoken_account) constraint_raw
      check_token_mint ctx.jupiter_ftoken_account ctx.f_token_mint.key

abbrev pub jupiter_accounts : RebalanceVault → JupiterLendAccounts
jupiter_accounts ctx = record {
  mint = ctx.mint;
  f_token_mint = ctx.f_token_mint;
  lending_admin = ctx.lending_admin;
  lending = ctx.lending;
  supply_token_reserves_liquidity = ctx.supply_token_reserves_liquidity;
  lending_supply_position_on_liquidity = ctx.lending_supply_position_on_liquidity;
  rate_model = ctx.rate_model;
  jupiter_vault = ctx.jupiter_vault;
  liquidity = ctx.liquidity;
  liquidity_program = ctx.liquidity_program;
  rewards_rate_model = ctx.rewards_rate_model;
  claim_account = ctx.claim_account;
  lending_program = ctx.lending_program;
  associated_token_program = ctx.associated_token_program;
  system_program = ctx.system_program;
}

abbrev pub finish : RebalanceVault → Ledger → List Event → Result (Outcome RebalanceVault)
finish ctx ledger events = ok (record { accounts = ctx; ledger = ledger; events = events })

abbrev pub rebalanced : Action → ℕ → List Event
rebalanced action amount = vault_rebalanced (record { action = action; amount = amount }) ∷ []

module _ (solana : Solana) where
  -- The buffer is short: it is topped up to the target.
  unfoldable pub top_up : RebalanceVault → ℕ → Ledger → Result (Outcome RebalanceVault)
  top_up ctx target_buffer ledger = do
    shortfall ← ok_or (checked_sub target_buffer ctx.vault_buffer.state.amount) math_overflow
    ledger' ←
        withdraw_from_jupiter_lend_internal solana ctx.yield_vault ctx.jupiter_ftoken_account.key
          ctx.vault_buffer.key ctx.token_program (jupiter_accounts ctx) shortfall ledger
    finish ctx ledger' (rebalanced withdraw_from_jupiter_lend shortfall)

  -- The excess is lent.
  unfoldable pub lend : RebalanceVault → ℕ → Ledger → Result (Outcome RebalanceVault)
  lend ctx excess ledger = do
    ledger' ←
        deposit_to_jupiter_lend_internal solana ctx.yield_vault ctx.vault_buffer.key
          ctx.jupiter_ftoken_account.key ctx.token_program (jupiter_accounts ctx) excess ledger
    finish ctx ledger' (rebalanced deposit_to_jupiter_lend excess)

  -- The buffer is over the target: an excess of more than 1% of the total value is lent.
  unfoldable pub lend_excess :
      RebalanceVault → (target total : ℕ) → Ledger → Result (Outcome RebalanceVault)
  unfolding lend
  lend_excess ctx target_buffer total_value ledger = do
    excess ← ok_or (checked_sub ctx.vault_buffer.state.amount target_buffer) math_overflow
    min_rebalance ← ok_or (checked_div total_value 100) math_overflow
    if ltb min_rebalance excess then lend ctx excess ledger else finish ctx ledger []

  -- The three cases of the buffer against its target.
  unfoldable pub rebalance_to :
      RebalanceVault → (target total : ℕ) → Ledger → Result (Outcome RebalanceVault)
  unfolding top_up lend_excess
  rebalance_to ctx target_buffer total_value ledger =
      let buffer_balance = ctx.vault_buffer.state.amount in
      let over = lend_excess ctx target_buffer total_value ledger in
      if ltb buffer_balance target_buffer
      then top_up ctx target_buffer ledger
      else (if ltb target_buffer buffer_balance then over else finish ctx ledger [])

  unfoldable pub handler : RebalanceVault → Ledger → Result (Outcome RebalanceVault)
  unfolding rebalance_to
  handler ctx ledger =
      let vault = ctx.yield_vault.state in
      do
        require (not vault.emergency_mode) emergency_mode_enabled
        total_value ←
            get_vault_total_value ctx.lending vault (some ctx.vault_buffer)
              (some ctx.jupiter_ftoken_account)
        target_buffer ← calculate_buffer_amount total_value vault.target_buffer_bps
        rebalance_to ctx target_buffer total_value ledger

  -- The entry point in lib.rs.
  unfoldable pub rebalance_vault : RebalanceVault → Ledger → Result (Outcome RebalanceVault)
  rebalance_vault ctx ledger = try_accounts solana ctx >> handler ctx ledger
