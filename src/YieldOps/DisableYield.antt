-- ===== src/YieldOps/DisableYield.antt =====
-- instructions/yield_ops/disable_yield.rs of the program: redeeming all shares and leaving.
use eventop.Base.{false, [], ◌∷◌, none, some, ltb}
use eventop.Errors.{math_overflow, yield_not_enabled, no_shares_to_redeem}
use eventop.Runtime.Result.{Result, ok, ◌>>=◌, ◌>>◌, require, ok_or}
use eventop.Runtime.Word.{checked_sub}
use eventop.Runtime.Token.{Ledger}
use eventop.Runtime.Anchor.{Solana}
use eventop.Events.{yield_disabled}
use eventop.Outcome.{Outcome, with_state}
use eventop.Utils.Calculations.{calculate_usdc_value_of_shares}
use eventop.Utils.VaultOperations.{get_vault_total_value, withdraw_from_vault_internal}
use eventop.YieldOps.Accounts.{YieldAccounts, try_accounts}

abbrev pub DisableYield : Type 0
DisableYield = YieldAccounts

module _ (solana : Solana) where
  unfoldable pub handler : DisableYield → Ledger → Result (Outcome DisableYield)
  unfolding withdraw_from_vault_internal
  handler ctx ledger =
      let wallet = ctx.subscription_wallet.state in
      let vault = ctx.yield_vault.state in
      do
        require wallet.is_yield_enabled yield_not_enabled
        require (ltb 0 wallet.yield_shares) no_shares_to_redeem
        total_value ← get_vault_total_value ctx.jupiter_lending vault (some ctx.vault_buffer) none
        usdc_value ←
            calculate_usdc_value_of_shares wallet.yield_shares vault.total_shares_issued total_value
        ledger' ←
            withdraw_from_vault_internal solana ctx.yield_vault.key vault ctx.vault_buffer.key
              ctx.wallet_token_account.key usdc_value ledger
        total_shares ←
            ok_or (checked_sub vault.total_shares_issued wallet.yield_shares) math_overflow
        total_deposited ← ok_or (checked_sub vault.total_usdc_deposited usdc_value) math_overflow
        ok (record {
          accounts = record ctx {
            subscription_wallet =
                with_state ctx.subscription_wallet
                  (record wallet { yield_shares = 0; is_yield_enabled = false });
            yield_vault = with_state ctx.yield_vault (record vault {
              total_shares_issued = total_shares;
              total_usdc_deposited = total_deposited;
            });
          };
          ledger = ledger';
          events =
              yield_disabled (record {
                wallet_pda = ctx.subscription_wallet.key;
                shares_redeemed = wallet.yield_shares;
                usdc_received = usdc_value;
              })
              ∷ [];
        })

  -- The entry point in lib.rs.
  unfoldable pub disable_yield : DisableYield → Ledger → Result (Outcome DisableYield)
  disable_yield ctx ledger = try_accounts solana ctx >> handler ctx ledger
