-- ===== src/YieldOps/WithdrawFromYield.antt =====
-- instructions/yield_ops/withdraw_from_yield.rs of the program: redeeming some of the shares.
use eventop.Base.{ℕ, [], ◌∷◌, none, some, ltb, leb}
use eventop.Errors.{math_overflow, yield_not_enabled, invalid_share_amount, insufficient_shares}
use eventop.Runtime.Result.{Result, ok, ◌>>=◌, ◌>>◌, require, ok_or}
use eventop.Runtime.Word.{checked_sub}
use eventop.Runtime.Token.{Ledger}
use eventop.Runtime.Anchor.{Solana}
use eventop.Events.{yield_withdrawal}
use eventop.Outcome.{Outcome, with_state}
use eventop.Utils.Calculations.{calculate_usdc_value_of_shares}
use eventop.Utils.VaultOperations.{get_vault_total_value, withdraw_from_vault_internal}
use eventop.YieldOps.Accounts.{YieldAccounts, try_accounts}

abbrev pub WithdrawFromYield : Type 0
WithdrawFromYield = YieldAccounts

module _ (solana : Solana) where
  unfoldable pub handler : WithdrawFromYield → ℕ → Ledger → Result (Outcome WithdrawFromYield)
  unfolding withdraw_from_vault_internal
  handler ctx shares_to_redeem ledger =
      let wallet = ctx.subscription_wallet.state in
      let vault = ctx.yield_vault.state in
      do
        require wallet.is_yield_enabled yield_not_enabled
        require (ltb 0 shares_to_redeem) invalid_share_amount
        require (leb shares_to_redeem wallet.yield_shares) insufficient_shares
        total_value ← get_vault_total_value ctx.jupiter_lending vault (some ctx.vault_buffer) none
        usdc_value ←
            calculate_usdc_value_of_shares shares_to_redeem vault.total_shares_issued total_value
        ledger' ←
            withdraw_from_vault_internal solana ctx.yield_vault.key vault ctx.vault_buffer.key
              ctx.wallet_token_account.key usdc_value ledger
        yield_shares ← ok_or (checked_sub wallet.yield_shares shares_to_redeem) math_overflow
        total_shares ← ok_or (checked_sub vault.total_shares_issued shares_to_redeem) math_overflow
        total_deposited ← ok_or (checked_sub vault.total_usdc_deposited usdc_value) math_overflow
        ok (record {
          accounts = record ctx {
            subscription_wallet =
                with_state ctx.subscription_wallet (record wallet { yield_shares = yield_shares });
            yield_vault = with_state ctx.yield_vault (record vault {
              total_shares_issued = total_shares;
              total_usdc_deposited = total_deposited;
            });
          };
          ledger = ledger';
          events =
              yield_withdrawal (record {
                wallet_pda = ctx.subscription_wallet.key;
                shares_redeemed = shares_to_redeem;
                usdc_received = usdc_value;
              })
              ∷ [];
        })

  -- The entry point in lib.rs.
  unfoldable pub withdraw_from_yield :
      WithdrawFromYield → ℕ → Ledger → Result (Outcome WithdrawFromYield)
  withdraw_from_yield ctx shares_to_redeem ledger =
      try_accounts solana ctx >> handler ctx shares_to_redeem ledger
