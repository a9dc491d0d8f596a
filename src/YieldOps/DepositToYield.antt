-- ===== src/YieldOps/DepositToYield.antt =====
-- instructions/yield_ops/deposit_to_yield.rs of the program: adding to a position.
use eventop.Base.{ℕ, [], ◌∷◌, none, some, ltb, leb}
use eventop.Errors.{
  math_overflow, yield_not_enabled, invalid_deposit_amount, insufficient_wallet_balance,
}
use eventop.Runtime.Result.{Result, ok, ◌>>=◌, ◌>>◌, require, ok_or}
use eventop.Runtime.Word.{u64_mod, checked_add}
use eventop.Runtime.Token.{Ledger}
use eventop.Runtime.Anchor.{Solana}
use eventop.State.SubscriptionWallet.{wallet_transfer}
use eventop.Events.{yield_deposit}
use eventop.Outcome.{Outcome, with_state}
use eventop.Utils.Calculations.{calculate_shares_for_deposit}
use eventop.Utils.VaultOperations.{get_vault_total_value}
use eventop.YieldOps.Accounts.{YieldAccounts, try_accounts}

abbrev pub DepositToYield : Type 0
DepositToYield = YieldAccounts

module _ (solana : Solana) where
  unfoldable pub handler : DepositToYield → ℕ → Ledger → Result (Outcome DepositToYield)
  handler ctx amount ledger =
      let wallet = ctx.subscription_wallet.state in
      let vault = ctx.yield_vault.state in
      do
        require wallet.is_yield_enabled yield_not_enabled
        require (ltb 0 amount) invalid_deposit_amount
        require (leb amount ctx.wallet_token_account.state.amount) insufficient_wallet_balance
        total_value ← get_vault_total_value ctx.jupiter_lending vault (some ctx.vault_buffer) none
        shares_to_issue ← calculate_shares_for_deposit amount vault.total_shares_issued total_value
        ledger' ←
            solana.transfer
              (wallet_transfer ctx.subscription_wallet ctx.wallet_token_account.key
                ctx.vault_buffer.key)
              amount ledger
        yield_shares ← ok_or (checked_add u64_mod wallet.yield_shares shares_to_issue) math_overflow
        total_shares ←
            ok_or (checked_add u64_mod vault.total_shares_issued shares_to_issue) math_overflow
        total_deposited ←
            ok_or (checked_add u64_mod vault.total_usdc_deposited amount) math_overflow
        ok (record {
          accounts = record ctx {
            subscription_wallet =
                with_state ctx.subscription_wallet (record wallet { yield_shares = yield_shares });
            yield_vault = with_state ctx.yield_vault (record vault {
              total_shares_issued = total_shares;
              total_usdc_deposited = total_deposited;
            });
          };
          ledger = ledger';
          events =
              yield_deposit (record {
                wallet_pda = ctx.subscription_wallet.key;
                shares_issued = shares_to_issue;
                usdc_amount = amount;
              })
              ∷ [];
        })

  -- The entry point in lib.rs.
  unfoldable pub deposit_to_yield : DepositToYield → ℕ → Ledger → Result (Outcome DepositToYield)
  deposit_to_yield ctx amount ledger = try_accounts solana ctx >> handler ctx amount ledger
