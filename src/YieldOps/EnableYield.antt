-- ===== src/YieldOps/EnableYield.antt =====
-- instructions/yield_ops/enable_yield.rs of the program: the first deposit of a wallet, of which the
-- vault's buffer share stays in the wallet.
use eventop.Base.{ℕ, true, not, [], ◌∷◌, none, some, ltb, leb, ◌==◌, if◌then◌else◌}
use eventop.Errors.{
  math_overflow, yield_already_enabled, invalid_deposit_amount, insufficient_wallet_balance,
  yield_amount_too_small,
}
use eventop.Runtime.Result.{Result, ok, ◌>>=◌, ◌>>◌, require, ok_or}
use eventop.Runtime.Word.{u64_mod, checked_add, checked_sub}
use eventop.Runtime.Token.{Ledger}
use eventop.Runtime.Anchor.{Solana}
use eventop.State.SubscriptionWallet.{wallet_transfer}
use eventop.Events.{yield_enabled}
use eventop.Outcome.{Outcome, with_state}
use eventop.Utils.Calculations.{calculate_buffer_amount, calculate_shares_for_deposit}
use eventop.Utils.VaultOperations.{get_vault_total_value}
use eventop.YieldOps.Accounts.{YieldAccounts, try_accounts}

abbrev pub EnableYield : Type 0
EnableYield = YieldAccounts

-- The shares of a first deposit of the wallet: one to one if the vault has issued none.
unfoldable pub shares_for_enable : EnableYield → ℕ → Result ℕ
shares_for_enable ctx yield_amount =
    let vault = ctx.yield_vault.state in
    if vault.total_shares_issued == 0
    then ok yield_amount
    else get_vault_total_value ctx.jupiter_lending vault (some ctx.vault_buffer) none
      >>= calculate_shares_for_deposit yield_amount vault.total_shares_issued

module _ (solana : Solana) where
  unfoldable pub handler : EnableYield → ℕ → Ledger → Result (Outcome EnableYield)
  unfolding shares_for_enable
  handler ctx amount ledger =
      let wallet = ctx.subscription_wallet.state in
      let vault = ctx.yield_vault.state in
      do
        require (not wallet.is_yield_enabled) yield_already_enabled
        require (ltb 0 amount) invalid_deposit_amount
        require (leb amount ctx.wallet_token_account.state.amount) insufficient_wallet_balance
        buffer_amount ← calculate_buffer_amount amount vault.target_buffer_bps
        yield_amount ← ok_or (checked_sub amount buffer_amount) math_overflow
        require (ltb 0 yield_amount) yield_amount_too_small
        shares_to_issue ← shares_for_enable ctx yield_amount
        ledger' ←
            solana.transfer
              (wallet_transfer ctx.subscription_wallet ctx.wallet_token_account.key
                ctx.vault_buffer.key)
              yield_amount ledger
        total_shares ←
            ok_or (checked_add u64_mod vault.total_shares_issued shares_to_issue) math_overflow
        total_deposited ←
            ok_or (checked_add u64_mod vault.total_usdc_deposited yield_amount) math_overflow
        ok (record {
          accounts = record ctx {
            subscription_wallet =
                with_state ctx.subscription_wallet
                  (record wallet { yield_shares = shares_to_issue; is_yield_enabled = true });
            yield_vault = with_state ctx.yield_vault (record vault {
              total_shares_issued = total_shares;
              total_usdc_deposited = total_deposited;
            });
          };
          ledger = ledger';
          events =
              yield_enabled (record {
                wallet_pda = ctx.subscription_wallet.key;
                shares_issued = shares_to_issue;
                usdc_amount = yield_amount;
                buffer_amount = buffer_amount;
              })
              ∷ [];
        })

  -- The entry point in lib.rs.
  unfoldable pub enable_yield : EnableYield → ℕ → Ledger → Result (Outcome EnableYield)
  enable_yield ctx amount ledger = try_accounts solana ctx >> handler ctx amount ledger
