-- ===== src/YieldOps/Trades.antt =====
-- instructions/yield_ops: each instruction buys shares of the vault or sells them, at the value of
-- the vault's buffer.
use eventop.Base.{ℕ, ◌+◌, ◌-◌, ◌<◌, ◌≡◌, arith}
use eventop.Runtime.Result.{ok}
use eventop.Runtime.Token.{Ledger}
use eventop.Runtime.Anchor.{Solana}
use eventop.Outcome.{Outcome}
use eventop.State.SubscriptionWallet.{wallet_transfer}
use eventop.Utils.Calculations.{calculate_shares_for_deposit, calculate_usdc_value_of_shares}
use eventop.Utils.VaultOperations.{get_vault_total_value, withdraw_from_vault_internal}
use eventop.YieldOps.Accounts.{YieldAccounts}
use eventop.YieldOps.EnableYield
use eventop.YieldOps.DepositToYield
use eventop.YieldOps.WithdrawFromYield
use eventop.YieldOps.DisableYield

module _ (solana : Solana) (ctx : YieldAccounts) (l : Ledger) where
  -- `d` units are paid into the buffer for `s` new shares.
  pub record IsBought (d s : ℕ) (o : Outcome YieldAccounts) : Type 0 where
    pub paid :
        solana.transfer
          (wallet_transfer ctx.subscription_wallet ctx.wallet_token_account.key
            ctx.vault_buffer.key)
          d
          l
        ≡ ok o.ledger
    pub shares :
        o.accounts.yield_vault.state.total_shares_issued
        ≡ ctx.yield_vault.state.total_shares_issued + s
    pub deposited :
        o.accounts.yield_vault.state.total_usdc_deposited
        ≡ ctx.yield_vault.state.total_usdc_deposited + d
    pub priced :
        0 < ctx.yield_vault.state.total_shares_issued
        → calculate_shares_for_deposit d ctx.yield_vault.state.total_shares_issued
            ctx.vault_buffer.state.amount
          ≡ ok s

  -- `s` shares are retired for `v` units out of the buffer.
  pub record IsSold (s v : ℕ) (o : Outcome YieldAccounts) : Type 0 where
    pub paid :
        withdraw_from_vault_internal solana ctx.yield_vault.key ctx.yield_vault.state
          ctx.vault_buffer.key ctx.wallet_token_account.key v l
        ≡ ok o.ledger
    pub shares :
        o.accounts.yield_vault.state.total_shares_issued + s
        ≡ ctx.yield_vault.state.total_shares_issued
    pub deposited :
        o.accounts.yield_vault.state.total_usdc_deposited + v
        ≡ ctx.yield_vault.state.total_usdc_deposited
    pub priced :
        calculate_usdc_value_of_shares s ctx.yield_vault.state.total_shares_issued
          ctx.vault_buffer.state.amount
        ≡ ok v

module _ (solana : Solana) (ctx : YieldAccounts) (l : Ledger) {o : Outcome YieldAccounts} where
  pub deposit-IsBought :
      (amount : ℕ)
      → DepositToYield.handler solana ctx amount l ≡ ok o
      → IsBought solana ctx l amount
          (o.accounts.yield_vault.state.total_shares_issued
            - ctx.yield_vault.state.total_shares_issued)
          o
  unfolding DepositToYield.handler get_vault_total_value
  deposit-IsBought amount h = ground arith

  pub withdraw-IsSold :
      (n : ℕ)
      → WithdrawFromYield.handler solana ctx n l ≡ ok o
      → IsSold solana ctx l n
          (ctx.yield_vault.state.total_usdc_deposited
            - o.accounts.yield_vault.state.total_usdc_deposited)
          o
  unfolding WithdrawFromYield.handler get_vault_total_value
  withdraw-IsSold n h = ground arith

  pub disable-IsSold :
      DisableYield.handler solana ctx l ≡ ok o
      → IsSold solana ctx l ctx.subscription_wallet.state.yield_shares
          (ctx.yield_vault.state.total_usdc_deposited
            - o.accounts.yield_vault.state.total_usdc_deposited)
          o
  unfolding DisableYield.handler get_vault_total_value
  disable-IsSold h = ground arith

  pub enable-IsBought :
      (amount : ℕ)
      → EnableYield.handler solana ctx amount l ≡ ok o
      → IsBought solana ctx l
          (o.accounts.yield_vault.state.total_usdc_deposited
            - ctx.yield_vault.state.total_usdc_deposited)
          (o.accounts.yield_vault.state.total_shares_issued
            - ctx.yield_vault.state.total_shares_issued)
          o
  unfolding EnableYield.handler get_vault_total_value
  enable-IsBought amount h = ground arith
