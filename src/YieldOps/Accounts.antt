-- ===== src/YieldOps/Accounts.antt =====
-- The accounts of the four instructions of instructions/yield_ops: the four structs have the same
-- fields and the same attributes.
use eventop.Base.{◌==◌}
use eventop.Errors.{unauthorized_wallet_access}
use eventop.Runtime.Result.{Result, ◌>>◌, require, check, constraint_raw}
use eventop.Runtime.Token.{TokenAccount}
use eventop.Runtime.Anchor.{
  Account, AccountInfo, Signer, Solana, check_signer, check_token_mint, check_token_authority,
}
use eventop.State.SubscriptionWallet.{SubscriptionWallet, check_wallet_seeds}
use eventop.State.YieldVault.{YieldVault, check_vault_seeds}

-- `EnableYield`, `DepositToYield`, `WithdrawFromYield` and `DisableYield`
pub record YieldAccounts : Type 0 where
  pub subscription_wallet : Account SubscriptionWallet
  pub yield_vault : Account YieldVault
  pub owner : Signer
  pub wallet_token_account : Account TokenAccount
  pub vault_buffer : Account TokenAccount
  pub jupiter_lending : AccountInfo

-- The `#[account(...)]` attributes.
unfoldable pub try_accounts : Solana → YieldAccounts → Result (Unit {0})
try_accounts solana ctx = do
  check_signer ctx.owner
  check_wallet_seeds solana ctx.subscription_wallet
  require (ctx.subscription_wallet.state.owner == ctx.owner.key) unauthorized_wallet_access
  check_vault_seeds solana ctx.subscription_wallet.state.mint ctx.yield_vault
  check_token_authority ctx.wallet_token_account ctx.subscription_wallet.key
  check_token_mint ctx.wallet_token_account ctx.subscription_wallet.state.mint
  check (ctx.vault_buffer.key == ctx.yield_vault.state.usdc_buffer) constraint_raw
  check_token_mint ctx.vault_buffer ctx.subscription_wallet.state.mint
