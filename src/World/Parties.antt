-- ===== src/World/Parties.antt =====
-- Who signs for an instruction, and which token accounts it names, as they are loaded.
use eventop.Base.{◌≡◌, arith, Option, some, List}
use eventop.Base.Assoc.{find}
use eventop.Runtime.Result.{ok}
use eventop.Runtime.Anchor.{Pubkey}
use eventop.Wallet.Deposit.{DepositToWallet}
use eventop.Wallet.Withdraw.{WithdrawFromWallet}
use eventop.YieldOps.Accounts.{YieldAccounts}
use eventop.VaultManagement.RebalanceVault.{RebalanceVault}
use eventop.VaultManagement.SetEmergencyMode.{SetEmergencyMode}
use eventop.Subscription.Subscribe.{SubscribeWithWallet}
use eventop.Subscription.CancelSubscription.{CancelSubscriptionWallet}
use eventop.Subscription.ExecutePayment.{ExecutePaymentFromWallet}
use eventop.World.{World}
use eventop.World.Load.{load, load_optional, signer_at, tokens_at}
use eventop.World.Accounts.{
  load_signup, load_cancel, load_emergency, load_deposit, load_withdrawal, load_trade,
  load_rebalancing, load_payment,
}

module _ (signers : List Pubkey) (w : World) where
  pub load_deposit_parties :
      (wallet user user_tokens wallet_tokens : Pubkey) {ctx : DepositToWallet}
      → load_deposit signers w wallet user user_tokens wallet_tokens ≡ ok ctx
      → (ctx.user ≡ signer_at signers user) × (ctx.user_token_account ≡ tokens_at w user_tokens)
  unfolding load_deposit load
  load_deposit_parties wallet user user_tokens wallet_tokens h = ground arith

  pub load_withdrawal_parties :
      (wallet owner user_tokens wallet_tokens : Pubkey) {ctx : WithdrawFromWallet}
      → load_withdrawal signers w wallet owner user_tokens wallet_tokens ≡ ok ctx
      → (ctx.owner ≡ signer_at signers owner)
        × (ctx.wallet_token_account ≡ tokens_at w wallet_tokens)
        × (ctx.subscription_wallet.key ≡ wallet)
        × (find wallet w.registry.wallets ≡ some ctx.subscription_wallet.state)
  unfolding load_withdrawal load
  load_withdrawal_parties wallet owner user_tokens wallet_tokens h = ground arith

  pub load_trade_parties :
      (wallet vault owner wallet_tokens buffer lending : Pubkey) {ctx : YieldAccounts}
      → load_trade signers w wallet vault owner wallet_tokens buffer lending ≡ ok ctx
      → (ctx.owner ≡ signer_at signers owner)
        × (ctx.wallet_token_account.key ≡ wallet_tokens)
        × (ctx.vault_buffer.key ≡ buffer)
        × (find wallet w.registry.wallets ≡ some ctx.subscription_wallet.state)
  unfolding load_trade load
  load_trade_parties wallet vault owner wallet_tokens buffer lending h = ground arith

  pub load_rebalancing_parties :
      (vault authority buffer f_tokens mint f_token_mint lending_admin lending
        supply_token_reserves_liquidity lending_supply_position_on_liquidity rate_model
        jupiter_vault claim_account liquidity liquidity_program rewards_rate_model lending_program
        token_program associated_token_program system_program : Pubkey)
      {ctx : RebalanceVault}
      → load_rebalancing signers w vault authority buffer f_tokens mint f_token_mint lending_admin
          lending supply_token_reserves_liquidity lending_supply_position_on_liquidity rate_model
          jupiter_vault claim_account liquidity liquidity_program rewards_rate_model lending_program
          token_program associated_token_program system_program
        ≡ ok ctx
      → (ctx.authority ≡ signer_at signers authority)
        × (find vault w.vaults ≡ some ctx.yield_vault.state)
  unfolding load_rebalancing load
  load_rebalancing_parties vault authority buffer f_tokens mint f_token_mint lending_admin lending
        supply_token_reserves_liquidity lending_supply_position_on_liquidity rate_model
        jupiter_vault claim_account liquidity liquidity_program rewards_rate_model lending_program
        token_program associated_token_program system_program h =
      ground arith

  pub load_trade_keys :
      (wallet vault owner wallet_tokens buffer lending : Pubkey) {ctx : YieldAccounts}
      → load_trade signers w wallet vault owner wallet_tokens buffer lending ≡ ok ctx
      → (ctx.subscription_wallet.key ≡ wallet) × (ctx.yield_vault.key ≡ vault)
  unfolding load_trade load
  load_trade_keys wallet vault owner wallet_tokens buffer lending h = ground arith

  pub load_signup_parties :
      (subscription tracker wallet plan user wallet_tokens : Pubkey) {ctx : SubscribeWithWallet}
      → load_signup signers w subscription tracker wallet plan user wallet_tokens ≡ ok ctx
      → (ctx.user ≡ signer_at signers user)
        × (ctx.subscription_wallet.key ≡ wallet)
        × (find wallet w.registry.wallets ≡ some ctx.subscription_wallet.state)
  unfolding load_signup load
  load_signup_parties subscription tracker wallet plan user wallet_tokens h = ground arith

  pub load_cancel_parties :
      (subscription wallet plan user : Pubkey) {ctx : CancelSubscriptionWallet}
      → load_cancel signers w subscription wallet plan user ≡ ok ctx
      → (ctx.user ≡ signer_at signers user)
        × (ctx.subscription_wallet.key ≡ wallet)
        × (find subscription w.registry.subscriptions ≡ some ctx.subscription_state.state)
  unfolding load_cancel load
  load_cancel_parties subscription wallet plan user h = ground arith

  pub load_emergency_parties :
      (vault authority buffer f_tokens f_token_mint lending : Pubkey) {ctx : SetEmergencyMode}
      → load_emergency signers w vault authority buffer f_tokens f_token_mint lending ≡ ok ctx
      → (ctx.authority ≡ signer_at signers authority)
        × (ctx.yield_vault.key ≡ vault)
        × (find vault w.vaults ≡ some ctx.yield_vault.state)
  unfolding load_emergency load
  load_emergency_parties vault authority buffer f_tokens f_token_mint lending h = ground arith

pub load_payment_parties :
    (w : World) (subscription wallet plan config wallet_tokens merchant_tokens treasury : Pubkey)
    (vault buffer lending : Option Pubkey) {ctx : ExecutePaymentFromWallet}
    → load_payment w subscription wallet plan config wallet_tokens merchant_tokens treasury vault
        buffer lending
      ≡ ok ctx
    → (ctx.wallet_token_account ≡ tokens_at w wallet_tokens)
      × (ctx.subscription_wallet.key ≡ wallet)
      × (find subscription w.registry.subscriptions ≡ some ctx.subscription_state.state)
unfolding load_payment load load_optional
load_payment_parties w subscription wallet plan config wallet_tokens merchant_tokens treasury vault
      buffer lending h =
    ground arith
