-- ===== src/World/Loaded.antt =====
-- What is loaded is as it is stored.
use eventop.Base.{Option, none, some, ◌≡◌, List, arith}
use eventop.Base.Assoc.{find}
use eventop.Runtime.Result.{ok}
use eventop.Runtime.Anchor.{Pubkey, Account}
use eventop.Protocol.UpdateProtocolFee.{UpdateProtocolFee}
use eventop.YieldOps.Accounts.{YieldAccounts}
use eventop.VaultManagement.RebalanceVault.{RebalanceVault}
use eventop.VaultManagement.SetEmergencyMode.{SetEmergencyMode}
use eventop.Subscription.Subscribe.{SubscribeWithWallet}
use eventop.Subscription.ExecutePayment.{ExecutePaymentFromWallet}
use eventop.Subscription.CancelSubscription.{CancelSubscriptionWallet}
use eventop.World.{World}
use eventop.World.Load.{load, load_optional}
use eventop.World.Accounts.{
  load_cancel, load_emergency, load_fee, load_payment, load_rebalancing, load_signup, load_trade,
}

-- The account as it is stored.
abbrev pub IsStored {ℓ} : {V : Type ℓ} → Account V → List (Pubkey × V) → Type ℓ
IsStored a m = find a.key m ≡ some a.state

-- An account that may be left out is as it is stored, where it is given.
abbrev pub AreStored {ℓ} : {V : Type ℓ} → Option (Account V) → List (Pubkey × V) → Type ℓ
AreStored none m = Unit
AreStored (some a) m = IsStored a m

load_optional-AreStored {ℓ} :
    {V : Type ℓ} (k : Option Pubkey) (m : List (Pubkey × V)) {a : Option (Account V)}
    → load_optional k m ≡ ok a
    → AreStored a m
unfolding load_optional load
load_optional-AreStored none m {a = none} h = tt
load_optional-AreStored none m {a = some a} h = cc
load_optional-AreStored (some k) m {a = none} h = ground arith
load_optional-AreStored (some k) m {a = some a} h = ground arith

module _ (signers : List Pubkey) (w : World) where
  pub load_fee-IsStored :
      (config authority : Pubkey) {ctx : UpdateProtocolFee}
      → load_fee signers w config authority ≡ ok ctx
      → IsStored ctx.protocol_config w.configs
  unfolding load_fee load
  load_fee-IsStored config authority h = ground arith

  pub load_trade-IsStored :
      (wallet vault owner wallet_tokens buffer lending : Pubkey) {ctx : YieldAccounts}
      → load_trade signers w wallet vault owner wallet_tokens buffer lending ≡ ok ctx
      → IsStored ctx.subscription_wallet w.registry.wallets × IsStored ctx.yield_vault w.vaults
  unfolding load_trade load
  load_trade-IsStored wallet vault owner wallet_tokens buffer lending h = ground arith

  pub load_rebalancing-IsStored :
      (vault authority buffer f_tokens mint f_token_mint lending_admin lending
        supply_token_reserves_liquidity lending_supply_position_on_liquidity rate_model
        jupiter_vault claim_account liquidity liquidity_program rewards_rate_model lending_program
        token_program associated_token_program system_program : Pubkey)
      {ctx : RebalanceVault}
      → load_rebalancing signers w vault authority buffer f_tokens mint f_token_mint lending_admin
          lending supply_token_reserves_liquidity lending_supply_position_on_liquidity rate_model
          jupiter_vault claim_account liquidity liquidity_program rewards_rate_model lending_program
          token_program associated_token_program system_program
        ≡ ok ctx
      → IsStored ctx.yield_vault w.vaults
  unfolding load_rebalancing load
  load_rebalancing-IsStored vault authority buffer f_tokens mint f_token_mint lending_admin lending
        supply_token_reserves_liquidity lending_supply_position_on_liquidity rate_model
        jupiter_vault claim_account liquidity liquidity_program rewards_rate_model lending_program
        token_program associated_token_program system_program h =
      ground arith

  pub load_emergency-IsStored :
      (vault authority buffer f_tokens f_token_mint lending : Pubkey) {ctx : SetEmergencyMode}
      → load_emergency signers w vault authority buffer f_tokens f_token_mint lending ≡ ok ctx
      → IsStored ctx.yield_vault w.vaults
  unfolding load_emergency load
  load_emergency-IsStored vault authority buffer f_tokens f_token_mint lending h = ground arith

  pub load_signup-IsStored :
      (subscription tracker wallet plan user wallet_tokens : Pubkey) {ctx : SubscribeWithWallet}
      → load_signup signers w subscription tracker wallet plan user wallet_tokens ≡ ok ctx
      → (ctx.subscription_state.state ≡ find ctx.subscription_state.key w.registry.subscriptions)
        × (ctx.session_token_tracker.state ≡ find ctx.session_token_tracker.key w.registry.trackers)
        × IsStored ctx.subscription_wallet w.registry.wallets
        × IsStored ctx.merchant_plan w.plans
  unfolding load_signup load
  load_signup-IsStored subscription tracker wallet plan user wallet_tokens h = ground arith

  pub load_cancel-IsStored :
      (subscription wallet plan user : Pubkey) {ctx : CancelSubscriptionWallet}
      → load_cancel signers w subscription wallet plan user ≡ ok ctx
      → IsStored ctx.subscription_state w.registry.subscriptions
        × IsStored ctx.subscription_wallet w.registry.wallets
        × IsStored ctx.merchant_plan w.plans
  unfolding load_cancel load
  load_cancel-IsStored subscription wallet plan user h = ground arith

pub load_payment-IsStored :
    (w : World) (subscription wallet plan config wallet_tokens merchant_tokens treasury : Pubkey)
    (vault buffer lending : Option Pubkey) {ctx : ExecutePaymentFromWallet}
    → load_payment w subscription wallet plan config wallet_tokens merchant_tokens treasury vault
        buffer lending
      ≡ ok ctx
    → IsStored ctx.subscription_state w.registry.subscriptions
      × IsStored ctx.subscription_wallet w.registry.wallets
      × AreStored ctx.yield_vault w.vaults
unfolding load_payment load
load_payment-IsStored w subscription wallet plan config wallet_tokens merchant_tokens treasury vault
      buffer lending {ctx} h =
    ground (arith, load_optional-AreStored vault w.vaults {a = ctx.yield_vault})
