-- ===== src/World/Steps.antt =====
-- What it means that an instruction of the world went through: accounts as they are stored, an entry
-- point that succeeded on them, and what it left in their place.
use eventop.Base.{ℕ, ℤ, Bool, ◌≡◌, Text}
use eventop.Base.Assoc.{find}
use eventop.Runtime.Result.{Result, ◌>>=◌, ok, >>=-eq-ok}
use eventop.Runtime.Anchor.{Solana}
use eventop.Outcome.{Outcome}
use eventop.Protocol.InitializeProtocol
use eventop.Protocol.InitializeProtocol.{InitializeProtocol}
use eventop.Protocol.InitializeYieldVault.{InitializeYieldVault, initialize_yield_vault}
use eventop.Protocol.UpdateProtocolFee.{UpdateProtocolFee, update_protocol_fee}
use eventop.Wallet.CreateWallet.{CreateSubscriptionWallet, create_subscription_wallet}
use eventop.YieldOps.Accounts.{YieldAccounts}
use eventop.YieldOps.Request.{Request, run}
use eventop.VaultManagement.RebalanceVault.{RebalanceVault, rebalance_vault}
use eventop.VaultManagement.SetEmergencyMode.{SetEmergencyMode, set_emergency_mode}
use eventop.Subscription.RegisterMerchant.{RegisterMerchant, PlanTerms, register_merchant}
use eventop.Subscription.Subscribe.{SubscribeWithWallet, subscribe_with_wallet}
use eventop.Subscription.ExecutePayment.{ExecutePaymentFromWallet, execute_payment_from_wallet}
use eventop.Subscription.CancelSubscription.{
  CancelSubscriptionWallet, CancelledAccounts, cancel_subscription_wallet,
}
use eventop.World.{World}
use eventop.World.Load.{save, save_new, save_optional}
use eventop.World.Exec.{
  registry_cancelled, registry_created, registry_paid, registry_subscribed, registry_traded,
}
use eventop.World.Loaded.{IsStored, AreStored}

pub data Ran (solana : Solana) (now : ℤ) (w w' : World) : Type 0 where
  moved : w' ≡ record w { ledger = w'.ledger } → Ran solana now w w'
  configured :
      (ctx : InitializeProtocol) (bps : ℕ) (o : Outcome InitializeProtocol)
      → ctx.protocol_config.state ≡ find ctx.protocol_config.key w.configs
      → InitializeProtocol.initialize_protocol solana ctx bps w.ledger ≡ ok o
      → w' ≡ record w { configs = save_new o.accounts.protocol_config w.configs; ledger = o.ledger }
      → Ran solana now w w'
  fee_updated :
      (ctx : UpdateProtocolFee) (bps : ℕ) (o : Outcome UpdateProtocolFee)
      → IsStored ctx.protocol_config w.configs
      → update_protocol_fee solana ctx bps w.ledger ≡ ok o
      → w' ≡ record w { configs = save o.accounts.protocol_config w.configs; ledger = o.ledger }
      → Ran solana now w w'
  vault_created :
      (ctx : InitializeYieldVault) (bps : ℕ) (o : Outcome InitializeYieldVault)
      → ctx.yield_vault.state ≡ find ctx.yield_vault.key w.vaults
      → initialize_yield_vault solana ctx bps w.ledger ≡ ok o
      → w' ≡ record w { vaults = save_new o.accounts.yield_vault w.vaults; ledger = o.ledger }
      → Ran solana now w w'
  rebalanced :
      (ctx : RebalanceVault) (o : Outcome RebalanceVault)
      → IsStored ctx.yield_vault w.vaults
      → rebalance_vault solana ctx w.ledger ≡ ok o
      → w' ≡ record w { vaults = save o.accounts.yield_vault w.vaults; ledger = o.ledger }
      → Ran solana now w w'
  switched :
      (ctx : SetEmergencyMode) (enabled : Bool) (o : Outcome SetEmergencyMode)
      → IsStored ctx.yield_vault w.vaults
      → set_emergency_mode solana ctx enabled w.ledger ≡ ok o
      → w' ≡ record w { vaults = save o.accounts.yield_vault w.vaults; ledger = o.ledger }
      → Ran solana now w w'
  registered :
      (ctx : RegisterMerchant) (terms : PlanTerms) (o : Outcome RegisterMerchant)
      → ctx.merchant_plan.state ≡ find ctx.merchant_plan.key w.plans
      → register_merchant solana ctx terms w.ledger ≡ ok o
      → w' ≡ record w { plans = save_new o.accounts.merchant_plan w.plans; ledger = o.ledger }
      → Ran solana now w w'
  wallet_created :
      (ctx : CreateSubscriptionWallet) (o : Outcome CreateSubscriptionWallet)
      → ctx.subscription_wallet.state ≡ find ctx.subscription_wallet.key w.registry.wallets
      → create_subscription_wallet solana ctx w.ledger ≡ ok o
      → w' ≡ record w { registry = registry_created o w.registry; ledger = o.ledger }
      → Ran solana now w w'
  traded :
      (ctx : YieldAccounts) (q : Request) (o : Outcome YieldAccounts)
      → IsStored ctx.subscription_wallet w.registry.wallets
      → IsStored ctx.yield_vault w.vaults
      → run solana ctx q w.ledger ≡ ok o
      → w' ≡ record w {
        vaults = save o.accounts.yield_vault w.vaults;
        registry = registry_traded o w.registry;
        ledger = o.ledger;
      }
      → Ran solana now w w'
  subscribed :
      (ctx : SubscribeWithWallet) (token : Text) (o : Outcome SubscribeWithWallet)
      → ctx.subscription_state.state ≡ find ctx.subscription_state.key w.registry.subscriptions
      → ctx.session_token_tracker.state ≡ find ctx.session_token_tracker.key w.registry.trackers
      → IsStored ctx.subscription_wallet w.registry.wallets
      → IsStored ctx.merchant_plan w.plans
      → subscribe_with_wallet solana ctx token now w.ledger ≡ ok o
      → w' ≡ record w {
        plans = save o.accounts.merchant_plan w.plans;
        registry = registry_subscribed o w.registry;
        ledger = o.ledger;
      }
      → Ran solana now w w'
  paid :
      (ctx : ExecutePaymentFromWallet) (o : Outcome ExecutePaymentFromWallet)
      → IsStored ctx.subscription_state w.registry.subscriptions
      → IsStored ctx.subscription_wallet w.registry.wallets
      → AreStored ctx.yield_vault w.vaults
      → execute_payment_from_wallet solana ctx now w.ledger ≡ ok o
      → w' ≡ record w {
        vaults = save_optional o.accounts.yield_vault w.vaults;
        registry = registry_paid o w.registry;
        ledger = o.ledger;
      }
      → Ran solana now w w'
  cancelled :
      (ctx : CancelSubscriptionWallet) (o : Outcome CancelledAccounts)
      → IsStored ctx.subscription_state w.registry.subscriptions
      → IsStored ctx.subscription_wallet w.registry.wallets
      → IsStored ctx.merchant_plan w.plans
      → cancel_subscription_wallet solana ctx w.ledger ≡ ok o
      → w' ≡ record w {
        plans = save o.accounts.merchant_plan w.plans;
        registry = registry_cancelled o w.registry;
        ledger = o.ledger;
      }
      → Ran solana now w w'

-- The two stages of an instruction that succeeded.
pub stages {κ μ ν} :
    {A : Type κ} {B : Type μ} {C : Type ν} (loading : Result A) (running : A → Result B)
    (storing : A → B → C) {c : C}
    → (loading >>= λ a. running a >>= λ b. ok (storing a b)) ≡ ok c
    → (a : A) × (b : B) × (loading ≡ ok a) × (running a ≡ ok b) × (c ≡ storing a b)
stages loading running storing h =
    let (a, load_done, rest) = >>=-eq-ok loading _ h in
    let (b, run_done, stored) = >>=-eq-ok (running a) _ rest in (a, b, load_done, run_done, cc)
