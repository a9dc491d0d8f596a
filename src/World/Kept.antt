-- ===== src/World/Kept.antt =====
-- What each entry point of lib.rs leaves as it was in the accounts that it writes.
use eventop.Base.{ℕ, ℤ, Bool, ◌≡◌, ◌≤◌, arith, true, Text}
use eventop.Runtime.Result.{ok}
use eventop.Runtime.Token.{Ledger}
use eventop.Runtime.Anchor.{Account, Solana}
use eventop.Outcome.{Outcome}
use eventop.State.ProtocolConfig.{ProtocolConfig}
use eventop.State.YieldVault.{YieldVault}
use eventop.State.SubscriptionWallet.{SubscriptionWallet}
use eventop.State.MerchantPlan.{MerchantPlan}
use eventop.State.SubscriptionState.{SubscriptionState}
use eventop.State.SessionToken.{SessionTokenTracker}
use eventop.Protocol.UpdateProtocolFee
use eventop.Protocol.UpdateProtocolFee.{UpdateProtocolFee, update_protocol_fee}
use eventop.YieldOps.Accounts.{YieldAccounts}
use eventop.YieldOps.Request.{Request, enable, deposit, withdraw, disable, run}
use eventop.YieldOps.EnableYield
use eventop.YieldOps.DepositToYield
use eventop.YieldOps.WithdrawFromYield
use eventop.YieldOps.DisableYield
use eventop.VaultManagement.SetEmergencyMode
use eventop.VaultManagement.SetEmergencyMode.{SetEmergencyMode, set_emergency_mode}
use eventop.Subscription.PaymentFees.{payment-no-redemption, handler_of_payment}
use eventop.Subscription.ExecutePayment
use eventop.Subscription.ExecutePayment.{ExecutePaymentFromWallet, execute_payment_from_wallet}
use eventop.Subscription.Subscribe
use eventop.Subscription.Subscribe.{SubscribeWithWallet, subscribe_with_wallet}
use eventop.Subscription.CancelSubscription
use eventop.Subscription.CancelSubscription.{
  CancelSubscriptionWallet, CancelledAccounts, cancel_subscription_wallet,
}

abbrev pub SameConfig : ProtocolConfig → ProtocolConfig → Type 0
SameConfig c c' = (c'.authority ≡ c.authority) × (c'.treasury ≡ c.treasury) × (c'.bump ≡ c.bump)

abbrev pub SameVault : YieldVault → YieldVault → Type 0
SameVault v v' =
    (v'.authority ≡ v.authority)
    × (v'.mint ≡ v.mint)
    × (v'.usdc_buffer ≡ v.usdc_buffer)
    × (v'.jupiter_ftoken_account ≡ v.jupiter_ftoken_account)
    × (v'.jupiter_lending ≡ v.jupiter_lending)
    × (v'.target_buffer_bps ≡ v.target_buffer_bps)
    × (v'.bump ≡ v.bump)

-- What a wallet has spent only grows.
abbrev pub SameWallet : SubscriptionWallet → SubscriptionWallet → Type 0
SameWallet w w' =
    (w'.owner ≡ w.owner)
    × (w'.main_token_account ≡ w.main_token_account)
    × (w'.mint ≡ w.mint)
    × (w'.bump ≡ w.bump)
    × (w.total_spent ≤ w'.total_spent)

abbrev pub SamePlan : MerchantPlan → MerchantPlan → Type 0
SamePlan p p' =
    (p'.merchant ≡ p.merchant)
    × (p'.mint ≡ p.mint)
    × (p'.plan_id ≡ p.plan_id)
    × (p'.plan_name ≡ p.plan_name)
    × (p'.fee_amount ≡ p.fee_amount)
    × (p'.payment_interval ≡ p.payment_interval)
    × (p'.is_active ≡ p.is_active)
    × (p'.bump ≡ p.bump)

abbrev pub SameTracker : SessionTokenTracker → SessionTokenTracker → Type 0
SameTracker t t' = t.is_used ≡ true → t' ≡ t

-- The account is written back under its key, and its contents are related to what they were.
abbrev pub Rewrites {ℓ κ} : {V : Type ℓ} → (V → V → Type κ) → Account V → Account V → Type κ
Rewrites R a a' = (a'.key ≡ a.key) × R a.state a'.state

pub fee-Rewrites :
    (solana : Solana) (ctx : UpdateProtocolFee) (bps : ℕ) (l : Ledger)
    {o : Outcome UpdateProtocolFee}
    → update_protocol_fee solana ctx bps l ≡ ok o
    → Rewrites SameConfig ctx.protocol_config o.accounts.protocol_config
unfolding update_protocol_fee UpdateProtocolFee.handler
fee-Rewrites solana ctx bps l h = ground arith

abbrev pub TradeRewrites : YieldAccounts → YieldAccounts → Type 0
TradeRewrites ctx ctx' =
    Rewrites SameVault ctx.yield_vault ctx'.yield_vault
    × Rewrites SameWallet ctx.subscription_wallet ctx'.subscription_wallet

pub run-Rewrites :
    (solana : Solana) (ctx : YieldAccounts) (q : Request) (l : Ledger) {o : Outcome YieldAccounts}
    → run solana ctx q l ≡ ok o
    → TradeRewrites ctx o.accounts
unfolding run EnableYield.enable_yield DepositToYield.deposit_to_yield
    WithdrawFromYield.withdraw_from_yield DisableYield.disable_yield EnableYield.handler
    DepositToYield.handler WithdrawFromYield.handler DisableYield.handler
run-Rewrites solana ctx (enable n) l h = ground arith
run-Rewrites solana ctx (deposit n) l h = ground arith
run-Rewrites solana ctx (withdraw n) l h = ground arith
run-Rewrites solana ctx disable l h = ground arith

pub switch-Rewrites :
    (solana : Solana) (ctx : SetEmergencyMode) (enabled : Bool) (l : Ledger)
    {o : Outcome SetEmergencyMode}
    → set_emergency_mode solana ctx enabled l ≡ ok o
    → Rewrites SameVault ctx.yield_vault o.accounts.yield_vault
unfolding set_emergency_mode SetEmergencyMode.handler
switch-Rewrites solana ctx enabled l h = ground arith

pub subscribe-Rewrites :
    (solana : Solana) (ctx : SubscribeWithWallet) (token : Text) (now : ℤ) (l : Ledger)
    {o : Outcome SubscribeWithWallet}
    → subscribe_with_wallet solana ctx token now l ≡ ok o
    → Rewrites SameWallet ctx.subscription_wallet o.accounts.subscription_wallet
      × Rewrites SamePlan ctx.merchant_plan o.accounts.merchant_plan
unfolding subscribe_with_wallet Subscribe.handler
subscribe-Rewrites solana ctx token now l h = ground arith

pub cancel-Rewrites :
    (solana : Solana) (ctx : CancelSubscriptionWallet) (l : Ledger) {o : Outcome CancelledAccounts}
    → cancel_subscription_wallet solana ctx l ≡ ok o
    → Rewrites SameWallet ctx.subscription_wallet o.accounts.subscription_wallet
      × Rewrites SamePlan ctx.merchant_plan o.accounts.merchant_plan
unfolding cancel_subscription_wallet CancelSubscription.handler
cancel-Rewrites solana ctx l h = ground arith

-- Of a subscription a payment changes the time and the totals.
abbrev pub SameSubscription : SubscriptionState → SubscriptionState → Type 0
SameSubscription s s' =
    (s'.user ≡ s.user)
    × (s'.subscription_wallet ≡ s.subscription_wallet)
    × (s'.merchant ≡ s.merchant)
    × (s'.mint ≡ s.mint)
    × (s'.merchant_plan ≡ s.merchant_plan)
    × (s'.fee_amount ≡ s.fee_amount)
    × (s'.payment_interval ≡ s.payment_interval)
    × (s'.is_active ≡ s.is_active)
    × (s'.session_token ≡ s.session_token)
    × (s'.bump ≡ s.bump)

handler-Rewrites :
    (solana : Solana) (ctx : ExecutePaymentFromWallet) (now : ℤ) (l : Ledger)
    {o : Outcome ExecutePaymentFromWallet}
    → ExecutePayment.handler solana ctx now l ≡ ok o
    → Rewrites SameWallet ctx.subscription_wallet o.accounts.subscription_wallet
      × Rewrites SameSubscription ctx.subscription_state o.accounts.subscription_state
unfolding ExecutePayment.handler
handler-Rewrites solana ctx now l h = ground (arith, payment-no-redemption solana ctx now l h)

pub payment-Rewrites :
    (solana : Solana) (ctx : ExecutePaymentFromWallet) (now : ℤ) (l : Ledger)
    {o : Outcome ExecutePaymentFromWallet}
    → execute_payment_from_wallet solana ctx now l ≡ ok o
    → Rewrites SameWallet ctx.subscription_wallet o.accounts.subscription_wallet
      × Rewrites SameSubscription ctx.subscription_state o.accounts.subscription_state
payment-Rewrites solana ctx now l h =
    handler-Rewrites solana ctx now l (handler_of_payment solana ctx now l h)
