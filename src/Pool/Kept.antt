-- ===== src/Pool/Kept.antt =====
-- The instructions that trade no shares leave a wallet's shares as they are.
use eventop.Base.{ℤ, ◌≡◌, arith, Text, Bool}
use eventop.Runtime.Result.{ok}
use eventop.Runtime.Token.{Ledger}
use eventop.Runtime.Anchor.{Account, Solana}
use eventop.State.SubscriptionWallet.{SubscriptionWallet}
use eventop.Outcome.{Outcome}
use eventop.YieldOps.Accounts.{YieldAccounts}
use eventop.YieldOps.Request.{Request, enable, deposit, withdraw, disable, run}
use eventop.YieldOps.EnableYield
use eventop.YieldOps.DepositToYield
use eventop.YieldOps.WithdrawFromYield
use eventop.YieldOps.DisableYield
use eventop.Subscription.PaymentFees.{payment-no-redemption}
use eventop.Subscription.ExecutePayment
use eventop.Subscription.ExecutePayment.{ExecutePaymentFromWallet, execute_payment_from_wallet}
use eventop.Subscription.Subscribe
use eventop.Subscription.Subscribe.{SubscribeWithWallet, subscribe_with_wallet}
use eventop.Subscription.CancelSubscription
use eventop.Subscription.CancelSubscription.{
  CancelSubscriptionWallet, CancelledAccounts, cancel_subscription_wallet,
}
use eventop.VaultManagement.SetEmergencyMode
use eventop.VaultManagement.SetEmergencyMode.{SetEmergencyMode, set_emergency_mode}
use eventop.VaultManagement.RebalanceVault
use eventop.VaultManagement.RebalanceVault.{RebalanceVault, rebalance_vault}

abbrev pub Kept : Account SubscriptionWallet → Account SubscriptionWallet → Type 0
Kept w w' =
    (w'.key ≡ w.key)
    × (w'.state.yield_shares ≡ w.state.yield_shares)
    × (w'.state.is_yield_enabled ≡ w.state.is_yield_enabled)

pub run_key :
    (solana : Solana) (ctx : YieldAccounts) (r : Request) (l : Ledger) {o : Outcome YieldAccounts}
    → run solana ctx r l ≡ ok o
    → o.accounts.subscription_wallet.key ≡ ctx.subscription_wallet.key
unfolding run EnableYield.enable_yield DepositToYield.deposit_to_yield
    WithdrawFromYield.withdraw_from_yield DisableYield.disable_yield EnableYield.handler
    DepositToYield.handler WithdrawFromYield.handler DisableYield.handler
run_key solana ctx (enable n) l h = ground arith
run_key solana ctx (deposit n) l h = ground arith
run_key solana ctx (withdraw n) l h = ground arith
run_key solana ctx disable l h = ground arith

pub payment-Kept :
    (solana : Solana) (ctx : ExecutePaymentFromWallet) (now : ℤ) (l : Ledger)
    {o : Outcome ExecutePaymentFromWallet}
    → ExecutePayment.handler solana ctx now l ≡ ok o
    → Kept ctx.subscription_wallet o.accounts.subscription_wallet
unfolding ExecutePayment.handler
payment-Kept solana ctx now l h = ground (arith, payment-no-redemption solana ctx now l h)

pub subscribe-Kept :
    (solana : Solana) (ctx : SubscribeWithWallet) (token : Text) (now : ℤ) (l : Ledger)
    {o : Outcome SubscribeWithWallet}
    → subscribe_with_wallet solana ctx token now l ≡ ok o
    → Kept ctx.subscription_wallet o.accounts.subscription_wallet
unfolding subscribe_with_wallet Subscribe.handler
subscribe-Kept solana ctx token now l h = ground arith

pub cancel-Kept :
    (solana : Solana) (ctx : CancelSubscriptionWallet) (l : Ledger) {o : Outcome CancelledAccounts}
    → cancel_subscription_wallet solana ctx l ≡ ok o
    → Kept ctx.subscription_wallet o.accounts.subscription_wallet
unfolding cancel_subscription_wallet CancelSubscription.handler
cancel-Kept solana ctx l h = ground arith

pub switch_shares :
    (solana : Solana) (ctx : SetEmergencyMode) (enabled : Bool) (l : Ledger)
    {o : Outcome SetEmergencyMode}
    → set_emergency_mode solana ctx enabled l ≡ ok o
    → o.accounts.yield_vault.state.total_shares_issued ≡ ctx.yield_vault.state.total_shares_issued
unfolding set_emergency_mode SetEmergencyMode.handler
switch_shares solana ctx enabled l h = ground arith

pub rebalance_shares :
    (solana : Solana) (ctx : RebalanceVault) (l : Ledger) {o : Outcome RebalanceVault}
    → rebalance_vault solana ctx l ≡ ok o
    → o.accounts ≡ ctx
unfolding rebalance_vault RebalanceVault.handler RebalanceVault.rebalance_to RebalanceVault.top_up
    RebalanceVault.lend_excess RebalanceVault.lend
rebalance_shares solana ctx l h = ground arith
