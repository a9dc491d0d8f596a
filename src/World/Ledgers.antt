-- ===== src/World/Ledgers.antt =====
-- The instructions that move no tokens, and what the others have checked of the signers.
use eventop.Base.{ℕ, ℤ, Bool, ◌≡◌, arith, true, Text}
use eventop.Runtime.Result.{ok}
use eventop.Runtime.Token.{Ledger}
use eventop.Runtime.Anchor.{Solana}
use eventop.Outcome.{Outcome}
use eventop.Protocol.InitializeProtocol
use eventop.Protocol.InitializeProtocol.{InitializeProtocol, initialize_protocol}
use eventop.Protocol.InitializeYieldVault
use eventop.Protocol.InitializeYieldVault.{InitializeYieldVault, initialize_yield_vault}
use eventop.Protocol.UpdateProtocolFee
use eventop.Protocol.UpdateProtocolFee.{UpdateProtocolFee, update_protocol_fee}
use eventop.Wallet.CreateWallet
use eventop.Wallet.CreateWallet.{CreateSubscriptionWallet, create_subscription_wallet}
use eventop.Wallet.Withdraw
use eventop.Wallet.Withdraw.{WithdrawFromWallet, withdraw_from_wallet}
use eventop.VaultManagement.SetEmergencyMode
use eventop.VaultManagement.SetEmergencyMode.{SetEmergencyMode, set_emergency_mode}
use eventop.VaultManagement.RebalanceVault
use eventop.VaultManagement.RebalanceVault.{RebalanceVault, rebalance_vault}
use eventop.Subscription.RegisterMerchant
use eventop.Subscription.RegisterMerchant.{RegisterMerchant, PlanTerms, register_merchant}
use eventop.Subscription.Subscribe
use eventop.Subscription.Subscribe.{SubscribeWithWallet, subscribe_with_wallet}
use eventop.Subscription.ExecutePayment
use eventop.Subscription.ExecutePayment.{ExecutePaymentFromWallet, execute_payment_from_wallet}
use eventop.Subscription.CancelSubscription
use eventop.Subscription.CancelSubscription.{
  CancelSubscriptionWallet, CancelledAccounts, cancel_subscription_wallet,
}

pub initialize_ledger :
    (solana : Solana) (ctx : InitializeProtocol) (bps : ℕ) (l : Ledger)
    {o : Outcome InitializeProtocol}
    → initialize_protocol solana ctx bps l ≡ ok o
    → o.ledger ≡ l
unfolding initialize_protocol InitializeProtocol.handler
initialize_ledger solana ctx bps l h = ground arith

pub initialize_vault_ledger :
    (solana : Solana) (ctx : InitializeYieldVault) (bps : ℕ) (l : Ledger)
    {o : Outcome InitializeYieldVault}
    → initialize_yield_vault solana ctx bps l ≡ ok o
    → o.ledger ≡ l
unfolding initialize_yield_vault InitializeYieldVault.handler
initialize_vault_ledger solana ctx bps l h = ground arith

pub update_fee_ledger :
    (solana : Solana) (ctx : UpdateProtocolFee) (bps : ℕ) (l : Ledger)
    {o : Outcome UpdateProtocolFee}
    → update_protocol_fee solana ctx bps l ≡ ok o
    → o.ledger ≡ l
unfolding update_protocol_fee UpdateProtocolFee.handler
update_fee_ledger solana ctx bps l h = ground arith

pub create_wallet_ledger :
    (solana : Solana) (ctx : CreateSubscriptionWallet) (l : Ledger)
    {o : Outcome CreateSubscriptionWallet}
    → create_subscription_wallet solana ctx l ≡ ok o
    → o.ledger ≡ l
unfolding create_subscription_wallet CreateWallet.handler
create_wallet_ledger solana ctx l h = ground arith

pub set_emergency_ledger :
    (solana : Solana) (ctx : SetEmergencyMode) (enabled : Bool) (l : Ledger)
    {o : Outcome SetEmergencyMode}
    → set_emergency_mode solana ctx enabled l ≡ ok o
    → o.ledger ≡ l
unfolding set_emergency_mode SetEmergencyMode.handler
set_emergency_ledger solana ctx enabled l h = ground arith

pub register_ledger :
    (solana : Solana) (ctx : RegisterMerchant) (terms : PlanTerms) (l : Ledger)
    {o : Outcome RegisterMerchant}
    → register_merchant solana ctx terms l ≡ ok o
    → o.ledger ≡ l
unfolding register_merchant RegisterMerchant.handler
register_ledger solana ctx terms l h = ground arith

pub subscribe_ledger :
    (solana : Solana) (ctx : SubscribeWithWallet) (token : Text) (now : ℤ) (l : Ledger)
    {o : Outcome SubscribeWithWallet}
    → subscribe_with_wallet solana ctx token now l ≡ ok o
    → o.ledger ≡ l
unfolding subscribe_with_wallet Subscribe.handler
subscribe_ledger solana ctx token now l h = ground arith

pub cancel_ledger :
    (solana : Solana) (ctx : CancelSubscriptionWallet) (l : Ledger) {o : Outcome CancelledAccounts}
    → cancel_subscription_wallet solana ctx l ≡ ok o
    → o.ledger ≡ l
unfolding cancel_subscription_wallet CancelSubscription.handler
cancel_ledger solana ctx l h = ground arith

pub withdraw_owner :
    (solana : Solana) (ctx : WithdrawFromWallet) (n : ℕ) (l : Ledger)
    {o : Outcome WithdrawFromWallet}
    → withdraw_from_wallet solana ctx n l ≡ ok o
    → ctx.wallet_token_account.state.owner ≡ ctx.subscription_wallet.key
unfolding withdraw_from_wallet Withdraw.try_accounts
withdraw_owner solana ctx n l h = ground arith

payment_accounts :
    (solana : Solana) (ctx : ExecutePaymentFromWallet)
    → ExecutePayment.try_accounts solana ctx ≡ ok tt
    → ctx.wallet_token_account.state.owner ≡ ctx.subscription_wallet.key
unfolding ExecutePayment.try_accounts
payment_accounts solana ctx h = ground arith

pub payment_owner :
    (solana : Solana) (ctx : ExecutePaymentFromWallet) (now : ℤ) (l : Ledger)
    {o : Outcome ExecutePaymentFromWallet}
    → execute_payment_from_wallet solana ctx now l ≡ ok o
    → ctx.wallet_token_account.state.owner ≡ ctx.subscription_wallet.key
unfolding execute_payment_from_wallet
payment_owner solana ctx now l h = ground (arith, payment_accounts solana ctx)

rebalance_accounts :
    (solana : Solana) (ctx : RebalanceVault)
    → RebalanceVault.try_accounts solana ctx ≡ ok tt
    → (ctx.authority.is_signer ≡ true) × (ctx.yield_vault.state.authority ≡ ctx.authority.key)
unfolding RebalanceVault.try_accounts
rebalance_accounts solana ctx h = ground arith

pub rebalance_signed :
    (solana : Solana) (ctx : RebalanceVault) (l : Ledger) {o : Outcome RebalanceVault}
    → rebalance_vault solana ctx l ≡ ok o
    → (ctx.authority.is_signer ≡ true) × (ctx.yield_vault.state.authority ≡ ctx.authority.key)
unfolding rebalance_vault
rebalance_signed solana ctx l h = ground (arith, rebalance_accounts solana ctx)
