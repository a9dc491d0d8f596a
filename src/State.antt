-- ===== src/State.antt =====
-- programs/subscription-protocol/src/state: the accounts that the program keeps, one module each.
pub mod ProtocolConfig
pub mod YieldVault
pub mod SubscriptionWallet
pub mod MerchantPlan
pub mod SubscriptionState
pub mod SessionToken
pub mod Agreement
