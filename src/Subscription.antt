-- ===== src/Subscription.antt =====
-- programs/subscription-protocol/src/instructions/subscription: one module for each instruction.
pub mod RegisterMerchant
pub mod Subscribe
pub mod ExecutePayment
pub mod CancelSubscription
pub mod PaymentFees
pub mod PaymentEffect
pub mod PaymentHistory
pub mod PaymentLiveness
pub mod FirstPayment
pub mod Signup
pub mod Registration
pub mod Cancellation
pub mod Mints
