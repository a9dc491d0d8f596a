-- ===== src/YieldOps.antt =====
-- programs/subscription-protocol/src/instructions/yield_ops: one module for each instruction, over
-- the accounts that they share.
pub mod Accounts
pub mod EnableYield
pub mod DepositToYield
pub mod WithdrawFromYield
pub mod DisableYield
pub mod Request
pub mod Shares
pub mod Trades
pub mod Price
pub mod Limits
pub mod RoundTrip
pub mod Dilution
pub mod Exit
