-- ===== src/Wallet.antt =====
-- programs/subscription-protocol/src/instructions/wallet: one module for each instruction.
pub mod CreateWallet
pub mod Deposit
pub mod Withdraw
pub mod Transfers
