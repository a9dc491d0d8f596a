-- ===== src/Utils.antt =====
-- programs/subscription-protocol/src/utils: arithmetic of shares, and the vault's transfers.
pub mod Calculations
pub mod VaultOperations
pub mod Valuation
pub mod JupiterLend
pub mod Encoding
pub mod Lending
