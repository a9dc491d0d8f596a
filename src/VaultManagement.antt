-- ===== src/VaultManagement.antt =====
-- programs/subscription-protocol/src/instructions/vault_management: one module for each instruction.
pub mod SetEmergencyMode
pub mod RebalanceVault
pub mod Rebalancing
pub mod Target
pub mod Emergency
