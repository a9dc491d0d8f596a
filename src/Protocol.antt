-- ===== src/Protocol.antt =====
-- programs/subscription-protocol/src/instructions/protocol: one module for each instruction.
pub mod InitializeProtocol
pub mod InitializeYieldVault
pub mod UpdateProtocolFee
pub mod Fees
