-- ===== src/Tests.antt =====
-- Concrete inputs: tests of the definitions, and the theorems applied where their hypotheses hold.
pub mod Chain
pub mod Accounts
pub mod Yield
pub mod Worlds
pub mod Payment
pub mod Signup
pub mod Wallets
pub mod Vaults
pub mod Numbers
pub mod Pools
pub mod Derived
pub mod Registries
pub mod Funds
pub mod Trips
pub mod Targets
