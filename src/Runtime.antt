-- ===== src/Runtime.antt =====
-- What the program runs on: results and errors, machine integers, the token program's accounts, and
-- Anchor's accounts and checks, with the laws that the proofs rely on.
pub mod Result
pub mod Word
pub mod Token
pub mod Anchor
pub mod Laws
