-- ===== src/Crown.antt =====
-- scripts/verify-final-crown.py: the independent crown verifier. This file has what its courts
-- share; each court is a child module, and `Verify` runs them all.
pub mod World
pub mod Evidence
pub mod Identity
pub mod Powl
pub mod Rails
pub mod Commands
pub mod Receipts
pub mod Global
pub mod Sabotage
pub mod Verify
mod Examples
