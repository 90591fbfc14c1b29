-- ===== src/Conformity.antt =====
-- src/modules/conformity.
pub mod Directory
pub mod Evaluate
pub mod Invariant
pub mod Ends
pub mod Serial
pub mod Services
pub mod Histories
pub mod Verdict
pub mod Duplicates
pub mod Mismatch
mod Tests
