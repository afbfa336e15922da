-- ===== src/Vm/Invariants.antt =====
pub mod Operators
pub mod Captures
pub mod Calls
pub mod Instructions
pub mod Runs
