-- ===== src/Vm.antt =====
-- The virtual machine of src/vm.hpp and src/vm.cpp, and the printing of values in src/value.cpp.
pub mod State
pub mod Print
pub mod Captures
pub mod Operators
pub mod Properties
pub mod Calls
pub mod Instructions
pub mod Run
pub mod Keeps
pub mod Actions
pub mod Invariants
pub mod Evolves
pub mod Writes
pub mod Live
pub mod Halts
pub mod HeapSound
pub mod Emitted
pub mod Closing
pub mod Returns
pub mod Inherits
pub mod Called
pub mod Assigns
pub mod Shares
