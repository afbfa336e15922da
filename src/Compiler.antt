-- ===== src/Compiler.antt =====
-- The compiler: src/compiler.cpp.
pub mod State
pub mod Variables
pub mod Functions
pub mod Expressions
pub mod Declarations
pub mod Statements
pub mod Named
pub mod Capture
pub mod Scopes
pub mod Declared
pub mod Resolution
