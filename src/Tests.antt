-- ===== src/Tests.antt =====
-- Runs of the definitions on concrete inputs, and the theorems at such inputs.
mod Sources
mod ScannerTests
mod CompilerTests
mod VmTests
mod Witnesses
mod VmWitnesses
mod InstructionWitnesses
mod EmittedWitnesses
