-- ===== src/Translators.antt =====
-- The translators of src/jit: what the code does that each of them emits through its library.
pub mod Emit
pub mod LowCount
pub mod Faithful
pub mod Access
pub mod Llvm
pub mod Ir
pub mod X86
pub mod Xbyak
pub mod Asmjit
pub mod Mir
pub mod Lightning
