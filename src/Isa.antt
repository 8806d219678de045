-- ===== src/Isa.antt =====
-- The instruction set: src/isa/include/prot/isa.hh and src/isa/isa.cc.
pub mod Word
pub mod Opcode
pub mod Decode
