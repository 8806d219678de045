-- ===== src/Lib.antt =====
-- A model of JitResearch: an RV32I simulator that interprets or translates guest code.
--
-- The program. The ISA part (src/isa) decodes instruction words. A hart (src/hart) owns a memory
-- (src/memory) and a CPU state (src/cpu_state), is loaded from an ELF file (src/elf_loader) and runs an
-- execution engine (src/exec_engine). The interpreter (src/interpreter) is the engine that fetches,
-- decodes and executes one instruction in each step. The JIT engine (src/jit/base) collects basic
-- blocks, interprets each until it is hot, and then runs the function that a translator made of it,
-- which it finds again through a direct-mapped cache.
--
-- The files.
--   Base            names that all share, lists over native numbers, bit operations, integers, and
--                   Outcome: how a C++ call ends (a value, an exception, undefined behaviour)
--   Isa             isa/include/prot/isa.hh and isa/isa.cc: Isa/Word has slice, signExtend, signedLess
--                   and the word operations, Isa/Opcode the opcodes and isTerminator, changesPC,
--                   getName, Isa/Decode the decoder, a table of cases for each switch of the source
--   Memory          memory.hh: the virtual methods as a record MemoryOps, read<T>, write<T>, fillBlock;
--                   Memory/Plain is plain_memory.cc, Memory/Paged simple_page_mem.cc, and
--                   Memory/Inherited the default accessors of the base class
--   CpuState        cpu_state.hh and cpu_state.cc; a field of the state holds the memory
--   Interpreter     interp.cc: a handler do_add for each doADD, the table, and execute
--   Engine          ExecEngine::step and Hart::run
--   Jit             JitEngine: collect, interpret, round and step; Jit/Cache is TbCache,
--                   Jit/Factory JitFactory, Jit/CodeHolder CodeHolder
--   Translators     what the translators of src/jit emit: Translators/Emit is the loop over a block that
--                   all of them have, Translators/Access the CPU state that emitted code reaches and the
--                   helpers that it calls, Translators/Faithful the way from instructions to the engine.
--                   Llvm is jit/llvm (and jit/tpde, which compiles the same module), Ir jit/ir/ir.cc,
--                   Xbyak jit/xbyak/xbyak.cc, Asmjit jit/asmjit/asmjit.cc, Mir jit/mir/mir.cc and
--                   Lightning jit/lightning/lightning.cc. In each, a function for every macro or case of
--                   the source, build for its switch, Correct with a lemma for each of these, and Refines;
--                   Ir/Link is on the order of the writes in the JALR of jit/ir/ir.cc
--   Loader, Hart    elf_loader.cc and hart.cc
--   Tests           runs and instances at concrete inputs
--
-- How code is modelled. A word is a native number below 2 ^ 32, and arithmetic on it is written out with
-- its wrap-around. A register file is a list of 32 words. A function that changes the CPU state or a
-- memory takes it and returns it. What C++ leaves undefined (a failed assertion, an access out of
-- range) is a failure of its own, so that no theorem on a result relies on it.
--
-- Fuel. Hart::run and the loop of JitEngine::step have a round of fuel for each turn, and a program may
-- run for ever. The collection of a block has a round for each instruction, and the instructions up to
-- the one that ends the block are enough. All other loops are structural.
--
-- Parameters. ELFIO is a record of what its accessors return. A translator is any function from a block
-- to code, and code is any function on CPU states: what the engine relies on is the record IsFaithful.
-- A program that does not modify its code is the record Program. Of the translators, the libraries are
-- parameters: a record of what running an instruction of the library does (Llvm, Ir, X86, Mir,
-- Lightning), with a record of laws from its manual, and a function from what was emitted to code,
-- which may throw. A function of the source that emits is modelled by what running the emitted code
-- does; machine registers are variables, or a state of their own where they live through a block.
--
-- Not modelled: how the libraries allocate registers and code memory, the names under which helpers are
-- registered with them, the optimisation passes of llvmbasedjit.cc, the printing of states, the command
-- line of tools/sim, benchmarks and build files.
pub mod Base
pub mod Isa
pub mod Memory
pub mod CpuState
pub mod Interpreter
pub mod Engine
pub mod Jit
pub mod Translators
pub mod Loader
pub mod Hart
pub mod Tests
