-- ===== src/Tests/Machine.antt =====
-- A machine with a two-instruction program in read-only memory, which loads 93 into x17 and calls.
use mathlib.Core.Option.{some-injective}
use jit_research.Base.{
  ℕ, ◌%◌, ◌≡◌, refl, sym, ap, arith, true, false, [], ◌∷◌, none, some, ok, ok-injective, ◌==◌,
  if◌then◌else◌, Bool-cases, inl, inr,
}
use jit_research.Isa.Word.{get_mask, ones}
use jit_research.Isa.Opcode
use jit_research.Isa.Opcode.{changes_pc, is_terminator}
use jit_research.Isa.Decode.{
  Instruction, decode, switch, i_type, system_type, rs1_field, rd_field, i_imm,
}
use jit_research.Memory.{MemoryOps, read, word}
use jit_research.CpuState.{CpuState}
use jit_research.Engine.{count_one}
use jit_research.Interpreter.{execute}
use jit_research.Jit.{Translator, Config, JitState, interpret_insns}
use jit_research.Jit.Cache.{Code, empty}
use jit_research.Jit.Blocks.{Program, execute-next}
use jit_research.Jit.Refines.{IsFaithful}

abbrev pub li : Instruction
li = record { opcode = Opcode.addi; rs1 = 0; rs2 = 0; rd = 17; imm = 93 }

abbrev pub call : Instruction
call = record { opcode = Opcode.ecall; rs1 = 0; rs2 = 0; rd = 0; imm = 0 }

abbrev word_at : ℕ → ℕ
word_at addr = if addr == 0 then 0x05d00893 else 0x73

abbrev pub code_at : ℕ → Instruction
code_at addr = if addr == 0 then li else call

abbrev pub rom : MemoryOps (Unit {0})
rom = record {
  write_block = λ src addr m. ok m;
  read_block = λ addr count m. ok [];
  read8 = λ addr m. ok 0;
  read16 = λ addr m. ok 0;
  read32 = λ addr m. ok (word_at addr);
  write8 = λ addr val m. ok m;
  write16 = λ addr val m. ok m;
  write32 = λ addr val m. ok m;
}

pub decode-li : decode 0x05d00893 ≡ some li
unfolding decode switch i_type rs1_field rd_field i_imm get_mask ones
decode-li = refl

pub decode-call : decode 0x73 ≡ some call
unfolding decode switch system_type
decode-call = refl

abbrev pub Aligned : CpuState (Unit {0}) → Type 0
Aligned s = (s.pc % 4 == 0) ≡ true

pub rom-in_memory :
    (addr : ℕ)
    → (bytes : ℕ) × (read rom word addr tt ≡ ok bytes) × (decode bytes ≡ some (code_at addr))
unfolding read
rom-in_memory addr = (
  word_at addr,
  refl,
  elim (Bool-cases (addr == 0)) [ inl e ↦ rw e decode-li | inr e ↦ rw e decode-call ],
)

code_at-changes_pc : (addr : ℕ) → changes_pc (code_at addr).opcode ≡ ok false
unfolding changes_pc
code_at-changes_pc addr = elim (Bool-cases (addr == 0)) [ inl e ↦ rw e refl | inr e ↦ rw e refl ]

pub rom-keeps :
    (s s' : CpuState (Unit {0}))
    → Aligned s
    → execute rom (code_at s.pc) s ≡ ok s'
    → Aligned (count_one s')
rom-keeps s s' h e =
    let next = execute-next rom (code_at s.pc) s s' (code_at-changes_pc s.pc) e in
    rw next (ground arith)

abbrev pub program : Program rom
program = record {
  Code = λ addr. Unit {0};
  code = code_at;
  Inv = Aligned;
  aligned = λ s h. h;
  at_code = λ s h. tt;
  in_memory = λ s addr h c. rom-in_memory addr;
  follows = λ addr c t. tt;
  keeps = rom-keeps;
}

-- A translator whose code interprets the block.
abbrev pub translator : Translator (Unit {0})
translator = record { translate = λ info. ok (some (interpret_insns rom info.insns)) }

pub translator-IsFaithful : IsFaithful rom program translator
translator-IsFaithful = record {
  same = λ info code e s h l.
      ap (λ (f : Code (Unit {0})). f s) (sym (some-injective _ code (ok-injective e)));
}

abbrev pub hot : Config
hot = record { exec_threshold = 0; single_step = false }

abbrev pub start : CpuState (Unit {0})
start = record {
  regs =
      0 ∷ 0 ∷ 0 ∷ 0 ∷ 0 ∷ 0 ∷ 0 ∷ 0 ∷ 0 ∷ 0 ∷ 7 ∷ 0 ∷ 0 ∷ 0 ∷ 0 ∷ 0 ∷ 0 ∷ 0 ∷ 0 ∷ 0 ∷ 0 ∷ 0 ∷ 0 ∷ 0
      ∷ 0 ∷ 0 ∷ 0 ∷ 0 ∷ 0 ∷ 0 ∷ 0 ∷ 0 ∷ [];
  pc = 0;
  finished = false;
  memory = tt;
  icount = 0;
  exit_code = 0;
}

-- The engine before its first round.
abbrev pub fresh : JitState (Unit {0})
fresh = record { tb_cache = empty; cache_bb = λ addr. none }
