-- ===== src/Tests/Brief.antt =====
-- A program for the translators: it loads 7 into x17 and calls, and the call is unknown.
use jit_research.Base.{
  Ensures-ok, ℕ, ◌+◌, ◌-◌, ◌%◌, ◌^◌, ◌≤◌, ◌<◌, ◌≡◌, ◌⊎◌, refl, sym, ap, ◌∙◌, arith, true, false,
  List, [], length, some, ok, fail, Failure, ok-injective, ◌==◌, if◌then◌else◌, Bool-cases, inl,
  inr,
}
use mathlib.Core.Path.{subst}
use jit_research.Isa.Word.{plus, get_mask, ones, word_size}
use jit_research.Isa.Opcode
use jit_research.Isa.Opcode.{changes_pc, is_terminator}
use jit_research.Isa.Decode.{Instruction, decode, switch, i_type, rs1_field, rd_field, i_imm}
use jit_research.Isa.Decode.Bounds.{decode-IsWellFormed, IsWellFormed}
use jit_research.Memory.{MemoryOps, KeepsWidths, byte, half, word, read, write}
use jit_research.CpuState.{CpuState, new, set_reg, set_pc, get_reg, emulate_sys_call}
use jit_research.CpuState.Valid.{new-IsValid}
use jit_research.Engine.{count_one}
use jit_research.Engine.Valid.{count_one-IsSound}
use jit_research.Interpreter.{execute, handler}
use jit_research.Interpreter.Handlers.{do_addi, do_ecall, register_imm_op}
use jit_research.Interpreter.Valid.{IsSound, execute-IsSound}
use jit_research.Jit.Blocks.{Program, IsLine}
use jit_research.Tests.Machine.{call, decode-call}

abbrev pub seven : Instruction
seven = record { opcode = Opcode.addi; rs1 = 0; rs2 = 0; rd = 17; imm = 7 }

abbrev word_at : ℕ → ℕ
word_at addr = if addr == 0 then 0x00700893 else 0x73

abbrev pub code_at : ℕ → Instruction
code_at addr = if addr == 0 then seven else call

abbrev pub rom : MemoryOps (Unit {0})
rom = record {
  write_block = λ src addr m. ok m;
  read_block = λ addr count m. ok [];
  read8 = λ addr m. ok 0;
  read16 = λ addr m. ok 0;
  read32 = λ addr m. ok (word_at addr);
  write8 = λ addr val m. ok m;
  write16 = λ addr val m. ok m;
  write32 = λ addr val m. ok m;
}

abbrev pub Any : Unit {0} → Type 0
Any m = Unit

pub rom-KeepsWidths : KeepsWidths rom Any
unfolding read write
rom-KeepsWidths = record {
  read_lt = elim [
    | byte ↦ λ addr m h. omega arith
    | half ↦ λ addr m h. omega arith
    | word ↦ λ addr m h. ground arith
  ];
  write_keeps = elim [
    | byte ↦ λ addr val m h lt. tt
    | half ↦ λ addr val m h lt. tt
    | word ↦ λ addr val m h lt. tt
  ];
}

decode-seven : decode 0x00700893 ≡ some seven
unfolding decode switch i_type rs1_field rd_field i_imm get_mask ones
decode-seven = refl

pub seven-IsWellFormed : IsWellFormed seven
seven-IsWellFormed = decode-IsWellFormed 0x00700893 seven decode-seven

pub call-IsWellFormed : IsWellFormed call
call-IsWellFormed = decode-IsWellFormed 0x73 call decode-call

abbrev pub first : CpuState (Unit {0})
first = new tt

abbrev loaded : CpuState (Unit {0})
loaded = set_pc 4 (set_reg 17 7 (new tt))

abbrev pub second : CpuState (Unit {0})
second = count_one loaded

execute-first : execute rom seven first ≡ ok loaded
unfolding execute handler do_addi register_imm_op get_reg set_reg set_pc new changes_pc
execute-first = refl

execute-second : execute rom call second ≡ fail (Failure.unknown_syscall 7)
unfolding execute handler do_ecall emulate_sys_call set_reg set_pc new changes_pc
execute-second = refl

pub first-IsSound : IsSound Any first
first-IsSound = (new-IsValid tt, tt)

second-IsSound : IsSound Any second
second-IsSound = count_one-IsSound Any rom rom-KeepsWidths loaded (
    Ensures-ok (IsSound Any) execute-first
      (execute-IsSound Any seven seven-IsWellFormed first first-IsSound rom rom-KeepsWidths))

-- The two states that the program reaches before it throws.
abbrev pub Reached : CpuState (Unit {0}) → Type 0
Reached s = (s ≡ first) ⊎ (s ≡ second)

pub Reached-IsSound : (s : CpuState (Unit {0})) → Reached s → IsSound Any s
Reached-IsSound s (inl e) = subst (IsSound Any) (sym e) first-IsSound
Reached-IsSound s (inr e) = subst (IsSound Any) (sym e) second-IsSound

pub rom-in_memory :
    (addr : ℕ)
    → (bytes : ℕ) × (read rom word addr tt ≡ ok bytes) × (decode bytes ≡ some (code_at addr))
unfolding read
rom-in_memory addr = (
  word_at addr,
  refl,
  elim (Bool-cases (addr == 0)) [ inl e ↦ rw e decode-seven | inr e ↦ rw e decode-call ],
)

first-next :
    (s' : CpuState (Unit {0}))
    → execute rom (code_at first.pc) first ≡ ok s'
    → Reached (count_one s')
unfolding new
first-next s' e = inr (ap count_one (sym (ok-injective (sym execute-first ∙ e))))

second-next :
    (s' : CpuState (Unit {0}))
    → execute rom (code_at second.pc) second ≡ ok s'
    → Reached (count_one s')
unfolding set_pc
second-next s' e = let impossible = sym execute-second ∙ e in cc

pub Reached-keeps :
    (s s' : CpuState (Unit {0}))
    → Reached s
    → execute rom (code_at s.pc) s ≡ ok s'
    → Reached (count_one s')
Reached-keeps s s' (inl r) e = first-next s' (subst (λ t. execute rom (code_at t.pc) t ≡ ok s') r e)
Reached-keeps s s' (inr r) e =
    second-next s' (subst (λ t. execute rom (code_at t.pc) t ≡ ok s') r e)

pub Reached-aligned : (s : CpuState (Unit {0})) → Reached s → (s.pc % word_size == 0) ≡ true
unfolding new set_pc
Reached-aligned s (inl r) = rw r refl
Reached-aligned s (inr r) = rw r refl

abbrev pub brief : Program rom
brief = record {
  Code = λ addr. Unit {0};
  code = code_at;
  Inv = Reached;
  aligned = Reached-aligned;
  at_code = λ s h. tt;
  in_memory = λ s addr h c. rom-in_memory addr;
  follows = λ addr c t. tt;
  keeps = Reached-keeps;
}

call-terminates : is_terminator call.opcode ≡ ok true
unfolding is_terminator
call-terminates = refl

-- No block of the program has more than two instructions.
call-line :
    (addr : ℕ) (ns : List Instruction)
    → (addr == 0) ≡ false
    → IsLine rom brief addr ns
    → length ns ≤ 1
call-line addr ns e (IsLine.last c q) = omega arith
call-line addr ns e (IsLine.next c q t l) =
    let ends : is_terminator (code_at addr).opcode ≡ ok true = rw e call-terminates in
    let impossible = sym ends ∙ ap (λ n. is_terminator n.opcode) (sym q) ∙ t in cc

pub brief-line :
    (addr : ℕ) (ns : List Instruction)
    → addr < 2 ^ 32 - 4
    → IsLine rom brief addr ns
    → length ns ≤ 2
brief-line addr ns lt (IsLine.last c q) = omega arith
brief-line addr ns lt (IsLine.next c q t l) =
    let short = call-line (plus addr word_size) _ (ground (arith, lt)) l in omega (arith, short)

pub brief-no_carry :
    (s : CpuState (Unit {0})) (ns : List Instruction)
    → Reached s
    → IsLine rom brief s.pc ns
    → s.icount % 2 ^ 32 + length ns < 2 ^ 32
unfolding new set_pc set_reg
brief-no_carry s ns (inl r) l =
    let short : length ns ≤ 2 =
      brief-line 0 ns (omega arith) (subst (λ t. IsLine rom brief t.pc ns) r l) in
    rw r (omega (arith, short))
brief-no_carry s ns (inr r) l =
    let short : length ns ≤ 2 =
      brief-line 4 ns (omega arith) (subst (λ t. IsLine rom brief t.pc ns) r l) in
    rw r (omega (arith, short))
