-- ===== src/Interpreter/Valid.antt =====
-- Executing an instruction keeps the CPU state and the memory well-formed.
use jit_research.Base.{
  Ensures, >>=-Ensures, any-Ensures, ℕ, ◌*◌, ◌%◌, ◌<◌, ◌≤◌, ◌≡◌, arith, Bool, true, false, ltb, leb,
  if◌then◌else◌, ◌==◌, not,
}
use jit_research.Base.Bits.{bit_and-lt, bit_or-lt, bit_xor-lt}
use jit_research.Isa.Word.{plus, minus, word_mod, signed_less, sign_extend}
use jit_research.Isa.Word.Signs.{sar-lt, sign_extend-lt}
use jit_research.Isa.Opcode.{Opcode, changes_pc}
use jit_research.Isa.Decode.{Instruction}
use jit_research.Isa.Decode.Bounds.{IsWellFormed}
use jit_research.Memory.{KeepsWidths, MemoryOps, Width, byte, half, word, width_mod, size_of}
use jit_research.CpuState.{CpuState, num_regs, get_reg, set_reg, set_pc}
use jit_research.CpuState.Valid.{IsValid, set_reg-IsValid, set_pc-IsValid, emulate_sys_call-IsValid}
use jit_research.Interpreter.{handler, execute}
use jit_research.Interpreter.Handlers.{
  bool_word, sll_helper, srl_helper, sra_helper, register_register_op, register_imm_op, br_helper,
  do_add, do_addi, do_and, do_andi, do_auipc, do_beq, do_bge, do_bgeu, do_blt, do_bltu, do_bne,
  do_ebreak, do_ecall, do_fence, do_jal, do_jalr, do_lui, do_or, do_ori, do_pause, do_sbreak,
  do_scall, do_sll, do_slli, do_slt, do_slti, do_sltiu, do_sltu, do_sra, do_srai, do_srl, do_srli,
  do_sub, do_xor, do_xori,
}
use jit_research.Interpreter.Accesses.{
  load_helper, store_helper, do_lb, do_lbu, do_lh, do_lhu, do_lw, do_sb, do_sh, do_sw,
}

plus-lt : (a b : ℕ) → a < word_mod → b < word_mod → plus a b < word_mod
plus-lt a b p q = omega arith

minus-lt : (a b : ℕ) → a < word_mod → b < word_mod → minus a b < word_mod
minus-lt a b p q = omega arith

sll_helper-lt : (a b : ℕ) → a < word_mod → b < word_mod → sll_helper a b < word_mod
unfolding sll_helper
sll_helper-lt a b p q = omega arith

srl_helper-lt : (a b : ℕ) → a < word_mod → b < word_mod → srl_helper a b < word_mod
unfolding srl_helper
srl_helper-lt a b p q = omega arith

sra_helper-lt : (a b : ℕ) → a < word_mod → b < word_mod → sra_helper a b < word_mod
unfolding sra_helper
sra_helper-lt a b p q = sar-lt a _

bool_word-lt : (b : Bool) → bool_word b < word_mod
bool_word-lt true = omega arith
bool_word-lt false = omega arith

pub set_reg-memory :
    {M : Type 0} (id val : ℕ) (s : CpuState M) → (set_reg id val s).memory ≡ s.memory
unfolding set_reg
set_reg-memory id val s = ground arith

width_mod-le : (width : Width) → width_mod width ≤ word_mod
width_mod-le byte = omega arith
width_mod-le half = omega arith
width_mod-le word = omega arith

mod-width-lt : (width : Width) (v : ℕ) → v % width_mod width < width_mod width
mod-width-lt byte v = omega arith
mod-width-lt half v = omega arith
mod-width-lt word v = omega arith

extended-lt :
    (width : Width) (is_signed : Bool) (v : ℕ)
    → v < width_mod width
    → (if is_signed then sign_extend 32 32 (8 * size_of width) v else v) < word_mod
extended-lt width true v lt =
    sign_extend-lt (8 * size_of width) v (omega (arith, width_mod-le width))
extended-lt width false v lt = omega (arith, width_mod-le width)

module _ {M : Type 0} (Inv : M → Type 0) where
  -- The state and its memory.
  abbrev pub IsSound : CpuState M → Type 0
  IsSound s = IsValid s × Inv s.memory

  get_reg-lt : (r : ℕ) (s : CpuState M) → IsSound s → get_reg r s < word_mod
  unfolding get_reg
  get_reg-lt r s h = h.0.words r

  pub set_reg-IsSound :
      (id val : ℕ) (s : CpuState M)
      → id < num_regs
      → val < word_mod
      → IsSound s
      → IsSound (set_reg id val s)
  set_reg-IsSound id val s hi hv h = (set_reg-IsValid id val s hi hv h.0, rw set_reg-memory h.1)

  module _ (n : Instruction) (wf : IsWellFormed n) (s : CpuState M) (h : IsSound s) where
    rr-IsSound :
        (op : ℕ → ℕ → ℕ)
        → ((a b : ℕ) → a < word_mod → b < word_mod → op a b < word_mod)
        → Ensures IsSound (register_register_op op n s)
    unfolding register_register_op
    rr-IsSound op lt =
        set_reg-IsSound n.rd _ s wf.rd_lt (lt _ _ (get_reg-lt n.rs1 s h) (get_reg-lt n.rs2 s h)) h

    ri-IsSound :
        (op : ℕ → ℕ → ℕ)
        → ((a b : ℕ) → a < word_mod → b < word_mod → op a b < word_mod)
        → Ensures IsSound (register_imm_op op n s)
    unfolding register_imm_op
    ri-IsSound op lt = set_reg-IsSound n.rd _ s wf.rd_lt (lt _ _ (get_reg-lt n.rs1 s h) wf.imm_lt) h

    br-IsSound : (cond : ℕ → ℕ → Bool) → Ensures IsSound (br_helper cond n s)
    unfolding br_helper set_pc
    br-IsSound cond = (set_pc-IsValid _ s (omega arith) h.0, h.1)

    auipc-IsSound : Ensures IsSound (do_auipc n s)
    unfolding do_auipc
    auipc-IsSound = set_reg-IsSound n.rd _ s wf.rd_lt (omega arith) h

    lui-IsSound : Ensures IsSound (do_lui n s)
    unfolding do_lui
    lui-IsSound = set_reg-IsSound n.rd _ s wf.rd_lt wf.imm_lt h

    set_pc-IsSound : (pc : ℕ) (t : CpuState M) → pc < word_mod → IsSound t → IsSound (set_pc pc t)
    unfolding set_pc
    set_pc-IsSound pc t hp ht = (set_pc-IsValid pc t hp ht.0, ht.1)

    jal-IsSound : Ensures IsSound (do_jal n s)
    unfolding do_jal
    jal-IsSound =
        set_pc-IsSound _ _ (omega arith) (set_reg-IsSound n.rd _ s wf.rd_lt (omega arith) h)

    jalr-IsSound : Ensures IsSound (do_jalr n s)
    unfolding do_jalr
    jalr-IsSound =
        set_reg-IsSound n.rd _ _ wf.rd_lt (omega arith) (set_pc-IsSound _ s (omega arith) h)

    ecall-IsSound : Ensures IsSound (do_ecall n s)
    unfolding do_ecall
    ecall-IsSound = emulate_sys_call-IsValid Inv s h.0 h.1

    module _ (mem : MemoryOps M) (keeps : KeepsWidths mem Inv) where
      load-IsSound :
          (width : Width) (is_signed : Bool) → Ensures IsSound (load_helper mem width is_signed n s)
      unfolding load_helper
      load-IsSound width is_signed =
          >>=-Ensures (λ v. v < width_mod width) IsSound _ _ (keeps.read_lt width _ s.memory h.1)
            λ v lt. set_reg-IsSound n.rd _ s wf.rd_lt (extended-lt width is_signed v lt) h

      store-IsSound : (width : Width) → Ensures IsSound (store_helper mem width n s)
      unfolding store_helper
      store-IsSound width =
          >>=-Ensures Inv IsSound _ _
            (keeps.write_keeps width _ _ s.memory h.1 (mod-width-lt width _))
            λ m hm. (
              record {
                count = h.0.count;
                words = h.0.words;
                x0 = h.0.x0;
                pc_word = h.0.pc_word;
                icount_long = h.0.icount_long;
                exit_word = h.0.exit_word;
              },
              hm,
            )

      handler-IsSound : (op : Opcode) → Ensures IsSound (handler mem op n s)
      unfolding handler do_add do_addi do_and do_andi do_beq do_bge do_bgeu do_blt do_bltu do_bne
          do_ebreak do_fence do_lb do_lbu do_lh do_lhu do_lw do_or do_ori do_pause do_sb do_sbreak
          do_scall do_sh do_sll do_slli do_slt do_slti do_sltiu do_sltu do_sra do_srai do_srl
          do_srli do_sub do_sw do_xor do_xori
      handler-IsSound Opcode.add = rr-IsSound _ plus-lt
      handler-IsSound Opcode.addi = ri-IsSound _ plus-lt
      handler-IsSound Opcode.and = rr-IsSound _ (bit_and-lt 32)
      handler-IsSound Opcode.andi = ri-IsSound _ (bit_and-lt 32)
      handler-IsSound Opcode.auipc = auipc-IsSound
      handler-IsSound Opcode.beq = br-IsSound ◌==◌
      handler-IsSound Opcode.bge = br-IsSound (λ a b. not (signed_less a b))
      handler-IsSound Opcode.bgeu = br-IsSound (λ a b. leb b a)
      handler-IsSound Opcode.blt = br-IsSound signed_less
      handler-IsSound Opcode.bltu = br-IsSound ltb
      handler-IsSound Opcode.bne = br-IsSound (λ a b. not (a == b))
      handler-IsSound Opcode.ebreak = h
      handler-IsSound Opcode.ecall = ecall-IsSound
      handler-IsSound Opcode.fence = h
      handler-IsSound Opcode.jal = jal-IsSound
      handler-IsSound Opcode.jalr = jalr-IsSound
      handler-IsSound Opcode.lb = load-IsSound byte true
      handler-IsSound Opcode.lbu = load-IsSound byte false
      handler-IsSound Opcode.lh = load-IsSound half true
      handler-IsSound Opcode.lhu = load-IsSound half false
      handler-IsSound Opcode.lui = lui-IsSound
      handler-IsSound Opcode.lw = load-IsSound word false
      handler-IsSound Opcode.or = rr-IsSound _ (bit_or-lt 32)
      handler-IsSound Opcode.ori = ri-IsSound _ (bit_or-lt 32)
      handler-IsSound Opcode.pause = h
      handler-IsSound Opcode.sb = store-IsSound byte
      handler-IsSound Opcode.sbreak = h
      handler-IsSound Opcode.scall = h
      handler-IsSound Opcode.sh = store-IsSound half
      handler-IsSound Opcode.sll = rr-IsSound _ sll_helper-lt
      handler-IsSound Opcode.slli = ri-IsSound _ sll_helper-lt
      handler-IsSound Opcode.slt = rr-IsSound _ (λ a b p q. bool_word-lt (signed_less a b))
      handler-IsSound Opcode.slti = ri-IsSound _ (λ a b p q. bool_word-lt (signed_less a b))
      handler-IsSound Opcode.sltiu = ri-IsSound _ (λ a b p q. bool_word-lt (ltb a b))
      handler-IsSound Opcode.sltu = rr-IsSound _ (λ a b p q. bool_word-lt (ltb a b))
      handler-IsSound Opcode.sra = rr-IsSound _ sra_helper-lt
      handler-IsSound Opcode.srai = ri-IsSound _ sra_helper-lt
      handler-IsSound Opcode.srl = rr-IsSound _ srl_helper-lt
      handler-IsSound Opcode.srli = ri-IsSound _ srl_helper-lt
      handler-IsSound Opcode.sub = rr-IsSound _ minus-lt
      handler-IsSound Opcode.sw = store-IsSound word
      handler-IsSound Opcode.xor = rr-IsSound _ (bit_xor-lt 32)
      handler-IsSound Opcode.xori = ri-IsSound _ (bit_xor-lt 32)
      handler-IsSound Opcode.num_opcodes = tt

      -- From a well-formed state with a memory of its invariant, executing an instruction with
      -- operands in range, if it ends with a value, leaves such a state again: 32 word registers,
      -- register 0 still 0, a word as the program counter, and the memory's invariant.
      pub execute-IsSound : Ensures IsSound (execute mem n s)
      unfolding execute
      execute-IsSound = >>=-Ensures IsSound IsSound _ _ (handler-IsSound n.opcode) λ s' h'.
          >>=-Ensures (λ b. Unit {0}) IsSound (changes_pc n.opcode) _ (any-Ensures _)
            (elim [ true ↦ λ _. h' | false ↦ λ _. set_pc-IsSound _ s' (omega arith) h' ])
