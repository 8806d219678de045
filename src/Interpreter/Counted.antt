-- ===== src/Interpreter/Counted.antt =====
-- No instruction reads or changes the count of instructions.
use jit_research.Base.{
  ℕ, ◌%◌, ◌≡◌, refl, sym, ◌∙◌, Bool, true, false, Bool-cases, inl, inr, Outcome, ok, ◌>>=◌,
  >>=_assoc, >>=-congr, ◌==◌, Outcome-cases, get_or,
}
use jit_research.Isa.Word.{plus, word_size}
use jit_research.Isa.Opcode.{Opcode, changes_pc}
use jit_research.Isa.Decode.{Instruction}
use jit_research.Memory.{MemoryOps, Width, byte, half, word, width_mod, read, write}
use jit_research.CpuState.{CpuState, get_reg, set_reg, set_pc, emulate_sys_call}
use jit_research.Interpreter.{handler, execute}
use jit_research.Interpreter.Handlers.{
  register_register_op, register_imm_op, br_helper, do_add, do_addi, do_and, do_andi, do_auipc,
  do_beq, do_bge, do_bgeu, do_blt, do_bltu, do_bne, do_ebreak, do_ecall, do_fence, do_jal, do_jalr,
  do_lui, do_or, do_ori, do_pause, do_sbreak, do_scall, do_sll, do_slli, do_slt, do_slti, do_sltiu,
  do_sltu, do_sra, do_srai, do_srl, do_srli, do_sub, do_xor, do_xori,
}
use jit_research.Interpreter.Accesses.{
  load_helper, store_helper, do_lb, do_lbu, do_lh, do_lhu, do_lw, do_sb, do_sh, do_sw,
}

abbrev pub with_count : {M : Type 0} → ℕ → CpuState M → CpuState M
with_count c s = record s { icount = c }

set_reg-with_count :
    {M : Type 0} (id val c : ℕ) (s : CpuState M)
    → set_reg id val (with_count c s) ≡ with_count c (set_reg id val s)
unfolding set_reg
set_reg-with_count id val c s = elim (Bool-cases (id == 0)) [
  | inl e ↦ rw e refl
  | inr e ↦ rw e refl
]

module _ {M : Type 0} (mem : MemoryOps M) (n : Instruction) (c : ℕ) (s : CpuState M) where
  set-with_count :
      (id val : ℕ)
      → ◌≡◌ {A = Outcome (CpuState M)}
          (ok (set_reg id val (with_count c s)))
          (ok (with_count c (set_reg id val s)))
  set-with_count id val = rw (set_reg-with_count id val c s) refl

  jal-with_count : do_jal n (with_count c s) ≡ (do_jal n s >>= λ t. ok (with_count c t))
  unfolding do_jal set_pc
  jal-with_count = rw (set_reg-with_count n.rd (plus s.pc word_size) c s) refl

  jalr-with_count : do_jalr n (with_count c s) ≡ (do_jalr n s >>= λ t. ok (with_count c t))
  unfolding do_jalr set_pc get_reg
  jalr-with_count = rw (set_reg-with_count n.rd (plus s.pc word_size) c (set_pc _ s)) refl

  ecall-with_count : do_ecall n (with_count c s) ≡ (do_ecall n s >>= λ t. ok (with_count c t))
  unfolding do_ecall emulate_sys_call
  ecall-with_count = elim (Bool-cases (get_or s.regs 17 0 == 93)) [
    | inl e ↦ rw e refl
    | inr e ↦ rw e refl
  ]

  load-with_count :
      (width : Width) (is_signed : Bool)
      → load_helper mem width is_signed n (with_count c s)
        ≡ (load_helper mem width is_signed n s >>= λ t. ok (with_count c t))
  unfolding load_helper get_reg
  load-with_count width is_signed =
      elim (Outcome-cases (read mem width (plus (get_or s.regs n.rs1 0) n.imm) s.memory)) [
        | inl (v, e) ↦ rw e (set-with_count n.rd _)
        | inr (f, e) ↦ rw e refl
      ]

  store-with_count :
      (width : Width)
      → store_helper mem width n (with_count c s)
        ≡ (store_helper mem width n s >>= λ t. ok (with_count c t))
  unfolding store_helper get_reg
  store-with_count width = sym (
      >>=_assoc
        (write mem width (plus (get_or s.regs n.rs1 0) n.imm)
          (get_or s.regs n.rs2 0 % width_mod width) s.memory)
        (λ (m : M). ok (record s { memory = m })) (λ t. ok (with_count c t)))

  handler-with_count :
      (op : Opcode)
      → handler mem op n (with_count c s) ≡ (handler mem op n s >>= λ t. ok (with_count c t))
  unfolding handler register_register_op register_imm_op br_helper do_add do_addi do_and do_andi
      do_auipc do_beq do_bge do_bgeu do_blt do_bltu do_bne do_ebreak do_fence do_lb do_lbu do_lh
      do_lhu do_lui do_lw do_or do_ori do_pause do_sb do_sbreak do_scall do_sh do_sll do_slli do_slt
      do_slti do_sltiu do_sltu do_sra do_srai do_srl do_srli do_sub do_sw do_xor do_xori get_reg
      set_pc
  handler-with_count Opcode.add = set-with_count _ _
  handler-with_count Opcode.addi = set-with_count _ _
  handler-with_count Opcode.and = set-with_count _ _
  handler-with_count Opcode.andi = set-with_count _ _
  handler-with_count Opcode.auipc = set-with_count _ _
  handler-with_count Opcode.beq = refl
  handler-with_count Opcode.bge = refl
  handler-with_count Opcode.bgeu = refl
  handler-with_count Opcode.blt = refl
  handler-with_count Opcode.bltu = refl
  handler-with_count Opcode.bne = refl
  handler-with_count Opcode.ebreak = refl
  handler-with_count Opcode.ecall = ecall-with_count
  handler-with_count Opcode.fence = refl
  handler-with_count Opcode.jal = jal-with_count
  handler-with_count Opcode.jalr = jalr-with_count
  handler-with_count Opcode.lb = load-with_count byte true
  handler-with_count Opcode.lbu = load-with_count byte false
  handler-with_count Opcode.lh = load-with_count half true
  handler-with_count Opcode.lhu = load-with_count half false
  handler-with_count Opcode.lui = set-with_count _ _
  handler-with_count Opcode.lw = load-with_count word false
  handler-with_count Opcode.or = set-with_count _ _
  handler-with_count Opcode.ori = set-with_count _ _
  handler-with_count Opcode.pause = refl
  handler-with_count Opcode.sb = store-with_count byte
  handler-with_count Opcode.sbreak = refl
  handler-with_count Opcode.scall = refl
  handler-with_count Opcode.sh = store-with_count half
  handler-with_count Opcode.sll = set-with_count _ _
  handler-with_count Opcode.slli = set-with_count _ _
  handler-with_count Opcode.slt = set-with_count _ _
  handler-with_count Opcode.slti = set-with_count _ _
  handler-with_count Opcode.sltiu = set-with_count _ _
  handler-with_count Opcode.sltu = set-with_count _ _
  handler-with_count Opcode.sra = set-with_count _ _
  handler-with_count Opcode.srai = set-with_count _ _
  handler-with_count Opcode.srl = set-with_count _ _
  handler-with_count Opcode.srli = set-with_count _ _
  handler-with_count Opcode.sub = set-with_count _ _
  handler-with_count Opcode.sw = store-with_count word
  handler-with_count Opcode.xor = set-with_count _ _
  handler-with_count Opcode.xori = set-with_count _ _
  handler-with_count Opcode.num_opcodes = refl

  pub execute-with_count :
      execute mem n (with_count c s) ≡ (execute mem n s >>= λ t. ok (with_count c t))
  unfolding execute set_pc
  execute-with_count =
      rw (handler-with_count n.opcode, >>=_assoc)
        (>>=-congr (handler mem n.opcode n s) _ _ λ t. sym (
          >>=_assoc (changes_pc n.opcode) _ _
          ∙ >>=-congr (changes_pc n.opcode) _ _ (elim [ true ↦ refl | false ↦ refl ])))
      ∙ sym (>>=_assoc (handler mem n.opcode n s) _ _)
