-- ===== src/Interpreter/Counter.antt =====
-- Only branches and jumps change the program counter before `execute` does.
use jit_research.Base.{
  Ensures, >>=-Ensures, >>=-congr-Ensures, any-Ensures, if-Ensures, ℕ, ◌≡◌, refl, ap, ◌∙◌, Bool,
  true, false, Bool-cases, inl, inr, ok, ◌>>=◌, if◌then◌else◌, ◌==◌, get_or,
}
use jit_research.Isa.Word.{plus, word_size}
use jit_research.Isa.Opcode.{Opcode, changes_pc}
use jit_research.Isa.Decode.{Instruction}
use jit_research.Memory.{MemoryOps, Width, byte, half, word, read, write}
use jit_research.CpuState.{CpuState, set_reg, set_pc, emulate_sys_call}
use jit_research.Interpreter.{handler, execute}
use jit_research.Interpreter.Handlers.{
  register_register_op, register_imm_op, do_add, do_addi, do_and, do_andi, do_auipc, do_ebreak,
  do_ecall, do_fence, do_lui, do_or, do_ori, do_pause, do_sbreak, do_scall, do_sll, do_slli, do_slt,
  do_slti, do_sltiu, do_sltu, do_sra, do_srai, do_srl, do_srli, do_sub, do_xor, do_xori,
}
use jit_research.Interpreter.Accesses.{
  load_helper, store_helper, do_lb, do_lbu, do_lh, do_lhu, do_lw, do_sb, do_sh, do_sw,
}

pub set_reg-pc : {M : Type 0} (id val : ℕ) (s : CpuState M) → (set_reg id val s).pc ≡ s.pc
unfolding set_reg
set_reg-pc id val s = elim (Bool-cases (id == 0)) [ inl e ↦ rw e refl | inr e ↦ rw e refl ]

pub set_reg-set_pc :
    {M : Type 0} (id val pc : ℕ) (s : CpuState M)
    → set_reg id val (set_pc pc s) ≡ set_pc pc (set_reg id val s)
unfolding set_reg set_pc
set_reg-set_pc id val pc s = elim (Bool-cases (id == 0)) [ inl e ↦ rw e refl | inr e ↦ rw e refl ]

module _ {M : Type 0} (mem : MemoryOps M) (n : Instruction) (s : CpuState M) where
  abbrev Keeps : CpuState M → Type 0
  Keeps t = t.pc ≡ s.pc

  ecall-pc : Ensures Keeps (do_ecall n s)
  unfolding do_ecall emulate_sys_call
  ecall-pc = if-Ensures Keeps (get_or s.regs 17 0 == 93) (ok _) _ refl tt

  load-pc : (width : Width) (is_signed : Bool) → Ensures Keeps (load_helper mem width is_signed n s)
  unfolding load_helper
  load-pc width is_signed =
      >>=-Ensures (λ v. Unit {0}) Keeps (read mem width _ s.memory) _ (any-Ensures _)
        λ v _. set_reg-pc n.rd _ s

  store-pc : (width : Width) → Ensures Keeps (store_helper mem width n s)
  unfolding store_helper
  store-pc width =
      >>=-Ensures (λ m. Unit {0}) Keeps (write mem width _ _ s.memory) _ (any-Ensures _) λ m _. refl

  pub handler-pc :
      (op : Opcode) → changes_pc op ≡ ok false → Ensures (λ t. t.pc ≡ s.pc) (handler mem op n s)
  unfolding changes_pc handler register_register_op register_imm_op do_add do_addi do_and do_andi
      do_auipc do_ebreak do_fence do_lb do_lbu do_lh do_lhu do_lui do_lw do_or do_ori do_pause do_sb
      do_sbreak do_scall do_sh do_sll do_slli do_slt do_slti do_sltiu do_sltu do_sra do_srai do_srl
      do_srli do_sub do_sw do_xor do_xori
  handler-pc Opcode.add h = set_reg-pc _ _ s
  handler-pc Opcode.addi h = set_reg-pc _ _ s
  handler-pc Opcode.and h = set_reg-pc _ _ s
  handler-pc Opcode.andi h = set_reg-pc _ _ s
  handler-pc Opcode.auipc h = set_reg-pc _ _ s
  handler-pc Opcode.beq h = cc
  handler-pc Opcode.bge h = cc
  handler-pc Opcode.bgeu h = cc
  handler-pc Opcode.blt h = cc
  handler-pc Opcode.bltu h = cc
  handler-pc Opcode.bne h = cc
  handler-pc Opcode.ebreak h = refl
  handler-pc Opcode.ecall h = ecall-pc
  handler-pc Opcode.fence h = refl
  handler-pc Opcode.jal h = cc
  handler-pc Opcode.jalr h = cc
  handler-pc Opcode.lb h = load-pc byte true
  handler-pc Opcode.lbu h = load-pc byte false
  handler-pc Opcode.lh h = load-pc half true
  handler-pc Opcode.lhu h = load-pc half false
  handler-pc Opcode.lui h = set_reg-pc _ _ s
  handler-pc Opcode.lw h = load-pc word false
  handler-pc Opcode.or h = set_reg-pc _ _ s
  handler-pc Opcode.ori h = set_reg-pc _ _ s
  handler-pc Opcode.pause h = refl
  handler-pc Opcode.sb h = store-pc byte
  handler-pc Opcode.sbreak h = refl
  handler-pc Opcode.scall h = refl
  handler-pc Opcode.sh h = store-pc half
  handler-pc Opcode.sll h = set_reg-pc _ _ s
  handler-pc Opcode.slli h = set_reg-pc _ _ s
  handler-pc Opcode.slt h = set_reg-pc _ _ s
  handler-pc Opcode.slti h = set_reg-pc _ _ s
  handler-pc Opcode.sltiu h = set_reg-pc _ _ s
  handler-pc Opcode.sltu h = set_reg-pc _ _ s
  handler-pc Opcode.sra h = set_reg-pc _ _ s
  handler-pc Opcode.srai h = set_reg-pc _ _ s
  handler-pc Opcode.srl h = set_reg-pc _ _ s
  handler-pc Opcode.srli h = set_reg-pc _ _ s
  handler-pc Opcode.sub h = set_reg-pc _ _ s
  handler-pc Opcode.sw h = store-pc word
  handler-pc Opcode.xor h = set_reg-pc _ _ s
  handler-pc Opcode.xori h = set_reg-pc _ _ s
  handler-pc Opcode.num_opcodes h = tt

  -- Code that does what the handler does, and then moves the counter on where nothing jumped.
  pub execute-handler :
      (advance : CpuState M → CpuState M)
      → ((t : CpuState M) → advance t ≡ set_pc (plus t.pc word_size) t)
      → (jumped : Bool) → changes_pc n.opcode ≡ ok jumped
      → (handler mem n.opcode n s >>= λ t. ok (if jumped then t else advance t)) ≡ execute mem n s
  unfolding execute
  execute-handler advance law true h = rw h refl
  execute-handler advance law false h = rw h (
      >>=-congr-Ensures (λ t. t.pc ≡ s.pc) (handler mem n.opcode n s) _ _ (handler-pc n.opcode h)
        λ t same. ap ok (law t ∙ ap (λ (pc : ℕ). set_pc (plus pc word_size) t) same))
