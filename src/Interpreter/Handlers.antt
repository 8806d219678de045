-- ===== src/Interpreter/Handlers.antt =====
-- The handlers of src/interpreter/interp.cc that work on registers and the program counter.
use jit_research.Base.{
  ℕ, ◌*◌, ◌/◌, ◌^◌, Bool, true, false, not, bit_and, bit_or, bit_xor, Outcome, ok, ◌==◌, ltb, leb,
  if◌then◌else◌,
}
use jit_research.Isa.Word.{plus, minus, word_size, to_word, slice, signed_less, sar}
use jit_research.Isa.Decode.{Instruction}
use jit_research.CpuState.{CpuState, get_reg, set_reg, set_pc, emulate_sys_call}

-- The conversion of a `bool` to a word.
abbrev pub bool_word : Bool → ℕ
bool_word true = 1
bool_word false = 0

-- `sllHelper`, `srlHelper` and `sraHelper`: the shift amount is the low five bits.
unfoldable pub sll_helper : ℕ → ℕ → ℕ
sll_helper lhs rhs = to_word (lhs * 2 ^ slice 32 4 0 rhs)

unfoldable pub srl_helper : ℕ → ℕ → ℕ
srl_helper lhs rhs = lhs / 2 ^ slice 32 4 0 rhs

unfoldable pub sra_helper : ℕ → ℕ → ℕ
sra_helper lhs rhs = sar lhs (slice 32 4 0 rhs)

module _ {M : Type 0} where
  -- `executeRegisterRegisterOp` and `executeRegisterImmOp`
  unfoldable pub register_register_op :
      (ℕ → ℕ → ℕ) → Instruction → CpuState M → Outcome (CpuState M)
  register_register_op op n s = ok (set_reg n.rd (op (get_reg n.rs1 s) (get_reg n.rs2 s)) s)

  unfoldable pub register_imm_op : (ℕ → ℕ → ℕ) → Instruction → CpuState M → Outcome (CpuState M)
  register_imm_op op n s = ok (set_reg n.rd (op (get_reg n.rs1 s) n.imm) s)

  -- `brHelper`
  unfoldable pub br_helper : (ℕ → ℕ → Bool) → Instruction → CpuState M → Outcome (CpuState M)
  br_helper cond n s =
      let offset = if cond (get_reg n.rs1 s) (get_reg n.rs2 s) then n.imm else word_size in
      ok (set_pc (plus s.pc offset) s)

  unfoldable pub do_add : Instruction → CpuState M → Outcome (CpuState M)
  unfolding register_register_op
  do_add n s = register_register_op plus n s

  unfoldable pub do_addi : Instruction → CpuState M → Outcome (CpuState M)
  unfolding register_imm_op
  do_addi n s = register_imm_op plus n s

  unfoldable pub do_and : Instruction → CpuState M → Outcome (CpuState M)
  unfolding register_register_op
  do_and n s = register_register_op bit_and n s

  unfoldable pub do_andi : Instruction → CpuState M → Outcome (CpuState M)
  unfolding register_imm_op
  do_andi n s = register_imm_op bit_and n s

  unfoldable pub do_auipc : Instruction → CpuState M → Outcome (CpuState M)
  do_auipc n s = ok (set_reg n.rd (plus s.pc n.imm) s)

  unfoldable pub do_beq : Instruction → CpuState M → Outcome (CpuState M)
  unfolding br_helper
  do_beq n s = br_helper ◌==◌ n s

  unfoldable pub do_bge : Instruction → CpuState M → Outcome (CpuState M)
  unfolding br_helper
  do_bge n s = br_helper (λ a b. not (signed_less a b)) n s

  unfoldable pub do_bgeu : Instruction → CpuState M → Outcome (CpuState M)
  unfolding br_helper
  do_bgeu n s = br_helper (λ a b. leb b a) n s

  unfoldable pub do_blt : Instruction → CpuState M → Outcome (CpuState M)
  unfolding br_helper
  do_blt n s = br_helper signed_less n s

  unfoldable pub do_bltu : Instruction → CpuState M → Outcome (CpuState M)
  unfolding br_helper
  do_bltu n s = br_helper ltb n s

  unfoldable pub do_bne : Instruction → CpuState M → Outcome (CpuState M)
  unfolding br_helper
  do_bne n s = br_helper (λ a b. not (a == b)) n s

  unfoldable pub do_ebreak : Instruction → CpuState M → Outcome (CpuState M)
  do_ebreak n s = ok s

  unfoldable pub do_ecall : Instruction → CpuState M → Outcome (CpuState M)
  do_ecall n s = emulate_sys_call s

  unfoldable pub do_fence : Instruction → CpuState M → Outcome (CpuState M)
  do_fence n s = ok s

  unfoldable pub do_jal : Instruction → CpuState M → Outcome (CpuState M)
  do_jal n s = let s' = set_reg n.rd (plus s.pc word_size) s in ok (set_pc (plus s'.pc n.imm) s')

  unfoldable pub do_jalr : Instruction → CpuState M → Outcome (CpuState M)
  do_jalr n s =
      let ret_addr = plus s.pc word_size in
      let target = plus (get_reg n.rs1 s) n.imm in
      let aligned = to_word (target / 2 * 2) in ok (set_reg n.rd ret_addr (set_pc aligned s))

  unfoldable pub do_lui : Instruction → CpuState M → Outcome (CpuState M)
  do_lui n s = ok (set_reg n.rd n.imm s)

  unfoldable pub do_or : Instruction → CpuState M → Outcome (CpuState M)
  unfolding register_register_op
  do_or n s = register_register_op bit_or n s

  unfoldable pub do_ori : Instruction → CpuState M → Outcome (CpuState M)
  unfolding register_imm_op
  do_ori n s = register_imm_op bit_or n s

  unfoldable pub do_pause : Instruction → CpuState M → Outcome (CpuState M)
  do_pause n s = ok s

  unfoldable pub do_sbreak : Instruction → CpuState M → Outcome (CpuState M)
  do_sbreak n s = ok s

  unfoldable pub do_scall : Instruction → CpuState M → Outcome (CpuState M)
  do_scall n s = ok s

  unfoldable pub do_sll : Instruction → CpuState M → Outcome (CpuState M)
  unfolding register_register_op
  do_sll n s = register_register_op sll_helper n s

  unfoldable pub do_slli : Instruction → CpuState M → Outcome (CpuState M)
  unfolding register_imm_op
  do_slli n s = register_imm_op sll_helper n s

  unfoldable pub do_slt : Instruction → CpuState M → Outcome (CpuState M)
  unfolding register_register_op
  do_slt n s = register_register_op (λ a b. bool_word (signed_less a b)) n s

  unfoldable pub do_slti : Instruction → CpuState M → Outcome (CpuState M)
  unfolding register_imm_op
  do_slti n s = register_imm_op (λ a b. bool_word (signed_less a b)) n s

  unfoldable pub do_sltiu : Instruction → CpuState M → Outcome (CpuState M)
  unfolding register_imm_op
  do_sltiu n s = register_imm_op (λ a b. bool_word (ltb a b)) n s

  unfoldable pub do_sltu : Instruction → CpuState M → Outcome (CpuState M)
  unfolding register_register_op
  do_sltu n s = register_register_op (λ a b. bool_word (ltb a b)) n s

  unfoldable pub do_sra : Instruction → CpuState M → Outcome (CpuState M)
  unfolding register_register_op
  do_sra n s = register_register_op sra_helper n s

  unfoldable pub do_srai : Instruction → CpuState M → Outcome (CpuState M)
  unfolding register_imm_op
  do_srai n s = register_imm_op sra_helper n s

  unfoldable pub do_srl : Instruction → CpuState M → Outcome (CpuState M)
  unfolding register_register_op
  do_srl n s = register_register_op srl_helper n s

  unfoldable pub do_srli : Instruction → CpuState M → Outcome (CpuState M)
  unfolding register_imm_op
  do_srli n s = register_imm_op srl_helper n s

  unfoldable pub do_sub : Instruction → CpuState M → Outcome (CpuState M)
  unfolding register_register_op
  do_sub n s = register_register_op minus n s

  unfoldable pub do_xor : Instruction → CpuState M → Outcome (CpuState M)
  unfolding register_register_op
  do_xor n s = register_register_op bit_xor n s

  unfoldable pub do_xori : Instruction → CpuState M → Outcome (CpuState M)
  unfolding register_imm_op
  do_xori n s = register_imm_op bit_xor n s
