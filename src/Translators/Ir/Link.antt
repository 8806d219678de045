-- ===== src/Translators/Ir/Link.antt =====
-- The order of the link and the base in the `JALR` of src/jit/ir/ir.cc.
use jit_research.Base.{
  ℕ, ◌+◌, ◌*◌, ◌/◌, ◌≡◌, refl, sym, ap, ◌∙◌, true, not, ◌||◌, Bool-cases, inl, inr, ok, ◌>>=◌, ◌==◌,
  get_or, set-set, bit_and,
}
use jit_research.Isa.Word.{plus, to_word, word_size}
use jit_research.Isa.Word.Amounts.{even_mask}
use jit_research.Isa.Decode.{Instruction}
use jit_research.Memory.{MemoryOps}
use jit_research.CpuState.{CpuState, get_reg, set_reg, set_pc}
use jit_research.Interpreter.Counter.{set_reg-set_pc}
use jit_research.Interpreter.Handlers.{do_jalr}
use jit_research.Interpreter.Valid.{IsSound}
use jit_research.Translators.Access.{
  reg, load_zero-get_reg, store_nonzero-set_reg, get_reg-set_reg_apart,
}
use jit_research.Translators.Ir.{Ir, IsIr}
use jit_research.Translators.Ir.Run.{IrState, load_reg, set_dst, jalr_op}
use jit_research.Translators.Ir.Correct.{view}

zero_or_not : (rd : ℕ) → (not (rd == 0) || (rd == 0)) ≡ true
zero_or_not rd = elim (Bool-cases (rd == 0)) [ inl z ↦ rw z refl | inr z ↦ rw z refl ]

module _ {M : Type 0} where
  -- A register that is written twice with the same value.
  set_reg-twice : (rd v : ℕ) (s : CpuState M) → set_reg rd v (set_reg rd v s) ≡ set_reg rd v s
  unfolding set_reg
  set_reg-twice rd v s = elim (Bool-cases (rd == 0)) [
    | inl z ↦ rw z refl
    | inr z ↦ rw z (ap (λ r. record s { regs = r }) (set-set s.regs rd v))
  ]

  -- Register 0 stays 0.
  set_reg-x0 :
      (rd v : ℕ) (s : CpuState M) → get_or s.regs 0 0 ≡ 0 → get_or (set_reg rd v s).regs 0 0 ≡ 0
  unfolding get_reg
  set_reg-x0 rd v s x0 = get_reg-set_reg_apart rd 0 v s (zero_or_not rd) ∙ x0

module _ {M : Type 0} (mem : MemoryOps M) (b : Ir M) (law : IsIr b) (Inv : M → Type 0) where
  -- From a sound state, `JALR` as the translator `ir` builds it does what the interpreter does in the
  -- state in which the return address has been written to `rd` already.
  pub jalr_op-do_jalr :
      (n : Instruction) (u : IrState M)
      → IsSound Inv (view u)
      → (jalr_op mem b n u >>= λ v. ok (view v))
        ≡ do_jalr n (set_reg n.rd (plus u.pc_ref word_size) (view u))
  unfolding jalr_op do_jalr set_pc get_reg
  jalr_op-do_jalr n u h =
      let ret = plus u.pc_ref word_size in
      let after = set_reg n.rd ret u.cpu in
      let jumped =
        λ (s : CpuState M). b.and_u32 (b.add_u32 (load_reg mem b n.rs1 s) n.imm) 0xfffffffe in
      let target = to_word (plus (get_reg n.rs1 after) n.imm / 2 * 2) in
      let stored : set_dst mem b n.rd (b.add_u32 u.pc_ref word_size) u.cpu ≡ after =
        store_nonzero-set_reg (λ j x s. b.store_u32 (reg j) x s) n.rd _ ret u.cpu
          (law.store_reg_law n.rd _ u.cpu) (law.add_law u.pc_ref word_size) in
      let base : load_reg mem b n.rs1 after ≡ get_reg n.rs1 after =
        load_zero-get_reg (λ j s. b.load_u32 (reg j) s) after (λ j. law.load_reg_law j after)
          (set_reg-x0 n.rd ret u.cpu h.0.x0) n.rs1 in
      let same : jumped after ≡ target =
        law.and_law _ _
        ∙ ap (λ x. bit_and x 0xfffffffe) (law.add_law _ _ ∙ ap (λ x. plus x n.imm) base)
        ∙ even_mask (get_reg n.rs1 after + n.imm) in
      let linked : do_jalr n (set_pc u.pc_ref after) ≡ ok (set_pc target after) = ap ok (
        set_reg-set_pc n.rd ret target after ∙ ap (set_pc target) (set_reg-twice n.rd ret u.cpu)) in
      ap (λ s. ok (set_pc (jumped s) s)) stored
      ∙ ap (λ q. ok (set_pc q after)) same
      ∙ sym (ap (do_jalr n) (set_reg-set_pc n.rd ret u.pc_ref u.cpu) ∙ linked)
