-- ===== src/Translators/Llvm/Correct.antt =====
-- Each function of the LLVM builder against the interpreter's handler.
use jit_research.Base.{
  set, ℕ, ◌+◌, ◌*◌, ◌/◌, ◌%◌, ◌<◌, ◌≡◌, refl, sym, ap, ap₂, ◌∙◌, arith, Bool, Bool-cases, inl, inr,
  ok, >>=-congr, ◌==◌, if◌then◌else◌, get_or,
}
use jit_research.Isa.Word.{plus, to_word, sign_extend, word_mod}
use jit_research.Isa.Decode.{Instruction}
use jit_research.Memory.{MemoryOps, Width, byte, half, word, width_mod, size_of_bits, read}
use jit_research.CpuState.{CpuState, get_reg, set_reg, set_pc}
use jit_research.Isa.Word.Amounts.{slice-small, even_mask}
use jit_research.Interpreter.Counter.{set_reg-pc, set_reg-set_pc}
use jit_research.Interpreter.Handlers.{
  do_lui, do_auipc, do_jal, do_jalr, bool_word, register_register_op, register_imm_op, br_helper,
  sll_helper, srl_helper, sra_helper,
}
use jit_research.Interpreter.Accesses.{load_helper, store_helper}
use jit_research.Translators.Llvm.{Llvm, IsLlvm, i32}
use jit_research.Translators.Llvm.Builder.{
  reg_val, lui_build_ir, auipc_build_ir, jal_build_ir, jalr_build_ir, store_rd, reg_build,
  imm_build, branch_build, load_build, store_build, do_load, do_store,
}

plus_comm : (a c : ℕ) → plus a c ≡ plus c a
plus_comm a c = omega arith

module _ {M : Type 0} (mem : MemoryOps M) (b : Llvm M) (law : IsLlvm b) where
  open b use {create_add, create_and}

  store_rd-set_reg : (rd v w : ℕ) (s : CpuState M) → v ≡ w → store_rd mem b rd v s ≡ set_reg rd w s
  unfolding store_rd set_reg
  store_rd-set_reg rd v w s e = elim (Bool-cases (rd == 0)) [
    | inl z ↦ rw z refl
    | inr z ↦
        rw z (law.store_reg_law rd v s ∙ ap (λ (x : ℕ). record s { regs = set s.regs rd x }) e)
  ]

  reg_val-get_reg : (i : ℕ) (s : CpuState M) → reg_val mem b i s ≡ get_reg i s
  unfolding get_reg
  reg_val-get_reg i s = law.load_reg_law i s

  module _ (n : Instruction) (s : CpuState M) where
    pub reg-handler :
        (op f : ℕ → ℕ → ℕ)
        → ((x y : ℕ) → op x y ≡ f x y)
        → reg_build mem b op n s ≡ register_register_op f n s
    unfolding reg_build register_register_op
    reg-handler op f e = ap ok (
        store_rd-set_reg n.rd _ _ s (
          ap₂ op (reg_val-get_reg n.rs1 s) (reg_val-get_reg n.rs2 s)
          ∙ e (get_reg n.rs1 s) (get_reg n.rs2 s)))

    pub imm-handler :
        (op f : ℕ → ℕ → ℕ)
        → ((x : ℕ) → op x n.imm ≡ f x n.imm)
        → imm_build mem b op n s ≡ register_imm_op f n s
    unfolding imm_build register_imm_op
    imm-handler op f e = ap ok (
        store_rd-set_reg n.rd _ _ s
          (ap (λ (x : ℕ). op x n.imm) (reg_val-get_reg n.rs1 s) ∙ e (get_reg n.rs1 s)))

    pub branch-handler :
        (icmp : ℕ → ℕ → ℕ) (cond : ℕ → ℕ → Bool)
        → ((x y : ℕ) → icmp x y ≡ bool_word (cond x y))
        → branch_build mem b icmp n s ≡ br_helper cond n s
    unfolding branch_build br_helper set_pc get_reg
    branch-handler icmp cond e =
        rw
          (
            law.load_pc_law s,
            law.load_reg_law n.rs1 s,
            law.load_reg_law n.rs2 s,
            law.add_law s.pc n.imm,
            law.add_law s.pc 4,
            law.store_pc_law,
            e,
            law.select_law,
          )
          (elim (Bool-cases (cond (get_or s.regs n.rs1 0) (get_or s.regs n.rs2 0))) [
            | inl c ↦ rw c refl
            | inr c ↦ rw c refl
          ])

    pub lui-handler : lui_build_ir mem b n s ≡ do_lui n s
    unfolding lui_build_ir do_lui
    lui-handler = ap ok (store_rd-set_reg n.rd n.imm n.imm s refl)

    pub auipc-handler : auipc_build_ir mem b n s ≡ do_auipc n s
    unfolding auipc_build_ir do_auipc
    auipc-handler = ap ok (
        store_rd-set_reg n.rd _ _ s (
          ap (λ (x : ℕ). create_add i32 n.imm x) (law.load_pc_law s)
          ∙ law.add_law n.imm s.pc
          ∙ plus_comm n.imm s.pc))

    pub jal-handler : jal_build_ir mem b n s ≡ do_jal n s
    unfolding jal_build_ir do_jal set_pc
    jal-handler =
        rw (law.load_pc_law s, law.store_pc_law, law.add_law n.imm s.pc, law.add_law 4 s.pc)
          (ap ok (
            store_rd-set_reg n.rd _ _ (set_pc (plus n.imm s.pc) s) (plus_comm 4 s.pc)
            ∙ set_reg-set_pc n.rd (plus s.pc 4) (plus n.imm s.pc) s
            ∙ ap (λ (pc : ℕ). set_pc pc (set_reg n.rd (plus s.pc 4) s))
                (plus_comm n.imm s.pc
                  ∙ ap (λ (pc : ℕ). plus pc n.imm) (sym (set_reg-pc n.rd (plus s.pc 4) s)))))

    pub jalr-handler : jalr_build_ir mem b n s ≡ do_jalr n s
    unfolding jalr_build_ir do_jalr set_pc get_reg
    jalr-handler =
        let pc = to_word ((get_or s.regs n.rs1 0 + n.imm) % word_mod / 2 * 2) in
        rw
          (
            law.load_reg_law n.rs1 s,
            law.load_pc_law s,
            law.add_law s.pc 4,
            law.add_law (get_or s.regs n.rs1 0) n.imm,
            law.and_law,
            law.store_pc_law,
            even_mask (get_or s.regs n.rs1 0 + n.imm),
          )
          (ap (λ (u : CpuState M). ok (set_pc pc u))
              (store_rd-set_reg n.rd (plus s.pc 4) (plus s.pc 4) s refl)
            ∙ ap ok (sym (set_reg-set_pc n.rd (plus s.pc 4) pc s)))

    pub load-handler :
        (width : Width) (is_signed : Bool) (extend : ℕ → ℕ)
        → ((x : ℕ) → extend x ≡ (if is_signed then sign_extend 32 32 (size_of_bits width) x else x))
        → load_build mem b width extend n s ≡ load_helper mem width is_signed n s
    unfolding load_build load_helper do_load get_reg
    load-handler width is_signed extend e =
        rw (law.load_reg_law n.rs1 s, law.add_law)
          (>>=-congr (read mem width _ s.memory) _ _ λ v. ap ok (store_rd-set_reg n.rd _ _ s (e v)))

    pub store-handler :
        (width : Width)
        → get_reg n.rs2 s < width_mod word
        → store_build mem b width n s ≡ store_helper mem width n s
    unfolding store_build store_helper do_store get_reg
    store-handler byte h = rw (law.load_reg_law n.rs1 s, law.add_law, law.load8_law n.rs2 s) refl
    store-handler half h = rw (law.load_reg_law n.rs1 s, law.add_law, law.load16_law n.rs2 s) refl
    store-handler word h =
        let whole : get_or s.regs n.rs2 0 % width_mod word ≡ get_or s.regs n.rs2 0 = omega arith in
        rw (law.load_reg_law n.rs1 s, law.add_law, law.load_reg_law n.rs2 s, whole) refl

    pub slli-handler :
        n.imm < 32 → imm_build mem b b.create_shl n s ≡ register_imm_op sll_helper n s
    unfolding sll_helper
    slli-handler h =
        imm-handler b.create_shl sll_helper
          λ x. law.shl_law x n.imm h ∙ rw (slice-small n.imm h) refl

    pub srli-handler :
        n.imm < 32 → imm_build mem b b.create_lshr n s ≡ register_imm_op srl_helper n s
    unfolding srl_helper
    srli-handler h =
        imm-handler b.create_lshr srl_helper
          λ x. law.lshr_law x n.imm h ∙ rw (slice-small n.imm h) refl

    pub srai-handler :
        n.imm < 32 → imm_build mem b b.create_ashr n s ≡ register_imm_op sra_helper n s
    unfolding sra_helper
    srai-handler h =
        imm-handler b.create_ashr sra_helper
          λ x. law.ashr_law x n.imm h ∙ rw (slice-small n.imm h) refl
