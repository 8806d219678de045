-- ===== src/Translators/Asmjit/Correct.antt =====
-- Each case of the asmjit translator against the interpreter's handler.
use jit_research.Base.{
  ℕ, ◌+◌, ◌%◌, ◌<◌, ◌≡◌, refl, sym, ap, ap₂, ◌∙◌, Bool, ok, ◌>>=◌, >>=-congr-Ensures, if◌then◌else◌,
  get_or, bit_and,
}
use jit_research.Isa.Word.{plus, sign_extend, word_size}
use jit_research.Isa.Word.Amounts.{even_mask}
use jit_research.Isa.Decode.{Instruction}
use jit_research.Memory.{MemoryOps, KeepsWidths, Width, width_mod, size_of_bits, read, write}
use jit_research.CpuState.{CpuState, get_reg, set_reg, set_pc}
use jit_research.Interpreter.Counter.{set_reg-set_pc}
use jit_research.Interpreter.Handlers.{
  do_lui, do_auipc, do_jal, do_jalr, bool_word, register_register_op, register_imm_op, br_helper,
}
use jit_research.Interpreter.Accesses
use jit_research.Translators.Access
use jit_research.Translators.Access.{reg, load_zero-get_reg, store_nonzero-set_reg}
use jit_research.Translators.X86.{X86, IsX86, Cond, holds, movzx8-setcc}
use jit_research.Translators.Asmjit.{
  load_reg, set_dst, r_op, i_op, r_cmp_op, i_cmp_op, b_cond_op, s_op, l_op, jal_op, jalr_op, lui_op,
  auipc_op,
}

module _ {M : Type 0} (mem : MemoryOps M) (x86 : X86 M) (law : IsX86 x86)
    (stale : CpuState M → ℕ) where
  -- An addition to the program counter, through a register
  pub move_pc :
      (v : ℕ) (t : CpuState M)
      → x86.store Access.pc (x86.add (x86.load Access.pc t) v) t ≡ set_pc (plus t.pc v) t
  unfolding set_pc
  move_pc v t =
      law.store_pc_law _ t
      ∙ ap (λ (p : ℕ). record t { pc = p })
          (law.add_law _ v ∙ ap (λ p. plus p v) (law.load_pc_law t))

module _ {M : Type 0} (mem : MemoryOps M) (x86 : X86 M) (law : IsX86 x86) (stale : CpuState M → ℕ)
    (n : Instruction) where
  set-set : (v w : ℕ) (s : CpuState M) → v ≡ w → set_dst mem x86 stale n.rd v s ≡ set_reg n.rd w s
  set-set v w s e =
      store_nonzero-set_reg (λ j x s. x86.store (reg j) x s) n.rd v w s (law.store_reg_law n.rd v s)
        e

  module _ (s : CpuState M) (x0 : get_or s.regs 0 0 ≡ 0) where
    get-get : (i : ℕ) → load_reg mem x86 stale i s ≡ get_reg i s
    get-get i = load_zero-get_reg (λ j s. x86.load (reg j) s) s (λ j. law.load_reg_law j s) x0 i

    pub r-handler :
        (op f : ℕ → ℕ → ℕ)
        → ((x y : ℕ) → op x y ≡ f x y)
        → r_op mem x86 stale op n s ≡ register_register_op f n s
    unfolding r_op register_register_op
    r-handler op f e = ap ok (set-set _ _ s (ap₂ op (get-get n.rs1) (get-get n.rs2) ∙ e _ _))

    pub i-handler :
        (op f : ℕ → ℕ → ℕ)
        → ((x : ℕ) → op x n.imm ≡ f x n.imm)
        → i_op mem x86 stale op n s ≡ register_imm_op f n s
    unfolding i_op register_imm_op
    i-handler op f e = ap ok (set-set _ _ s (ap (λ x. op x n.imm) (get-get n.rs1) ∙ e _))

    pub r_cmp-handler :
        (c : Cond)
        → r_cmp_op mem x86 stale c n s ≡ register_register_op (λ x y. bool_word (holds c y x)) n s
    unfolding r_cmp_op register_register_op
    r_cmp-handler c = ap ok (
        set-set _ _ s (
          movzx8-setcc x86 law c _ _ _
          ∙ ap₂ (λ x y. bool_word (holds c y x)) (get-get n.rs1) (get-get n.rs2)))

    pub i_cmp-handler :
        (c : Cond)
        → i_cmp_op mem x86 stale c n s ≡ register_imm_op (λ x y. bool_word (holds c x y)) n s
    unfolding i_cmp_op register_imm_op
    i_cmp-handler c = ap ok (
        set-set _ _ s
          (movzx8-setcc x86 law c _ _ _ ∙ ap (λ x. bool_word (holds c x n.imm)) (get-get n.rs1)))

    pub b_cond-handler : (c : Cond) → b_cond_op mem x86 stale c n s ≡ br_helper (holds c) n s
    unfolding b_cond_op br_helper set_pc
    b_cond-handler c = ap ok (
        law.add_to_pc_law _ s
        ∙ ap (λ (v : ℕ). record s { pc = plus s.pc v })
            (law.cmov_law c _ _ word_size n.imm
              ∙ ap₂ (λ x y. if holds c x y then n.imm else word_size) (get-get n.rs1)
                  (get-get n.rs2)))

    pub lui-handler : lui_op mem x86 stale n s ≡ do_lui n s
    unfolding lui_op do_lui
    lui-handler = ap ok (set-set _ _ s refl)

    pub auipc-handler : auipc_op mem x86 stale n s ≡ do_auipc n s
    unfolding auipc_op do_auipc
    auipc-handler =
        ap ok (set-set _ _ s (law.add_law _ _ ∙ ap (λ p. plus p n.imm) (law.load_pc_law s)))

    return_address : x86.add (x86.load Access.pc s) word_size ≡ plus s.pc word_size
    return_address = law.add_law _ _ ∙ ap (λ p. plus p word_size) (law.load_pc_law s)

    address : x86.add (load_reg mem x86 stale n.rs1 s) n.imm ≡ plus (get_reg n.rs1 s) n.imm
    address = law.add_law _ _ ∙ ap (λ x. plus x n.imm) (get-get n.rs1)

    pub jal-handler : jal_op mem x86 stale n s ≡ do_jal n s
    unfolding jal_op do_jal
    jal-handler = ap ok (
        move_pc mem x86 law stale n.imm _
        ∙ ap (λ (t : CpuState M). set_pc (plus t.pc n.imm) t) (set-set _ _ s return_address))

    pub jalr-handler : jalr_op mem x86 stale n s ≡ do_jalr n s
    unfolding jalr_op do_jalr set_pc
    jalr-handler = ap ok (
        store-set_pc _ _ (
          law.and_law _ _
          ∙ ap (λ x. bit_and x 0xfffffffe) address
          ∙ even_mask (get_reg n.rs1 s + n.imm))
        ∙ ap (set_pc _) (set-set _ _ s return_address)
        ∙ sym (set_reg-set_pc n.rd (plus s.pc word_size) _ s))
      where
        store-set_pc : (v w : ℕ) {t : CpuState M} → v ≡ w → x86.store Access.pc v t ≡ set_pc w t
        store-set_pc v w {t} e = law.store_pc_law v t ∙ ap (λ (p : ℕ). record t { pc = p }) e

    pub l-handler :
        (Inv : M → Type 0)
        → KeepsWidths mem Inv
        → Inv s.memory
        → (width : Width) (is_signed : Bool) (extend : ℕ → ℕ)
        → ((x : ℕ)
            → x < width_mod width
            → extend (x86.returned width x)
              ≡ (if is_signed then sign_extend 32 32 (size_of_bits width) x else x))
        → l_op mem x86 stale width extend n s ≡ Accesses.load_helper mem width is_signed n s
    unfolding l_op Accesses.load_helper Access.load_helper
    l-handler Inv keeps hm width is_signed extend e =
        ap
          (λ a. read mem width a s.memory >>= λ v.
            ok (set_dst mem x86 stale n.rd (extend (x86.returned width v)) s))
          address
        ∙ >>=-congr-Ensures (λ v. v < width_mod width)
            (read mem width (plus (get_reg n.rs1 s) n.imm) s.memory) _ _
            (keeps.read_lt width _ s.memory hm) λ v lt. ap ok (set-set _ _ s (e v lt))

    pub s-handler :
        (width : Width) → s_op mem x86 stale width n s ≡ Accesses.store_helper mem width n s
    unfolding s_op Accesses.store_helper Access.store_helper
    s-handler width =
        ap₂
          (λ a v.
            write mem width a (v % width_mod width) s.memory >>= λ m. ok (record s { memory = m }))
          address (get-get n.rs2)
