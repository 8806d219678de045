-- ===== src/Translators/Xbyak/Correct.antt =====
-- Each case of the xbyak translator against the interpreter's handler.
use jit_research.Base.{
  ℕ, ◌+◌, ◌%◌, ◌^◌, ◌<◌, ◌≡◌, refl, ap, ap₂, ◌∙◌, Bool, ok, ◌>>=◌, >>=-congr-Ensures, if◌then◌else◌,
  bit_and,
}
use jit_research.Isa.Word.{plus, sign_extend, word_size}
use jit_research.Isa.Word.Amounts.{even_mask}
use jit_research.Isa.Decode.{Instruction}
use jit_research.Memory.{MemoryOps, KeepsWidths, Width, width_mod, size_of_bits, read, write}
use jit_research.CpuState.{CpuState, get_reg, set_reg, set_pc}
use jit_research.Interpreter.Handlers.{
  do_lui, do_auipc, do_jal, do_jalr, bool_word, register_register_op, register_imm_op, br_helper,
}
use jit_research.Interpreter.Accesses
use jit_research.Translators.Access
use jit_research.Translators.Access.{reg, store_nonzero-set_reg}
use jit_research.Translators.X86.{X86, IsX86, Cond, holds, setcc_zero}
use jit_research.Translators.Xbyak.{
  get_rs, set_rd, reg_op, imm_op, auipc_op, branch_op, jal_op, jalr_op, lui_op, load_op, set_op,
  set_imm_op, shift_op, store_op,
}

module _ {M : Type 0} (mem : MemoryOps M) (x86 : X86 M) (law : IsX86 x86) (n : Instruction) where
  get-get : (i : ℕ) (s : CpuState M) → get_rs mem x86 i s ≡ get_reg i s
  unfolding get_reg
  get-get i s = law.load_reg_law i s

  set-set : (v w : ℕ) (s : CpuState M) → v ≡ w → set_rd mem x86 n.rd v s ≡ set_reg n.rd w s
  set-set v w s e =
      store_nonzero-set_reg (λ j x s. x86.store (reg j) x s) n.rd v w s (law.store_reg_law n.rd v s)
        e

  module _ (s : CpuState M) where
    pub reg-handler :
        (op f : ℕ → ℕ → ℕ)
        → ((x y : ℕ) → op x y ≡ f x y)
        → reg_op mem x86 op n s ≡ register_register_op f n s
    unfolding reg_op register_register_op
    reg-handler op f e = ap ok (set-set _ _ s (ap₂ op (get-get n.rs1 s) (get-get n.rs2 s) ∙ e _ _))

    pub imm-handler :
        (op f : ℕ → ℕ → ℕ)
        → ((x : ℕ) → op x n.imm ≡ f x n.imm)
        → imm_op mem x86 op n s ≡ register_imm_op f n s
    unfolding imm_op register_imm_op
    imm-handler op f e = ap ok (set-set _ _ s (ap (λ x. op x n.imm) (get-get n.rs1 s) ∙ e _))

    pub shift-handler :
        (op f : ℕ → ℕ → ℕ)
        → ((x y : ℕ) → op x (y % 2 ^ 8) ≡ f x y)
        → shift_op mem x86 op n s ≡ register_register_op f n s
    unfolding shift_op register_register_op
    shift-handler op f e =
        ap ok (
          set-set _ _ s (ap₂ (λ x y. op x (y % 2 ^ 8)) (get-get n.rs1 s) (get-get n.rs2 s) ∙ e _ _))

    pub set-handler :
        (c : Cond)
        → set_op mem x86 c n s ≡ register_register_op (λ x y. bool_word (holds c x y)) n s
    unfolding set_op register_register_op
    set-handler c = ap ok (
        set-set _ _ s (
          setcc_zero x86 law c _ _
          ∙ ap₂ (λ x y. bool_word (holds c x y)) (get-get n.rs1 s) (get-get n.rs2 s)))

    pub set_imm-handler :
        (c : Cond) → set_imm_op mem x86 c n s ≡ register_imm_op (λ x y. bool_word (holds c x y)) n s
    unfolding set_imm_op register_imm_op
    set_imm-handler c = ap ok (
        set-set _ _ s
          (setcc_zero x86 law c _ _ ∙ ap (λ x. bool_word (holds c x n.imm)) (get-get n.rs1 s)))

    pub branch-handler : (c : Cond) → branch_op mem x86 c n s ≡ br_helper (holds c) n s
    unfolding branch_op br_helper set_pc
    branch-handler c = ap ok (
        law.add_to_pc_law _ s
        ∙ ap (λ (v : ℕ). record s { pc = plus s.pc v })
            (law.cmov_law c _ _ word_size n.imm
              ∙ ap₂ (λ x y. if holds c x y then n.imm else word_size) (get-get n.rs1 s)
                  (get-get n.rs2 s)))

    pub lui-handler : lui_op mem x86 n s ≡ do_lui n s
    unfolding lui_op do_lui
    lui-handler = ap ok (set-set _ _ s refl)

    pub auipc-handler : auipc_op mem x86 n s ≡ do_auipc n s
    unfolding auipc_op do_auipc
    auipc-handler =
        ap ok (set-set _ _ s (law.add_law _ _ ∙ ap (λ p. plus p n.imm) (law.load_pc_law s)))

    return_address : x86.add (x86.load Access.pc s) word_size ≡ plus s.pc word_size
    return_address = law.add_law _ _ ∙ ap (λ p. plus p word_size) (law.load_pc_law s)

    address : x86.add (get_rs mem x86 n.rs1 s) n.imm ≡ plus (get_reg n.rs1 s) n.imm
    address = law.add_law _ _ ∙ ap (λ x. plus x n.imm) (get-get n.rs1 s)

    pub jal-handler : jal_op mem x86 n s ≡ do_jal n s
    unfolding jal_op do_jal set_pc
    jal-handler = ap ok (
        law.add_to_pc_law n.imm _
        ∙ ap (λ (t : CpuState M). record t { pc = plus t.pc n.imm }) (set-set _ _ s return_address))

    pub jalr-handler : jalr_op mem x86 n s ≡ do_jalr n s
    unfolding jalr_op do_jalr set_pc
    jalr-handler = ap ok (
        set-set _ _ (x86.store Access.pc _ s) return_address
        ∙ ap (set_reg n.rd (plus s.pc word_size)) (
            law.store_pc_law _ s
            ∙ ap (λ (p : ℕ). record s { pc = p })
                (law.and_law _ _
                  ∙ ap (λ x. bit_and x 0xfffffffe) address
                  ∙ even_mask (get_reg n.rs1 s + n.imm))))

    pub load-handler :
        (Inv : M → Type 0)
        → KeepsWidths mem Inv
        → Inv s.memory
        → (width : Width) (is_signed : Bool) (extend : ℕ → ℕ)
        → ((x : ℕ)
            → x < width_mod width
            → extend (x86.returned width x)
              ≡ (if is_signed then sign_extend 32 32 (size_of_bits width) x else x))
        → load_op mem x86 width extend n s ≡ Accesses.load_helper mem width is_signed n s
    unfolding load_op Accesses.load_helper Access.load_helper
    load-handler Inv keeps hm width is_signed extend e =
        ap
          (λ a. read mem width a s.memory >>= λ v.
            ok (set_rd mem x86 n.rd (extend (x86.returned width v)) s))
          address
        ∙ >>=-congr-Ensures (λ v. v < width_mod width)
            (read mem width (plus (get_reg n.rs1 s) n.imm) s.memory) _ _
            (keeps.read_lt width _ s.memory hm) λ v lt. ap ok (set-set _ _ s (e v lt))

    pub store-handler :
        (width : Width) → store_op mem x86 width n s ≡ Accesses.store_helper mem width n s
    unfolding store_op Accesses.store_helper Access.store_helper
    store-handler width =
        ap₂
          (λ a v.
            write mem width a (v % width_mod width) s.memory >>= λ m. ok (record s { memory = m }))
          address (get-get n.rs2 s)
