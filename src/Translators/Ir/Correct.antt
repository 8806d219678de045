-- ===== src/Translators/Ir/Correct.antt =====
-- Each case of the IR translator against the interpreter's handler.
use jit_research.Base.{
  ℕ, ◌+◌, ◌%◌, ◌≡◌, refl, sym, ap, ap₂, ◌∙◌, Bool, true, not, ◌||◌, Bool-cases, inl, inr, Outcome,
  ok, ◌>>=◌, >>=-congr, >>=_assoc, ◌==◌, ==_iff, if◌then◌else◌, get_or, bit_and,
}
use jit_research.Isa.Word.{plus, sign_extend, word_size}
use jit_research.Isa.Decode.{Instruction}
use jit_research.Memory.{MemoryOps, Width, width_mod, size_of_bits, read, write}
use jit_research.CpuState.{CpuState, get_reg, set_reg, set_pc, emulate_sys_call}
use jit_research.Isa.Word.Amounts.{even_mask}
use jit_research.Interpreter.Counter.{set_reg-pc, set_reg-set_pc}
use jit_research.Interpreter.Handlers.{
  do_lui, do_auipc, do_jal, do_jalr, do_ecall, bool_word, register_register_op, register_imm_op,
  br_helper,
}
use jit_research.Interpreter.Accesses
use jit_research.Interpreter.Valid.{IsSound}
use jit_research.Translators.Access
use jit_research.Translators.Access.{
  reg, load_zero-get_reg, store_nonzero-set_reg, get_reg-set_reg_apart, mod-mod_width,
  syscall_helper,
}
use jit_research.Translators.Ir.{Ir, IsIr}
use jit_research.Translators.Ir.Run.{
  IrState, load_reg, set_dst, r_op, i_op, comp_r_op, comp_i_op, b_cond_op, store_op, load_op,
  jal_op, jalr_op, lui_op, auipc_op, ecall_op,
}

-- The CPU state that is meant: the program counter is the one that `pc` names.
abbrev pub view : {M : Type 0} → IrState M → CpuState M
view u = set_pc u.pc_ref u.cpu

module _ {M : Type 0} (mem : MemoryOps M) (b : Ir M) (law : IsIr b) (Inv : M → Type 0) where
  module _ (n : Instruction) (u : IrState M) (h : IsSound Inv (view u)) where
    abbrev Shown : Outcome (IrState M) → Outcome (CpuState M)
    Shown m = m >>= λ v. ok (view v)

    load-get : (i : ℕ) → load_reg mem b i u.cpu ≡ get_reg i (view u)
    unfolding set_pc get_reg
    load-get i =
        load_zero-get_reg (λ j s. b.load_u32 (reg j) s) u.cpu (λ j. law.load_reg_law j u.cpu) h.0.x0
          i

    dst-set : (rd v w : ℕ) → v ≡ w → set_dst mem b rd v u.cpu ≡ set_reg rd w u.cpu
    dst-set rd v w e =
        store_nonzero-set_reg (λ j x s. b.store_u32 (reg j) x s) rd v w u.cpu
          (law.store_reg_law rd v u.cpu) e

    set-set :
        (rd v w pc : ℕ)
        → v ≡ w
        → set_pc pc (set_dst mem b rd v u.cpu) ≡ set_reg rd w (set_pc pc u.cpu)
    set-set rd v w pc e = ap (set_pc pc) (dst-set rd v w e) ∙ sym (set_reg-set_pc rd w pc u.cpu)

    pub r-handler :
        (op f : ℕ → ℕ → ℕ)
        → ((x y : ℕ) → op x y ≡ f x y)
        → Shown (r_op mem b op n u) ≡ register_register_op f n (view u)
    unfolding r_op register_register_op
    r-handler op f e =
        ap ok (set-set n.rd _ _ u.pc_ref (ap₂ op (load-get n.rs1) (load-get n.rs2) ∙ e _ _))

    pub i-handler :
        (op f : ℕ → ℕ → ℕ)
        → ((x : ℕ) → op x n.imm ≡ f x n.imm)
        → Shown (i_op mem b op n u) ≡ register_imm_op f n (view u)
    unfolding i_op register_imm_op
    i-handler op f e =
        ap ok (set-set n.rd _ _ u.pc_ref (ap (λ x. op x n.imm) (load-get n.rs1) ∙ e _))

    pub comp_r-handler :
        (op f : ℕ → ℕ → ℕ)
        → ((x y : ℕ) → op x y ≡ f x y)
        → Shown (comp_r_op mem b op n u) ≡ register_register_op f n (view u)
    unfolding comp_r_op register_register_op
    comp_r-handler op f e = ap ok (
        set-set n.rd _ _ u.pc_ref
          (law.zext_law _ ∙ ap₂ op (load-get n.rs1) (load-get n.rs2) ∙ e _ _))

    pub comp_i-handler :
        (op f : ℕ → ℕ → ℕ)
        → ((x : ℕ) → op x n.imm ≡ f x n.imm)
        → Shown (comp_i_op mem b op n u) ≡ register_imm_op f n (view u)
    unfolding comp_i_op register_imm_op
    comp_i-handler op f e =
        ap ok
          (set-set n.rd _ _ u.pc_ref (law.zext_law _ ∙ ap (λ x. op x n.imm) (load-get n.rs1) ∙ e _))

    pub b_cond-handler :
        (op : ℕ → ℕ → ℕ) (cond : ℕ → ℕ → Bool)
        → ((x y : ℕ) → op x y ≡ bool_word (cond x y))
        → Shown (b_cond_op mem b op n u) ≡ br_helper cond n (view u)
    unfolding b_cond_op br_helper set_pc
    b_cond-handler op cond e =
        rw
          (
            ap₂ op (load-get n.rs1) (load-get n.rs2)
                ∙ e (get_reg n.rs1 (view u)) (get_reg n.rs2 (view u)),
            law.cond_law,
            law.add_law u.pc_ref n.imm,
            law.add_law u.pc_ref 4,
          )
          (elim (Bool-cases (cond (get_reg n.rs1 (view u)) (get_reg n.rs2 (view u)))) [
            | inl c ↦ rw c refl
            | inr c ↦ rw c refl
          ])

    pub lui-handler : Shown (lui_op mem b n u) ≡ do_lui n (view u)
    unfolding lui_op do_lui
    lui-handler = ap ok (set-set n.rd _ _ u.pc_ref refl)

    pub auipc-handler : Shown (auipc_op mem b n u) ≡ do_auipc n (view u)
    unfolding auipc_op do_auipc set_pc
    auipc-handler = ap ok (set-set n.rd _ _ u.pc_ref (law.add_law u.pc_ref n.imm))

    pub ecall-handler : Shown (ecall_op mem b u) ≡ do_ecall n (view u)
    unfolding ecall_op do_ecall syscall_helper emulate_sys_call set_pc
    ecall-handler = elim (Bool-cases (get_or u.cpu.regs 17 0 == 93)) [
      | inl z ↦ rw z refl
      | inr z ↦ rw z refl
    ]

    pub jal-handler : Shown (jal_op mem b n u) ≡ do_jal n (view u)
    unfolding jal_op do_jal set_pc
    jal-handler =
        let ret = plus u.pc_ref word_size in
        ap (λ t. ok (set_pc (b.add_u32 u.pc_ref n.imm) t))
          (dst-set n.rd _ ret (law.add_law u.pc_ref word_size))
        ∙ ap (λ q. ok (set_pc q (set_reg n.rd ret u.cpu)))
            (law.add_law u.pc_ref n.imm
              ∙ ap (λ q. plus q n.imm) (sym (set_reg-pc n.rd ret (view u))))
        ∙ ap (λ t. ok (set_pc (plus (set_reg n.rd ret (view u)).pc n.imm) t))
            (sym (set_reg-set_pc n.rd ret u.pc_ref u.cpu))

    load_after :
        (v : ℕ)
        → (not (n.rd == n.rs1) || (n.rd == 0)) ≡ true
        → load_reg mem b n.rs1 (set_reg n.rd v u.cpu) ≡ get_reg n.rs1 (view u)
    unfolding set_pc get_reg
    load_after v apart = elim (Bool-cases (n.rs1 == 0)) [
      | inl z ↦ rw z (sym (ap (λ j. get_or u.cpu.regs j 0) ((==_iff n.rs1 0).0 z) ∙ h.0.x0))
      | inr z ↦ rw z (law.load_reg_law n.rs1 _ ∙ get_reg-set_reg_apart n.rd n.rs1 v u.cpu apart)
    ]

    pub jalr-handler :
        (not (n.rd == n.rs1) || (n.rd == 0)) ≡ true → Shown (jalr_op mem b n u) ≡ do_jalr n (view u)
    unfolding jalr_op do_jalr set_pc get_reg
    jalr-handler apart =
        let ret = plus u.pc_ref word_size in
        let target : load_reg mem b n.rs1 (set_dst mem b n.rd (b.add_u32 u.pc_ref word_size) u.cpu)
            ≡ get_reg n.rs1 (view u) =
          ap (load_reg mem b n.rs1) (dst-set n.rd _ ret (law.add_law u.pc_ref word_size))
          ∙ load_after ret apart in
        ap ok (set-set n.rd _ ret _ (law.add_law u.pc_ref word_size))
        ∙ ap (λ q. ok (set_reg n.rd ret (set_pc q u.cpu)))
            (law.and_law _ _
              ∙ ap (λ x. bit_and x 0xfffffffe) (law.add_law _ _ ∙ ap (λ x. plus x n.imm) target)
              ∙ even_mask (get_reg n.rs1 (view u) + n.imm))

    address : b.add_u32 (load_reg mem b n.rs1 u.cpu) n.imm ≡ plus (get_reg n.rs1 (view u)) n.imm
    address = law.add_law _ _ ∙ ap (λ x. plus x n.imm) (load-get n.rs1)

    pub load-handler :
        (width : Width) (is_signed : Bool) (extend : ℕ → ℕ)
        → ((x : ℕ) → extend x ≡ (if is_signed then sign_extend 32 32 (size_of_bits width) x else x))
        → Shown (load_op mem b width extend n u)
          ≡ Accesses.load_helper mem width is_signed n (view u)
    unfolding load_op Accesses.load_helper Access.load_helper set_pc
    load-handler width is_signed extend e =
        >>=_assoc (read mem width (b.add_u32 (load_reg mem b n.rs1 u.cpu) n.imm) u.cpu.memory) _ _
        ∙ ap
            (λ a. read mem width a u.cpu.memory >>= λ v.
              ok (set_pc u.pc_ref (set_dst mem b n.rd (extend v) u.cpu)))
            address
        ∙ >>=-congr (read mem width (plus (get_reg n.rs1 (view u)) n.imm) u.cpu.memory) _ _
            λ v. ap ok (set-set n.rd _ _ u.pc_ref (e v))

    pub store-handler :
        (width : Width)
        → Shown (store_op mem b width n u) ≡ Accesses.store_helper mem width n (view u)
    unfolding store_op Accesses.store_helper Access.store_helper set_pc
    store-handler width =
        let val : b.trunc width (load_reg mem b n.rs2 u.cpu) % width_mod width
            ≡ get_reg n.rs2 (view u) % width_mod width =
          ap (λ x. x % width_mod width)
            (law.trunc_law width _ ∙ ap (λ x. x % width_mod width) (load-get n.rs2))
          ∙ mod-mod_width width (get_reg n.rs2 (view u)) in
        ap (λ o. o >>= λ v. ok (view v)) (>>=_assoc (write mem width _ _ u.cpu.memory) _ _)
        ∙ >>=_assoc (write mem width _ _ u.cpu.memory) _ _
        ∙ ap₂
            (λ a v. write mem width a v u.cpu.memory >>= λ m.
              ok (set_pc u.pc_ref (record u.cpu { memory = m })))
            address val
