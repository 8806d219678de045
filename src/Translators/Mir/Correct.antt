-- ===== src/Translators/Mir/Correct.antt =====
-- Each case of the MIR translator against the interpreter's handler.
use jit_research.Base.{
  set, ℕ, ◌+◌, ◌%◌, ◌<◌, ◌≡◌, refl, sym, ap, ap₂, ◌∙◌, arith, Bool, Bool-cases, inl, inr, Outcome,
  ok, ◌>>=◌, >>=-congr-Ensures, >>=_assoc, ◌==◌, if◌then◌else◌, get_or, bit_and,
}
use jit_research.Isa.Word.{plus, sign_extend, word_size, word_mod}
use jit_research.Isa.Word.Amounts.{even_mask}
use jit_research.Isa.Decode.{Instruction}
use jit_research.Memory.{MemoryOps, KeepsWidths, Width, width_mod, size_of_bits, read, write}
use jit_research.CpuState.{CpuState, get_reg, set_reg, set_pc, emulate_sys_call}
use jit_research.Interpreter.Counter.{set_reg-pc, set_reg-set_pc}
use jit_research.Interpreter.Handlers.{
  do_lui, do_auipc, do_jal, do_jalr, do_ecall, register_register_op, register_imm_op, br_helper,
}
use jit_research.Interpreter.Accesses
use jit_research.Interpreter.Valid.{IsSound}
use jit_research.Translators.Access
use jit_research.Translators.Access.{reg, load_zero-get_reg, stored-set_reg, syscall_helper}
use jit_research.Translators.Mir.{Mir, IsMir, MirType}
use jit_research.Translators.Mir.Generate.{
  MirState, load_reg, set_dst, r_op, i_op, b_cond_op, s_op, l_op, jal_op, jalr_op, lui_op, auipc_op,
  ecall_op,
}

-- The CPU state that is meant: the program counter is the low half of `pc_reg`.
abbrev pub view : {M : Type 0} → MirState M → CpuState M
view u = set_pc (u.pc_reg % word_mod) u.cpu

module _ {M : Type 0} (mem : MemoryOps M) (mir : Mir M) (law : IsMir mir) (Inv : M → Type 0)
    (n : Instruction) (imm_lt : n.imm < word_mod) (u : MirState M) (h : IsSound Inv (view u)) where
  abbrev Shown : Outcome (MirState M) → Outcome (CpuState M)
  Shown m = m >>= λ v. ok (view v)

  load-get : (i : ℕ) → load_reg mem mir i u.cpu ≡ get_reg i (view u)
  unfolding set_pc get_reg
  load-get i =
      load_zero-get_reg (λ j s. mir.load_u32 (reg j) s) u.cpu (λ j. law.load_reg_law j u.cpu) h.0.x0
        i

  get-lt : (i : ℕ) → get_reg i (view u) < word_mod
  unfolding get_reg
  get-lt i = h.0.words i

  dst-set : (v w : ℕ) → v % word_mod ≡ w → set_dst mem mir n.rd v u.cpu ≡ set_reg n.rd w u.cpu
  dst-set v w e = stored-set_reg n.rd w u.cpu _ (
      law.store_reg_law n.rd v u.cpu
      ∙ ap (λ (x : ℕ). record u.cpu { regs = set u.cpu.regs n.rd x }) e)

  set-set :
      (v w pc : ℕ)
      → v % word_mod ≡ w
      → set_pc pc (set_dst mem mir n.rd v u.cpu) ≡ set_reg n.rd w (set_pc pc u.cpu)
  set-set v w pc e = ap (set_pc pc) (dst-set v w e) ∙ sym (set_reg-set_pc n.rd w pc u.cpu)

  pub r-handler :
      (op f : ℕ → ℕ → ℕ)
      → ((x y : ℕ) → x < word_mod → y < word_mod → op x y % word_mod ≡ f x y)
      → Shown (r_op mem mir op n u) ≡ register_register_op f n (view u)
  unfolding r_op register_register_op
  r-handler op f e = ap ok (
      set-set _ _ _ (
        ap₂ (λ x y. op x y % word_mod) (load-get n.rs1) (load-get n.rs2)
        ∙ e _ _ (get-lt n.rs1) (get-lt n.rs2)))

  pub i-handler :
      (op f : ℕ → ℕ → ℕ)
      → ((x : ℕ) → x < word_mod → op x n.imm % word_mod ≡ f x n.imm)
      → Shown (i_op mem mir op n u) ≡ register_imm_op f n (view u)
  unfolding i_op register_imm_op
  i-handler op f e =
      ap ok (set-set _ _ _ (ap (λ x. op x n.imm % word_mod) (load-get n.rs1) ∙ e _ (get-lt n.rs1)))

  -- The low half of an addition to `pc_reg`
  low_pc : (v : ℕ) → mir.adds u.pc_reg v % word_mod ≡ plus (u.pc_reg % word_mod) v
  low_pc v =
      let low : (u.pc_reg + v) % word_mod ≡ plus (u.pc_reg % word_mod) v = omega arith in
      law.adds_law u.pc_reg v ∙ low

  pub b_cond-handler :
      (op cond : ℕ → ℕ → Bool)
      → ((x y : ℕ) → x < word_mod → y < word_mod → op x y ≡ cond x y)
      → Shown (b_cond_op mem mir op n u) ≡ br_helper cond n (view u)
  unfolding b_cond_op br_helper set_pc
  b_cond-handler op cond e =
      rw (ap₂ op (load-get n.rs1) (load-get n.rs2) ∙ e _ _ (get-lt n.rs1) (get-lt n.rs2))
        (elim (Bool-cases (cond (get_reg n.rs1 (view u)) (get_reg n.rs2 (view u)))) [
          | inl c ↦ rw c (ap (λ (p : ℕ). ok (record u.cpu { pc = p })) (low_pc n.imm))
          | inr c ↦ rw c (ap (λ (p : ℕ). ok (record u.cpu { pc = p })) (low_pc word_size))
        ])

  pub lui-handler : Shown (lui_op mem mir n u) ≡ do_lui n (view u)
  unfolding lui_op do_lui
  lui-handler = ap ok (set-set _ _ _ (omega (arith, imm_lt)))

  pub auipc-handler : Shown (auipc_op mem mir n u) ≡ do_auipc n (view u)
  unfolding auipc_op do_auipc set_pc
  auipc-handler = ap ok (set-set _ _ _ (low_pc n.imm))

  pub ecall-handler : Shown (ecall_op mem mir u) ≡ do_ecall n (view u)
  unfolding ecall_op do_ecall syscall_helper emulate_sys_call set_pc
  ecall-handler = elim (Bool-cases (get_or u.cpu.regs 17 0 == 93)) [
    | inl z ↦ rw z refl
    | inr z ↦ rw z refl
  ]

  pub jal-handler : Shown (jal_op mem mir n u) ≡ do_jal n (view u)
  unfolding jal_op do_jal set_pc
  jal-handler =
      let ret = plus (u.pc_reg % word_mod) word_size in
      ap (λ t. ok (set_pc (mir.adds u.pc_reg n.imm % word_mod) t))
        (dst-set _ ret (low_pc word_size))
      ∙ ap (λ q. ok (set_pc q (set_reg n.rd ret u.cpu)))
          (low_pc n.imm ∙ ap (λ q. plus q n.imm) (sym (set_reg-pc n.rd ret (view u))))
      ∙ ap (λ t. ok (set_pc (plus (set_reg n.rd ret (view u)).pc n.imm) t))
          (sym (set_reg-set_pc n.rd ret (u.pc_reg % word_mod) u.cpu))

  address :
      mir.adds (load_reg mem mir n.rs1 u.cpu) n.imm % word_mod ≡ plus (get_reg n.rs1 (view u)) n.imm
  address = law.adds_law _ _ ∙ ap (λ x. plus x n.imm) (load-get n.rs1)

  pub jalr-handler : Shown (jalr_op mem mir n u) ≡ do_jalr n (view u)
  unfolding jalr_op do_jalr set_pc
  jalr-handler =
      let ret = plus (u.pc_reg % word_mod) word_size in
      ap ok (set-set _ ret _ (low_pc word_size))
      ∙ ap (λ q. ok (set_reg n.rd ret (set_pc q u.cpu)))
          (law.and64_law _ _
            ∙ ap (λ x. bit_and x 0xfffffffe) address
            ∙ even_mask (get_reg n.rs1 (view u) + n.imm))

  pub l-handler :
      KeepsWidths mem Inv
      → (width : Width) (is_signed : Bool) (type : MirType)
      → ((x : ℕ)
          → x < width_mod width
          → mir.result type x % word_mod
            ≡ (if is_signed then sign_extend 32 32 (size_of_bits width) x else x))
      → Shown (l_op mem mir width type n u) ≡ Accesses.load_helper mem width is_signed n (view u)
  unfolding l_op Accesses.load_helper Access.load_helper set_pc
  l-handler keeps width is_signed type e =
      >>=_assoc (read mem width _ u.cpu.memory) _ _
      ∙ ap
          (λ a. read mem width a u.cpu.memory >>= λ v.
            ok (set_pc (u.pc_reg % word_mod) (set_dst mem mir n.rd (mir.result type v) u.cpu)))
          (law.argument_u32_law _ ∙ address)
      ∙ >>=-congr-Ensures (λ v. v < width_mod width)
          (read mem width (plus (get_reg n.rs1 (view u)) n.imm) u.cpu.memory) _ _
          (keeps.read_lt width _ u.cpu.memory h.1) λ v lt. ap ok (set-set _ _ _ (e v lt))

  pub s-handler :
      (width : Width) (type : MirType)
      → ((x : ℕ) → mir.argument type x % width_mod width ≡ x % width_mod width)
      → Shown (s_op mem mir width type n u) ≡ Accesses.store_helper mem width n (view u)
  unfolding s_op Accesses.store_helper Access.store_helper set_pc get_reg
  s-handler width type e =
      ap (λ o. o >>= λ v. ok (view v)) (>>=_assoc (write mem width _ _ u.cpu.memory) _ _)
      ∙ >>=_assoc (write mem width _ _ u.cpu.memory) _ _
      ∙ ap₂
          (λ a v. write mem width a v u.cpu.memory >>= λ m.
            ok (set_pc (u.pc_reg % word_mod) (record u.cpu { memory = m })))
          (law.argument_u32_law _ ∙ address)
          (e _ ∙ ap (λ x. x % width_mod width) (law.load_reg_law n.rs2 u.cpu))
