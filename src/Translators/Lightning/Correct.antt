-- ===== src/Translators/Lightning/Correct.antt =====
-- Each case of the lightning translator against the interpreter's handler.
use jit_research.Base.{
  set, ℕ, ◌+◌, ◌*◌, ◌/◌, ◌%◌, ◌<◌, ◌≡◌, refl, sym, ap, ap₂, ◌∙◌, arith, Bool, true, false,
  Bool-cases, inl, inr, ok, ◌>>=◌, >>=-congr-Ensures, ◌==◌, ==_iff, if◌then◌else◌, get_or, bit_and,
}
use jit_research.Isa.Word.{plus, to_word, signed_less, sign_extend, word_size, word_mod}
use jit_research.Isa.Word.Amounts.{mask-lt}
use jit_research.Isa.Word.Longs.{
  long_mod, extended, extended-sar, extended-signed, sign_extend-extended, even_mask_long,
}
use jit_research.Base.Int.{ltb_ℤ}
use jit_research.Isa.Decode.{Instruction}
use jit_research.Memory.{MemoryOps, KeepsWidths, Width, width_mod, size_of_bits, read, write}
use jit_research.CpuState.{CpuState, get_reg, set_reg, set_pc}
use jit_research.Interpreter.Counter.{set_reg-pc, set_reg-set_pc}
use jit_research.Interpreter.Handlers.{
  do_lui, do_auipc, do_jal, do_jalr, bool_word, sra_helper, register_register_op, register_imm_op,
  br_helper,
}
use jit_research.Interpreter.Accesses
use jit_research.Interpreter.Shifts.{sra_helper-mask, sra_helper-small}
use jit_research.Interpreter.Valid.{IsSound}
use jit_research.Translators.Access
use jit_research.Translators.Access.{reg, load_zero-get_reg, stored-set_reg}
use jit_research.Translators.Lightning.{Lightning, IsLightning}
use jit_research.Translators.Lightning.Emitted.{
  load_reg, store_reg, load_pc, store_pc, r_op, i_op, sra_op, srai_op, shift_op, auipc_op, br_op,
  jal_op, jalr_op, lui_op, load_op, store_op, slt_op, slti_op,
}

module _ {M : Type 0} (mem : MemoryOps M) (jit : Lightning M) (law : IsLightning jit) where
  -- An addition to the program counter, through a register
  pub move_pc :
      (v : ℕ) (p : ℕ) (t : CpuState M)
      → p ≡ t.pc
      → store_pc mem jit (jit.addi p v) t ≡ set_pc (plus t.pc v) t
  unfolding set_pc
  move_pc v p t e =
      let low : (t.pc + v) % long_mod % word_mod ≡ plus t.pc v = omega arith in
      law.stxi_pc_law _ t
      ∙ ap (λ (q : ℕ). record t { pc = q })
          (ap (λ q. jit.addi q v % word_mod) e ∙ ap (λ q. q % word_mod) (law.addi_law t.pc v) ∙ low)

module _ {M : Type 0} (mem : MemoryOps M) (jit : Lightning M) (law : IsLightning jit)
    (Inv : M → Type 0) (n : Instruction) (imm_lt : n.imm < word_mod) (s : CpuState M)
    (h : IsSound Inv s) where
  load-get : (i : ℕ) → load_reg mem jit i false s ≡ get_reg i s
  unfolding load_reg
  load-get i =
      load_zero-get_reg (λ j s. jit.ldxi_ui (reg j) s) s (λ j. law.ldxi_ui_law j s) h.0.x0 i

  load_signed-get : (i : ℕ) → load_reg mem jit i true s ≡ extended (get_reg i s)
  unfolding load_reg get_reg
  load_signed-get i = elim (Bool-cases (i == 0)) [
    | inl z ↦ rw z (sym (ap extended (ap (λ j. get_or s.regs j 0) ((==_iff i 0).0 z) ∙ h.0.x0)))
    | inr z ↦ rw z (law.ldxi_i_law i s)
  ]

  get-lt : (i : ℕ) → get_reg i s < word_mod
  unfolding get_reg
  get-lt i = h.0.words i

  set-set : (v w : ℕ) → v % word_mod ≡ w → store_reg mem jit n.rd v s ≡ set_reg n.rd w s
  set-set v w e =
      stored-set_reg n.rd w s _
        (law.stxi_reg_law n.rd v s ∙ ap (λ (x : ℕ). record s { regs = set s.regs n.rd x }) e)

  pub r-handler :
      (op f : ℕ → ℕ → ℕ)
      → ((x y : ℕ) → x < word_mod → y < word_mod → op x y % word_mod ≡ f x y)
      → r_op mem jit op n s ≡ register_register_op f n s
  unfolding r_op register_register_op
  r-handler op f e = ap ok (
      set-set _ _ (
        ap₂ (λ x y. op x y % word_mod) (load-get n.rs1) (load-get n.rs2)
        ∙ e _ _ (get-lt n.rs1) (get-lt n.rs2)))

  pub i-handler :
      (op f : ℕ → ℕ → ℕ)
      → ((x : ℕ) → x < word_mod → op x n.imm % word_mod ≡ f x n.imm)
      → i_op mem jit op n s ≡ register_imm_op f n s
  unfolding i_op register_imm_op
  i-handler op f e =
      ap ok (set-set _ _ (ap (λ x. op x n.imm % word_mod) (load-get n.rs1) ∙ e _ (get-lt n.rs1)))

  masked : jit.andi (load_reg mem jit n.rs2 false s) 0x1f ≡ bit_and (get_reg n.rs2 s) 31
  masked = law.andi_law _ _ ∙ ap (λ y. bit_and y 31) (load-get n.rs2)

  pub shift-handler :
      (op f : ℕ → ℕ → ℕ)
      → ((x y : ℕ) → x < word_mod → op x (bit_and y 31) % word_mod ≡ f x y)
      → shift_op mem jit op n s ≡ register_register_op f n s
  unfolding shift_op register_register_op
  shift-handler op f e =
      ap ok (
        set-set _ _ (ap₂ (λ x y. op x y % word_mod) (load-get n.rs1) masked ∙ e _ _ (get-lt n.rs1)))

  pub sra-handler : sra_op mem jit n s ≡ register_register_op sra_helper n s
  unfolding sra_op register_register_op
  sra-handler =
      let y = bit_and (get_reg n.rs2 s) 31 in
      let lt : y < 64 = omega (arith, mask-lt (get_reg n.rs2 s)) in
      ap ok (
        set-set _ _ (
          ap₂ (λ x y. jit.rshr x y % word_mod) (load_signed-get n.rs1) masked
          ∙ ap (λ v. v % word_mod) (law.rshr_law _ y lt)
          ∙ extended-sar (get_reg n.rs1 s) y (get-lt n.rs1)
          ∙ sym (sra_helper-mask (get_reg n.rs1 s) (get_reg n.rs2 s))))

  pub srai-handler : n.imm < 32 → srai_op mem jit n s ≡ register_imm_op sra_helper n s
  unfolding srai_op register_imm_op
  srai-handler small =
      let lt : n.imm < 64 = omega (arith, small) in
      ap ok (
        set-set _ _ (
          ap (λ x. jit.rshi x n.imm % word_mod) (load_signed-get n.rs1)
          ∙ ap (λ v. v % word_mod) (law.rshi_law _ n.imm lt)
          ∙ extended-sar (get_reg n.rs1 s) n.imm (get-lt n.rs1)
          ∙ sym (sra_helper-small (get_reg n.rs1 s) n.imm small)))

  less :
      (x y : ℕ)
      → x < word_mod
      → y < word_mod
      → jit.ltr (extended x) (extended y) ≡ bool_word (signed_less x y)
  unfolding signed_less
  less x y p q =
      law.ltr_law _ _
      ∙ ap₂ (λ a c. bool_word (ltb_ℤ a c)) (extended-signed x p) (extended-signed y q)

  bit-low : (c : Bool) → bool_word c % word_mod ≡ bool_word c
  bit-low true = refl
  bit-low false = refl

  pub slt-handler :
      slt_op mem jit n s ≡ register_register_op (λ x y. bool_word (signed_less x y)) n s
  unfolding slt_op register_register_op
  slt-handler = ap ok (
      set-set _ _ (
        ap₂ (λ x y. jit.ltr x y % word_mod) (load_signed-get n.rs1) (load_signed-get n.rs2)
        ∙ ap (λ v. v % word_mod) (less _ _ (get-lt n.rs1) (get-lt n.rs2))
        ∙ bit-low (signed_less (get_reg n.rs1 s) (get_reg n.rs2 s))))

  pub slti-handler : slti_op mem jit n s ≡ register_imm_op (λ x y. bool_word (signed_less x y)) n s
  unfolding slti_op register_imm_op
  slti-handler = ap ok (
      set-set _ _ (
        ap₂ (λ x y. jit.ltr x y % word_mod) (load_signed-get n.rs1)
          (sign_extend-extended n.imm imm_lt)
        ∙ ap (λ v. v % word_mod) (less _ _ (get-lt n.rs1) imm_lt)
        ∙ bit-low (signed_less (get_reg n.rs1 s) n.imm)))

  chosen : (c : Bool) (old new : ℕ) → jit.movzr old new (bool_word c) ≡ (if c then old else new)
  chosen true old new = law.movzr_law old new 1
  chosen false old new = law.movzr_law old new 0

  pub br-handler :
      (op : ℕ → ℕ → ℕ) (cond : ℕ → ℕ → Bool)
      → ((x y : ℕ)
          → x < word_mod
          → y < word_mod
          → op (extended x) (extended y) ≡ bool_word (cond x y))
      → br_op mem jit op n s ≡ br_helper cond n s
  unfolding br_op br_helper set_pc
  br-handler op cond e =
      let taken = cond (get_reg n.rs1 s) (get_reg n.rs2 s) in
      let offset = if taken then n.imm else word_size in
      let low : (s.pc + offset) % long_mod % word_mod ≡ plus s.pc offset = omega arith in
      ap ok (
        law.stxi_pc_law _ s
        ∙ ap (λ (p : ℕ). record s { pc = p })
            (ap₂ (λ p v. jit.addr p v % word_mod) (law.ldxi_pc_law s)
                (ap (jit.movzr n.imm word_size) (
                    ap₂ op (load_signed-get n.rs1) (load_signed-get n.rs2)
                    ∙ e _ _ (get-lt n.rs1) (get-lt n.rs2))
                  ∙ chosen taken n.imm word_size)
              ∙ ap (λ v. v % word_mod) (law.addr_law s.pc offset)
              ∙ low))

  pub lui-handler : lui_op mem jit n s ≡ do_lui n s
  unfolding lui_op do_lui
  lui-handler = ap ok (set-set _ _ (omega (arith, imm_lt)))

  -- A sum in a 64-bit register, cut down
  low_sum : (p q v : ℕ) → p ≡ q → jit.addi p v % word_mod ≡ plus q v
  low_sum p q v e =
      let low : (q + v) % long_mod % word_mod ≡ plus q v = omega arith in
      ap (λ x. jit.addi x v % word_mod) e ∙ ap (λ x. x % word_mod) (law.addi_law q v) ∙ low

  pub auipc-handler : auipc_op mem jit n s ≡ do_auipc n s
  unfolding auipc_op do_auipc
  auipc-handler = ap ok (set-set _ _ (low_sum _ _ n.imm (law.ldxi_pc_law s)))

  address :
      jit.addi (load_reg mem jit n.rs1 false s) n.imm % word_mod ≡ plus (get_reg n.rs1 s) n.imm
  address = low_sum _ _ n.imm (load-get n.rs1)

  pub jal-handler : jal_op mem jit n s ≡ do_jal n s
  unfolding jal_op do_jal
  jal-handler =
      let ret = plus s.pc word_size in
      ap (λ t. ok (store_pc mem jit (jit.addi (load_pc mem jit s) n.imm) t))
        (set-set _ ret (low_sum _ _ word_size (law.ldxi_pc_law s)))
      ∙ ap ok (
          move_pc mem jit law n.imm _ (set_reg n.rd ret s)
            (law.ldxi_pc_law s ∙ sym (set_reg-pc n.rd ret s)))

  pub jalr-handler : jalr_op mem jit n s ≡ do_jalr n s
  unfolding jalr_op do_jalr set_pc
  jalr-handler =
      let ret = plus s.pc word_size in
      let target = to_word (plus (get_reg n.rs1 s) n.imm / 2 * 2) in
      let even : jit.andi (jit.addi (load_reg mem jit n.rs1 false s) n.imm) 0xfffffffe % word_mod
          ≡ target =
        ap (λ v. v % word_mod) (law.andi_law _ _)
        ∙ even_mask_long (jit.addi (load_reg mem jit n.rs1 false s) n.imm)
        ∙ ap (λ v. to_word (v / 2 * 2)) address in
      ap ok (
        law.stxi_pc_law _ _
        ∙ ap (λ p. set_pc p (store_reg mem jit n.rd (jit.addi (load_pc mem jit s) word_size) s))
            even
        ∙ ap (set_pc target) (set-set _ ret (low_sum _ _ word_size (law.ldxi_pc_law s)))
        ∙ sym (set_reg-set_pc n.rd ret target s))

  pub load-handler :
      KeepsWidths mem Inv
      → (width : Width) (is_signed : Bool) (extend : ℕ → ℕ)
      → ((x : ℕ)
          → x < width_mod width
          → extend (jit.retval width x) % word_mod
            ≡ (if is_signed then sign_extend 32 32 (size_of_bits width) x else x))
      → load_op mem jit width extend n s ≡ Accesses.load_helper mem width is_signed n s
  unfolding load_op Accesses.load_helper Access.load_helper
  load-handler keeps width is_signed extend e =
      ap
        (λ a. read mem width a s.memory >>= λ v.
          ok (store_reg mem jit n.rd (extend (jit.retval width v)) s))
        address
      ∙ >>=-congr-Ensures (λ v. v < width_mod width)
          (read mem width (plus (get_reg n.rs1 s) n.imm) s.memory) _ _
          (keeps.read_lt width _ s.memory h.1) λ v lt. ap ok (set-set _ _ (e v lt))

  pub store-handler :
      (width : Width) → store_op mem jit width n s ≡ Accesses.store_helper mem width n s
  unfolding store_op Accesses.store_helper Access.store_helper
  store-handler width =
      ap₂
        (λ a v.
          write mem width a (v % width_mod width) s.memory >>= λ m. ok (record s { memory = m }))
        address (load-get n.rs2)
