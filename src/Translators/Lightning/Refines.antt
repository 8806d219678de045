-- ===== src/Translators/Lightning/Refines.antt =====
-- The lightning translator against the interpreter: instructions, blocks, and what the engine asks for.
use jit_research.Base.{
  Yields, Yields-map, >>=-Yields, >>=_ok, ℕ, ◌+◌, ◌-◌, ◌*◌, ◌/◌, ◌%◌, ◌^◌, ◌<◌, ◌≡◌, refl, sym, ap,
  ap₂, ◌∙◌, arith, List, ◌∷◌, length, not, true, false, Outcome, ok, ◌>>=◌, ◌==◌, ltb, leb, bit_and,
  bit_or, bit_xor,
}
use jit_research.Base.Bits.{bit_and-lt, bit_or-lt, bit_xor-lt}
use jit_research.Base.Int.{ltb_ℤ}
use jit_research.Isa.Word.{plus, minus, word_mod, word_size, signed_less}
use jit_research.Isa.Word.Amounts.{mask-lt}
use jit_research.Isa.Word.Longs.{
  long_mod, extended-eq, extended-ltb, extended-leb, extended-less, word-signed,
}
use jit_research.Isa.Opcode.{Opcode}
use jit_research.Isa.Decode.{Instruction}
use jit_research.Isa.Decode.Bounds.{IsDecodable, shifts_by_imm}
use jit_research.Memory.{MemoryOps, KeepsWidths, byte, half, word}
use jit_research.CpuState.{CpuState, set_pc, emulate_sys_call}
use jit_research.Interpreter.{handler}
use jit_research.Interpreter.Counted.{with_count}
use jit_research.Interpreter.Handlers.{
  bool_word, sll_helper, srl_helper, register_register_op, register_imm_op, br_helper, do_add,
  do_addi, do_and, do_andi, do_beq, do_bge, do_bgeu, do_blt, do_bltu, do_bne, do_ebreak, do_ecall,
  do_fence, do_or, do_ori, do_sll, do_slli, do_slt, do_slti, do_sltiu, do_sltu, do_sra, do_srai,
  do_srl, do_srli, do_sub, do_xor, do_xori,
}
use jit_research.Interpreter.Accesses.{do_lb, do_lbu, do_lh, do_lhu, do_lw, do_sb, do_sh, do_sw}
use jit_research.Interpreter.Shifts.{
  sll_helper-small, srl_helper-small, sll_helper-mask, srl_helper-mask,
}
use jit_research.Interpreter.Valid.{IsSound}
use jit_research.Jit.Blocks.{Program, IsLine}
use jit_research.Jit.Cache.{Code}
use jit_research.Jit.Counted.{run_insns}
use jit_research.Jit.Refines.{IsFaithful}
use jit_research.Translators.Access.{syscall_helper}
use jit_research.Translators.Emit.{Does, All, Supports, emit_insns, emit_insns-Does}
use jit_research.Translators.Faithful.{Compiles, finish-run_insns, library_translator-IsFaithful}
use jit_research.Translators.LowCount.{add_low, add_low-interpret_insns}
use jit_research.Translators.Lightning.Results.{low_add, low_bits, low_left, low_right, low_bit}
use jit_research.Translators.Lightning.{Lightning, IsLightning}
use jit_research.Translators.Lightning.Emitted.{
  r_op, i_op, sra_op, srai_op, shift_op, auipc_op, br_op, jal_op, jalr_op, lui_op, slt_op, slti_op,
  load_op, store_op, build, advance_pc, update_icount, emit_block, lightning_translator,
}
use jit_research.Translators.Lightning.Correct.{
  r-handler, i-handler, sra-handler, srai-handler, shift-handler, slt-handler, slti-handler,
  br-handler, lui-handler, auipc-handler, jal-handler, jalr-handler, load-handler, store-handler,
  move_pc,
}

-- Nothing more is asked of an instruction.
abbrev pub IsSupported : Opcode → Instruction → Type 0
IsSupported op n = Unit

module _ {M : Type 0} (mem : MemoryOps M) (jit : Lightning M) (law : IsLightning jit)
    (Inv : M → Type 0) (keeps : KeepsWidths mem Inv) where
  low_sub : (x y : ℕ) → x < word_mod → y < word_mod → jit.subr x y % word_mod ≡ minus x y
  low_sub x y p q =
      let low : (x + long_mod - y) % long_mod % word_mod ≡ minus x y = omega (arith, p, q) in
      ap (λ v. v % word_mod) (law.subr_law x y (omega (arith, q))) ∙ low

  module _ (n : Instruction) (imm_lt : n.imm < word_mod) where
    build-Does :
        (op : Opcode)
        → IsDecodable op
        → (shifts_by_imm op ≡ true → n.imm < 32)
        → IsSupported op n
        → Yields (Does Inv (λ s. s) (handler mem op n)) (build mem jit op n)
    unfolding build handler r_op i_op sra_op srai_op shift_op auipc_op br_op jal_op jalr_op lui_op
        slt_op slti_op register_register_op register_imm_op br_helper syscall_helper do_add do_addi
        do_and do_andi do_beq do_bge do_bgeu do_blt do_bltu do_bne do_ebreak do_ecall do_fence do_lb
        do_lbu do_lh do_lhu do_lw do_or do_ori do_sb do_sh do_sll do_slli do_slt do_slti do_sltiu
        do_sltu do_sra do_srai do_srl do_srli do_sub do_sw do_xor do_xori
    build-Does Opcode.add d amount own = λ s h.
        r-handler mem jit law Inv n imm_lt s h jit.addr plus
          (λ x y p q. low_add jit.addr law.addr_law x y)
    build-Does Opcode.addi d amount own = λ s h.
        i-handler mem jit law Inv n imm_lt s h jit.addi plus
          (λ x p. low_add jit.addi law.addi_law x n.imm)
    build-Does Opcode.and d amount own = λ s h.
        r-handler mem jit law Inv n imm_lt s h jit.andr bit_and
          (λ x y p q. low_bits jit.andr bit_and law.andr_law (bit_and-lt 32) x y p q)
    build-Does Opcode.andi d amount own = λ s h.
        i-handler mem jit law Inv n imm_lt s h jit.andi bit_and
          (λ x p. low_bits jit.andi bit_and law.andi_law (bit_and-lt 32) x n.imm p imm_lt)
    build-Does Opcode.auipc d amount own = λ s h. auipc-handler mem jit law Inv n imm_lt s h
    build-Does Opcode.beq d amount own = λ s h.
        br-handler mem jit law Inv n imm_lt s h jit.eqr ◌==◌
          (λ x y p q. law.eqr_law _ _ ∙ ap bool_word (extended-eq x y p q))
    build-Does Opcode.bge d amount own = λ s h.
        br-handler mem jit law Inv n imm_lt s h jit.ger (λ x y. not (signed_less x y))
          (λ x y p q. law.ger_law _ _ ∙ ap (λ c. bool_word (not c)) (extended-less x y p q))
    build-Does Opcode.bgeu d amount own = λ s h.
        br-handler mem jit law Inv n imm_lt s h jit.ger_u (λ x y. leb y x)
          (λ x y p q. law.ger_u_law _ _ ∙ ap bool_word (extended-leb y x q p))
    build-Does Opcode.blt d amount own = λ s h.
        br-handler mem jit law Inv n imm_lt s h jit.ltr signed_less
          (λ x y p q. law.ltr_law _ _ ∙ ap bool_word (extended-less x y p q))
    build-Does Opcode.bltu d amount own = λ s h.
        br-handler mem jit law Inv n imm_lt s h jit.ltr_u ltb
          (λ x y p q. law.ltr_u_law _ _ ∙ ap bool_word (extended-ltb x y p q))
    build-Does Opcode.bne d amount own = λ s h.
        br-handler mem jit law Inv n imm_lt s h jit.ner (λ x y. not (x == y))
          (λ x y p q. law.ner_law _ _ ∙ ap (λ c. bool_word (not c)) (extended-eq x y p q))
    build-Does Opcode.ebreak d amount own = λ s h. refl
    build-Does Opcode.ecall d amount own = λ s h. >>=_ok (emulate_sys_call s)
    build-Does Opcode.fence d amount own = λ s h. refl
    build-Does Opcode.jal d amount own = λ s h. jal-handler mem jit law Inv n imm_lt s h
    build-Does Opcode.jalr d amount own = λ s h. jalr-handler mem jit law Inv n imm_lt s h
    build-Does Opcode.lb d amount own = λ s h.
        >>=_ok (load_op mem jit byte _ n s)
        ∙ load-handler mem jit law Inv n imm_lt s h keeps byte true (jit.extr 8) (λ x lt.
          ap (λ v. jit.extr 8 v % word_mod) (law.retval_law byte x) ∙ law.extr_8_law x lt)
    build-Does Opcode.lbu d amount own = λ s h.
        >>=_ok (load_op mem jit byte (λ r. r) n s)
        ∙ load-handler mem jit law Inv n imm_lt s h keeps byte false (λ r. r)
            (λ x lt.
              let low : x % word_mod ≡ x = omega (arith, lt) in
              ap (λ v. v % word_mod) (law.retval_law byte x) ∙ low)
    build-Does Opcode.lh d amount own = λ s h.
        >>=_ok (load_op mem jit half _ n s)
        ∙ load-handler mem jit law Inv n imm_lt s h keeps half true (jit.extr 16) (λ x lt.
          ap (λ v. jit.extr 16 v % word_mod) (law.retval_law half x) ∙ law.extr_16_law x lt)
    build-Does Opcode.lhu d amount own = λ s h.
        >>=_ok (load_op mem jit half (λ r. r) n s)
        ∙ load-handler mem jit law Inv n imm_lt s h keeps half false (λ r. r)
            (λ x lt.
              let low : x % word_mod ≡ x = omega (arith, lt) in
              ap (λ v. v % word_mod) (law.retval_law half x) ∙ low)
    build-Does Opcode.lui d amount own = λ s h. lui-handler mem jit law Inv n imm_lt s h
    build-Does Opcode.lw d amount own = λ s h.
        >>=_ok (load_op mem jit word (λ r. r) n s)
        ∙ load-handler mem jit law Inv n imm_lt s h keeps word false (λ r. r)
            (λ x lt.
              let low : x % word_mod ≡ x = omega (arith, lt) in
              ap (λ v. v % word_mod) (law.retval_law word x) ∙ low)
    build-Does Opcode.or d amount own = λ s h.
        r-handler mem jit law Inv n imm_lt s h jit.orr bit_or
          (λ x y p q. low_bits jit.orr bit_or law.orr_law (bit_or-lt 32) x y p q)
    build-Does Opcode.ori d amount own = λ s h.
        i-handler mem jit law Inv n imm_lt s h jit.ori bit_or
          (λ x p. low_bits jit.ori bit_or law.ori_law (bit_or-lt 32) x n.imm p imm_lt)
    build-Does Opcode.pause d amount own = absurd d
    build-Does Opcode.sb d amount own =
        λ s h. >>=_ok (store_op mem jit byte n s) ∙ store-handler mem jit law Inv n imm_lt s h byte
    build-Does Opcode.sbreak d amount own = absurd d
    build-Does Opcode.scall d amount own = absurd d
    build-Does Opcode.sh d amount own =
        λ s h. >>=_ok (store_op mem jit half n s) ∙ store-handler mem jit law Inv n imm_lt s h half
    build-Does Opcode.sll d amount own = λ s h.
        shift-handler mem jit law Inv n imm_lt s h jit.lshr sll_helper (λ x y p.
          low_left jit.lshr law.lshr_law x (bit_and y 31) (mask-lt y) ∙ sym (sll_helper-mask x y))
    build-Does Opcode.slli d amount own = λ s h.
        i-handler mem jit law Inv n imm_lt s h jit.lshi sll_helper (λ x p.
          low_left jit.lshi law.lshi_law x n.imm (amount refl)
          ∙ sym (sll_helper-small x n.imm (amount refl)))
    build-Does Opcode.slt d amount own = λ s h. slt-handler mem jit law Inv n imm_lt s h
    build-Does Opcode.slti d amount own = λ s h. slti-handler mem jit law Inv n imm_lt s h
    build-Does Opcode.sltiu d amount own = λ s h.
        i-handler mem jit law Inv n imm_lt s h jit.lti_u (λ x y. bool_word (ltb x y))
          (λ x p. low_bit _ (ltb x n.imm) (law.lti_u_law x n.imm))
    build-Does Opcode.sltu d amount own = λ s h.
        r-handler mem jit law Inv n imm_lt s h jit.ltr (λ x y. bool_word (ltb x y))
          (λ x y p q. low_bit _ (ltb x y) (
            law.ltr_law x y
            ∙ ap₂ (λ a c. bool_word (ltb_ℤ a c)) (word-signed x p) (word-signed y q)))
    build-Does Opcode.sra d amount own = λ s h. sra-handler mem jit law Inv n imm_lt s h
    build-Does Opcode.srai d amount own =
        λ s h. srai-handler mem jit law Inv n imm_lt s h (amount refl)
    build-Does Opcode.srl d amount own = λ s h.
        shift-handler mem jit law Inv n imm_lt s h jit.rshr_u srl_helper (λ x y p.
          low_right jit.rshr_u law.rshr_u_law x (bit_and y 31) p (mask-lt y)
          ∙ sym (srl_helper-mask x y))
    build-Does Opcode.srli d amount own = λ s h.
        i-handler mem jit law Inv n imm_lt s h jit.rshi_u srl_helper (λ x p.
          low_right jit.rshi_u law.rshi_u_law x n.imm p (amount refl)
          ∙ sym (srl_helper-small x n.imm (amount refl)))
    build-Does Opcode.sub d amount own =
        λ s h. r-handler mem jit law Inv n imm_lt s h jit.subr minus low_sub
    build-Does Opcode.sw d amount own =
        λ s h. >>=_ok (store_op mem jit word n s) ∙ store-handler mem jit law Inv n imm_lt s h word
    build-Does Opcode.xor d amount own = λ s h.
        r-handler mem jit law Inv n imm_lt s h jit.xorr bit_xor
          (λ x y p q. low_bits jit.xorr bit_xor law.xorr_law (bit_xor-lt 32) x y p q)
    build-Does Opcode.xori d amount own = λ s h.
        i-handler mem jit law Inv n imm_lt s h jit.xori bit_xor
          (λ x p. low_bits jit.xori bit_xor law.xori_law (bit_xor-lt 32) x n.imm p imm_lt)
    build-Does Opcode.num_opcodes d amount own = absurd d

  advance_pc-set_pc : (s : CpuState M) → advance_pc mem jit s ≡ set_pc (plus s.pc word_size) s
  unfolding advance_pc
  advance_pc-set_pc s = move_pc mem jit law word_size _ s (law.ldxi_pc_law s)

  update_icount-add_low : (k : ℕ) (s : CpuState M) → update_icount mem jit k s ≡ add_low k s
  unfolding update_icount
  update_icount-add_low k s =
      let sum : (s.icount % word_mod + k) % long_mod % word_mod ≡ (s.icount + k) % 2 ^ 32 =
        omega arith in
      ap ok (
        law.stxi_icount_law _ s
        ∙ ap (λ (v : ℕ). with_count (s.icount / 2 ^ 32 * 2 ^ 32 + v) s)
            (ap (λ v. jit.addi v k % word_mod) (law.ldxi_icount_law s)
              ∙ ap (λ v. v % word_mod) (law.addi_law _ k)
              ∙ sum))

  -- For a block of instructions with operands in range, `Lightning::translate` ends with a
  -- value, and from a sound state its code runs the block and adds the block's length to the low half
  -- of the count, without a carry into the high half; also where an access or a call throws.
  pub emit_block-run_insns :
      (ns : List Instruction) (s : CpuState M)
      → IsSound Inv s
      → All (Supports IsSupported) ns
      → Yields
          (λ code. code s ≡ (run_insns mem ns s >>= add_low (length ns)))
          (emit_block mem jit ns)
  unfolding emit_block
  emit_block-run_insns ns s sound all =
      >>=-Yields (Does Inv (λ s. s) (run_insns mem ns)) _
        (emit_insns (λ n. build mem jit n.opcode n) (advance_pc mem jit) ns) _
        (emit_insns-Does mem Inv keeps (λ s. s) (λ n. build mem jit n.opcode n) (advance_pc mem jit)
          IsSupported
          (λ n sup.
            build-Does n sup.well_formed.imm_lt n.opcode sup.well_formed.decodable
              sup.well_formed.amount_lt sup.own)
          advance_pc-set_pc ns all)
        λ body does.
          finish-run_insns mem Inv (λ s. s) ns body s s (update_icount mem jit (length ns))
            (add_low (length ns)) does sound refl (λ t same. update_icount-add_low (length ns) t)

  -- The translator `lightning` is faithful on a program whose invariant keeps the state sound and lets
  -- no block of the program carry out of the low half of the count, if the library gives the code that
  -- was emitted.
  pub lightning_translator-IsFaithful :
      (p : Program mem)
      → ((s : CpuState M) → p.Inv s → IsSound Inv s)
      → ((s : CpuState M) (ns : List Instruction)
          → p.Inv s
          → IsLine mem p s.pc ns
          → s.icount % 2 ^ 32 + length ns < 2 ^ 32)
      → (compile : Code M → Outcome (Code M)) → Compiles compile
      → IsFaithful mem p (lightning_translator mem jit compile)
  lightning_translator-IsFaithful p sound no_carry compile compiles =
      library_translator-IsFaithful mem p IsSupported (λ addr c. tt) (emit_block mem jit) compile
        (λ n ns s h l all.
          Yields-map (emit_block mem jit (n ∷ ns))
            (λ code does.
              does
              ∙ add_low-interpret_insns mem n ns s (no_carry s (n ∷ ns) h l)
                  (sound s h).0.icount_long)
            (emit_block-run_insns (n ∷ ns) s (sound s h) all))
        compiles
