-- ===== src/Translators/Mir/Refines.antt =====
-- The MIR translator against the interpreter: instructions, blocks, and what the engine asks for.
use jit_research.Base.{
  Yields, Yields-map, >>=-Yields, ℕ, ◌+◌, ◌%◌, ◌^◌, ◌<◌, ◌≡◌, refl, sym, ap, ◌∙◌, arith, List, ◌∷◌,
  length, not, true, false, Outcome, ◌>>=◌, ◌==◌, ltb, leb, bit_and, bit_or, bit_xor,
}
use jit_research.Isa.Word.{plus, minus, word_mod, word_size, signed_less}
use jit_research.Isa.Opcode.{Opcode}
use jit_research.Isa.Decode.{Instruction}
use jit_research.Isa.Decode.Bounds.{IsDecodable, shifts_by_imm}
use jit_research.Memory.{MemoryOps, KeepsWidths, byte, half, word}
use jit_research.CpuState.{CpuState, set_pc}
use jit_research.Interpreter.{handler}
use jit_research.Interpreter.Handlers.{
  bool_word, sll_helper, srl_helper, sra_helper, do_add, do_addi, do_and, do_andi, do_beq, do_bge,
  do_bgeu, do_blt, do_bltu, do_bne, do_ebreak, do_fence, do_or, do_ori, do_sll, do_slli, do_slt,
  do_slti, do_sltiu, do_sltu, do_sra, do_srai, do_srl, do_srli, do_sub, do_xor, do_xori,
}
use jit_research.Interpreter.Accesses.{do_lb, do_lbu, do_lh, do_lhu, do_lw, do_sb, do_sh, do_sw}
use jit_research.Interpreter.Shifts.{sll_helper-small, srl_helper-small, sra_helper-small}
use jit_research.Interpreter.Valid.{IsSound}
use jit_research.Jit.Blocks.{Program, IsLine}
use jit_research.Jit.Cache.{Code}
use jit_research.Jit.Counted.{run_insns}
use jit_research.Jit.Refines.{IsFaithful}
use jit_research.Translators.Access.{mod-mod_width}
use jit_research.Translators.Emit.{Does, All, Supports, emit_insns, emit_insns-Does}
use jit_research.Translators.Faithful.{Compiles, finish-run_insns, library_translator-IsFaithful}
use jit_research.Translators.LowCount.{add_low, add_low-interpret_insns}
use jit_research.Translators.Mir.{Mir, IsMir, i8, u8, i16, u16, u32}
use jit_research.Translators.Mir.Generate.{
  MirState, build, advance_pc, enter, leave, append_insns, mir_translator,
}
use jit_research.Translators.Mir.Correct.{
  view, r-handler, i-handler, b_cond-handler, lui-handler, auipc-handler, jal-handler, jalr-handler,
  ecall-handler, l-handler, s-handler,
}

-- What is asked of an instruction. The shifts by a register are left out, since it does not mask the
-- amount.
abbrev pub IsSupported : Opcode → Instruction → Type 0
IsSupported Opcode.sll n = ⊥
IsSupported Opcode.srl n = ⊥
IsSupported Opcode.sra n = ⊥
IsSupported op n = Unit

module _ {M : Type 0} (mem : MemoryOps M) (mir : Mir M) (law : IsMir mir) (Inv : M → Type 0)
    (keeps : KeepsWidths mem Inv) where
  module _ (n : Instruction) (imm_lt : n.imm < word_mod) where
    build-Does :
        (op : Opcode)
        → IsDecodable op
        → (shifts_by_imm op ≡ true → n.imm < 32)
        → IsSupported op n
        → Yields (Does Inv view (handler mem op n)) (build mem mir op n)
    unfolding build handler do_add do_addi do_and do_andi do_beq do_bge do_bgeu do_blt do_bltu
        do_bne do_ebreak do_fence do_lb do_lbu do_lh do_lhu do_lw do_or do_ori do_sb do_sh do_sll
        do_slli do_slt do_slti do_sltiu do_sltu do_sra do_srai do_srl do_srli do_sub do_sw do_xor
        do_xori
    build-Does Opcode.add d amount own =
        λ u h. r-handler mem mir law Inv n imm_lt u h mir.adds plus (λ x y p q. law.adds_law x y)
    build-Does Opcode.addi d amount own =
        λ u h. i-handler mem mir law Inv n imm_lt u h mir.adds plus (λ x p. law.adds_law x n.imm)
    build-Does Opcode.and d amount own =
        λ u h. r-handler mem mir law Inv n imm_lt u h mir.ands bit_and law.ands_law
    build-Does Opcode.andi d amount own = λ u h.
        i-handler mem mir law Inv n imm_lt u h mir.ands bit_and
          (λ x p. law.ands_law x n.imm p imm_lt)
    build-Does Opcode.auipc d amount own = λ u h. auipc-handler mem mir law Inv n imm_lt u h
    build-Does Opcode.beq d amount own =
        λ u h. b_cond-handler mem mir law Inv n imm_lt u h mir.beqs ◌==◌ law.beqs_law
    build-Does Opcode.bge d amount own = λ u h.
        b_cond-handler mem mir law Inv n imm_lt u h mir.bges (λ x y. not (signed_less x y))
          law.bges_law
    build-Does Opcode.bgeu d amount own =
        λ u h. b_cond-handler mem mir law Inv n imm_lt u h mir.ubges (λ x y. leb y x) law.ubges_law
    build-Does Opcode.blt d amount own =
        λ u h. b_cond-handler mem mir law Inv n imm_lt u h mir.blts signed_less law.blts_law
    build-Does Opcode.bltu d amount own =
        λ u h. b_cond-handler mem mir law Inv n imm_lt u h mir.ublts ltb law.ublts_law
    build-Does Opcode.bne d amount own = λ u h.
        b_cond-handler mem mir law Inv n imm_lt u h mir.bnes (λ x y. not (x == y)) law.bnes_law
    build-Does Opcode.ebreak d amount own = λ u h. refl
    build-Does Opcode.ecall d amount own = λ u h. ecall-handler mem mir law Inv n imm_lt u h
    build-Does Opcode.fence d amount own = λ u h. refl
    build-Does Opcode.jal d amount own = λ u h. jal-handler mem mir law Inv n imm_lt u h
    build-Does Opcode.jalr d amount own = λ u h. jalr-handler mem mir law Inv n imm_lt u h
    build-Does Opcode.lb d amount own =
        λ u h. l-handler mem mir law Inv n imm_lt u h keeps byte true i8 law.result_i8_law
    build-Does Opcode.lbu d amount own = λ u h.
        l-handler mem mir law Inv n imm_lt u h keeps byte false u8 (λ x lt.
          let low : x % word_mod ≡ x = omega (arith, lt) in
          ap (λ v. v % word_mod) (law.result_u8_law x lt) ∙ low)
    build-Does Opcode.lh d amount own =
        λ u h. l-handler mem mir law Inv n imm_lt u h keeps half true i16 law.result_i16_law
    build-Does Opcode.lhu d amount own = λ u h.
        l-handler mem mir law Inv n imm_lt u h keeps half false u16 (λ x lt.
          let low : x % word_mod ≡ x = omega (arith, lt) in
          ap (λ v. v % word_mod) (law.result_u16_law x lt) ∙ low)
    build-Does Opcode.lui d amount own = λ u h. lui-handler mem mir law Inv n imm_lt u h
    build-Does Opcode.lw d amount own = λ u h.
        l-handler mem mir law Inv n imm_lt u h keeps word false u32 (λ x lt.
          let low : x % word_mod ≡ x = omega (arith, lt) in
          ap (λ v. v % word_mod) (law.result_u32_law x lt) ∙ low)
    build-Does Opcode.or d amount own =
        λ u h. r-handler mem mir law Inv n imm_lt u h mir.ors bit_or law.ors_law
    build-Does Opcode.ori d amount own = λ u h.
        i-handler mem mir law Inv n imm_lt u h mir.ors bit_or (λ x p. law.ors_law x n.imm p imm_lt)
    build-Does Opcode.pause d amount own = absurd d
    build-Does Opcode.sb d amount own =
        λ u h. s-handler mem mir law Inv n imm_lt u h byte i8 law.argument_i8_law
    build-Does Opcode.sbreak d amount own = absurd d
    build-Does Opcode.scall d amount own = absurd d
    build-Does Opcode.sh d amount own =
        λ u h. s-handler mem mir law Inv n imm_lt u h half i16 law.argument_i16_law
    build-Does Opcode.sll d amount own = absurd own
    build-Does Opcode.slli d amount own = λ u h.
        i-handler mem mir law Inv n imm_lt u h mir.lshs sll_helper (λ x p.
          law.lshs_law x n.imm p (amount refl) ∙ sym (sll_helper-small x n.imm (amount refl)))
    build-Does Opcode.slt d amount own = λ u h.
        r-handler mem mir law Inv n imm_lt u h mir.lts (λ x y. bool_word (signed_less x y))
          law.lts_law
    build-Does Opcode.slti d amount own = λ u h.
        i-handler mem mir law Inv n imm_lt u h mir.lts (λ x y. bool_word (signed_less x y))
          (λ x p. law.lts_law x n.imm p imm_lt)
    build-Does Opcode.sltiu d amount own = λ u h.
        i-handler mem mir law Inv n imm_lt u h mir.ults (λ x y. bool_word (ltb x y))
          (λ x p. law.ults_law x n.imm p imm_lt)
    build-Does Opcode.sltu d amount own = λ u h.
        r-handler mem mir law Inv n imm_lt u h mir.ults (λ x y. bool_word (ltb x y)) law.ults_law
    build-Does Opcode.sra d amount own = absurd own
    build-Does Opcode.srai d amount own = λ u h.
        i-handler mem mir law Inv n imm_lt u h mir.rshs sra_helper (λ x p.
          law.rshs_law x n.imm p (amount refl) ∙ sym (sra_helper-small x n.imm (amount refl)))
    build-Does Opcode.srl d amount own = absurd own
    build-Does Opcode.srli d amount own = λ u h.
        i-handler mem mir law Inv n imm_lt u h mir.urshs srl_helper (λ x p.
          law.urshs_law x n.imm p (amount refl) ∙ sym (srl_helper-small x n.imm (amount refl)))
    build-Does Opcode.sub d amount own =
        λ u h. r-handler mem mir law Inv n imm_lt u h mir.subs minus law.subs_law
    build-Does Opcode.sw d amount own = λ u h.
        s-handler mem mir law Inv n imm_lt u h word u32
          (λ x. ap (λ v. v % word_mod) (law.argument_u32_law x) ∙ mod-mod_width word x)
    build-Does Opcode.xor d amount own =
        λ u h. r-handler mem mir law Inv n imm_lt u h mir.xors bit_xor law.xors_law
    build-Does Opcode.xori d amount own = λ u h.
        i-handler mem mir law Inv n imm_lt u h mir.xors bit_xor
          (λ x p. law.xors_law x n.imm p imm_lt)
    build-Does Opcode.num_opcodes d amount own = absurd d

  advance_pc-view :
      (u : MirState M) → view (advance_pc mem mir u) ≡ set_pc (plus (view u).pc word_size) (view u)
  unfolding advance_pc set_pc
  advance_pc-view u =
      let low : plus u.pc_reg word_size ≡ plus (u.pc_reg % word_mod) word_size = omega arith in
      ap (λ (p : ℕ). record u.cpu { pc = p }) (law.adds_law u.pc_reg word_size ∙ low)

  enter-view : (s : CpuState M) → s.pc < word_mod → view (enter mem mir s) ≡ s
  unfolding enter set_pc
  enter-view s lt =
      let low : s.pc % word_mod ≡ s.pc = omega (arith, lt) in
      ap (λ (p : ℕ). record s { pc = p }) (ap (λ p. p % word_mod) (law.load_pc_law s) ∙ low)

  leave-add_low : (k : ℕ) (u : MirState M) → leave mem mir k u ≡ add_low k (view u)
  unfolding leave set_pc
  leave-add_low k u =
      let sum : plus (u.cpu.icount % word_mod) k ≡ (u.cpu.icount + k) % 2 ^ 32 = omega arith in
      rw (leave, law.store_pc_law, law.load_icount_law, law.store_icount_law, law.adds_law, sum)
        refl

  -- For a block of supported instructions with operands in range, `MIRJit::translate` ends with a
  -- value, and from a sound state its code runs the block and adds the block's length to the low half
  -- of the count, without a carry into the high half; also where an access or a call throws.
  pub append_insns-run_insns :
      (ns : List Instruction) (s : CpuState M)
      → IsSound Inv s
      → All (Supports IsSupported) ns
      → Yields
          (λ code. code s ≡ (run_insns mem ns s >>= add_low (length ns)))
          (append_insns mem mir ns)
  unfolding append_insns
  append_insns-run_insns ns s sound all =
      >>=-Yields (Does Inv view (run_insns mem ns)) _
        (emit_insns (λ n. build mem mir n.opcode n) (advance_pc mem mir) ns) _
        (emit_insns-Does mem Inv keeps view (λ n. build mem mir n.opcode n) (advance_pc mem mir)
          IsSupported
          (λ n sup.
            build-Does n sup.well_formed.imm_lt n.opcode sup.well_formed.decodable
              sup.well_formed.amount_lt sup.own)
          advance_pc-view ns all)
        λ body does.
          finish-run_insns mem Inv view ns body s (enter mem mir s) (leave mem mir (length ns))
            (add_low (length ns)) does sound (enter-view s sound.0.pc_word)
            (λ u same. leave-add_low (length ns) u)

  -- The translator `mir` is faithful on a program whose invariant keeps the state sound and lets no
  -- block of the program carry out of the low half of the count, and whose code it supports, if the
  -- library gives the code that was appended.
  pub mir_translator-IsFaithful :
      (p : Program mem)
      → ((s : CpuState M) → p.Inv s → IsSound Inv s)
      → ((addr : ℕ) → p.Code addr → IsSupported (p.code addr).opcode (p.code addr))
      → ((s : CpuState M) (ns : List Instruction)
          → p.Inv s
          → IsLine mem p s.pc ns
          → s.icount % 2 ^ 32 + length ns < 2 ^ 32)
      → (compile : Code M → Outcome (Code M)) → Compiles compile
      → IsFaithful mem p (mir_translator mem mir compile)
  mir_translator-IsFaithful p sound own no_carry compile compiles =
      library_translator-IsFaithful mem p IsSupported own (append_insns mem mir) compile
        (λ n ns s h l all.
          Yields-map (append_insns mem mir (n ∷ ns))
            (λ code does.
              does
              ∙ add_low-interpret_insns mem n ns s (no_carry s (n ∷ ns) h l)
                  (sound s h).0.icount_long)
            (append_insns-run_insns (n ∷ ns) s (sound s h) all))
        compiles
