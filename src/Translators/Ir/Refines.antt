-- ===== src/Translators/Ir/Refines.antt =====
-- The IR translator against the interpreter: instructions, blocks, and what the engine asks for.
use jit_research.Base.{
  Yields, >>=-Yields, ℕ, ◌<◌, ◌≡◌, refl, sym, ap, ◌∙◌, List, ◌∷◌, length, not, true, false, ◌||◌,
  Outcome, ◌==◌, ltb, leb, bit_and, bit_or, bit_xor,
}
use jit_research.Isa.Word.{plus, minus, word_size, signed_less}
use jit_research.Isa.Opcode.{Opcode}
use jit_research.Isa.Decode.{Instruction}
use jit_research.Isa.Decode.Bounds.{IsDecodable, shifts_by_imm}
use jit_research.Memory.{MemoryOps, KeepsWidths, byte, half, word}
use jit_research.CpuState.{CpuState, set_pc}
use jit_research.Interpreter.{handler}
use jit_research.Interpreter.Handlers.{
  bool_word, sll_helper, srl_helper, sra_helper, do_add, do_addi, do_and, do_andi, do_beq, do_bge,
  do_bgeu, do_blt, do_bltu, do_bne, do_ebreak, do_fence, do_or, do_ori, do_sll, do_slli, do_slt,
  do_slti, do_sltiu, do_sltu, do_sra, do_srai, do_srl, do_srli, do_sub, do_xor, do_xori,
}
use jit_research.Interpreter.Accesses.{do_lb, do_lbu, do_lh, do_lhu, do_lw, do_sb, do_sh, do_sw}
use jit_research.Interpreter.Shifts.{sll_helper-small, srl_helper-small, sra_helper-small}
use jit_research.Interpreter.Valid.{IsSound}
use jit_research.Jit.{interpret_insns}
use jit_research.Jit.Blocks.{Program}
use jit_research.Jit.Cache.{Code}
use jit_research.Jit.Counted.{run_insns, add_count}
use jit_research.Jit.Refines.{IsFaithful}
use jit_research.Translators.Emit.{Does, All, Supports, emit_insns, emit_insns-Does}
use jit_research.Translators.Faithful.{
  Compiles, finish-interpret_insns, library_translator-IsFaithful,
}
use jit_research.Translators.Ir.{Ir, IsIr}
use jit_research.Translators.Ir.Run.{IrState, build, advance_pc, enter, leave, run, ir_translator}
use jit_research.Translators.Ir.Correct.{
  view, r-handler, i-handler, comp_r-handler, comp_i-handler, b_cond-handler, lui-handler,
  auipc-handler, jal-handler, jalr-handler, ecall-handler, load-handler, store-handler,
}

-- What is asked of an instruction: a `JALR` does not jump by the register that it writes, since the
-- translator stores the return address before it loads the base. The shifts by a register are left out,
-- since it does not mask the amount.
abbrev pub IsSupported : Opcode → Instruction → Type 0
IsSupported Opcode.jalr n = (not (n.rd == n.rs1) || (n.rd == 0)) ≡ true
IsSupported Opcode.sll n = ⊥
IsSupported Opcode.srl n = ⊥
IsSupported Opcode.sra n = ⊥
IsSupported op n = Unit

module _ {M : Type 0} (mem : MemoryOps M) (b : Ir M) (law : IsIr b) (Inv : M → Type 0) where
  module _ (n : Instruction) where
    build-Does :
        (op : Opcode)
        → IsDecodable op
        → (shifts_by_imm op ≡ true → n.imm < 32)
        → IsSupported op n
        → Yields (Does Inv view (handler mem op n)) (build mem b op n)
    unfolding build handler do_add do_addi do_and do_andi do_beq do_bge do_bgeu do_blt do_bltu
        do_bne do_ebreak do_fence do_lb do_lbu do_lh do_lhu do_lw do_or do_ori do_sb do_sh do_sll
        do_slli do_slt do_slti do_sltiu do_sltu do_sra do_srai do_srl do_srli do_sub do_sw do_xor
        do_xori
    build-Does Opcode.add d amount own =
        λ u h. r-handler mem b law Inv n u h b.add_u32 plus law.add_law
    build-Does Opcode.addi d amount own =
        λ u h. i-handler mem b law Inv n u h b.add_u32 plus (λ x. law.add_law x n.imm)
    build-Does Opcode.and d amount own =
        λ u h. r-handler mem b law Inv n u h b.and_u32 bit_and law.and_law
    build-Does Opcode.andi d amount own =
        λ u h. i-handler mem b law Inv n u h b.and_u32 bit_and (λ x. law.and_law x n.imm)
    build-Does Opcode.auipc d amount own = λ u h. auipc-handler mem b law Inv n u h
    build-Does Opcode.beq d amount own =
        λ u h. b_cond-handler mem b law Inv n u h b.eq ◌==◌ law.eq_law
    build-Does Opcode.bge d amount own =
        λ u h. b_cond-handler mem b law Inv n u h b.ge (λ x y. not (signed_less x y)) law.ge_law
    build-Does Opcode.bgeu d amount own =
        λ u h. b_cond-handler mem b law Inv n u h b.uge (λ x y. leb y x) law.uge_law
    build-Does Opcode.blt d amount own =
        λ u h. b_cond-handler mem b law Inv n u h b.lt signed_less law.lt_law
    build-Does Opcode.bltu d amount own =
        λ u h. b_cond-handler mem b law Inv n u h b.ult ltb law.ult_law
    build-Does Opcode.bne d amount own =
        λ u h. b_cond-handler mem b law Inv n u h b.ne (λ x y. not (x == y)) law.ne_law
    build-Does Opcode.ebreak d amount own = λ u h. refl
    build-Does Opcode.ecall d amount own = λ u h. ecall-handler mem b law Inv n u h
    build-Does Opcode.fence d amount own = λ u h. refl
    build-Does Opcode.jal d amount own = λ u h. jal-handler mem b law Inv n u h
    build-Does Opcode.jalr d amount own = λ u h. jalr-handler mem b law Inv n u h own
    build-Does Opcode.lb d amount own =
        λ u h. load-handler mem b law Inv n u h byte true (b.sext_u32 byte) law.sext8_law
    build-Does Opcode.lbu d amount own =
        λ u h. load-handler mem b law Inv n u h byte false b.zext_u32 law.zext_law
    build-Does Opcode.lh d amount own =
        λ u h. load-handler mem b law Inv n u h half true (b.sext_u32 half) law.sext16_law
    build-Does Opcode.lhu d amount own =
        λ u h. load-handler mem b law Inv n u h half false b.zext_u32 law.zext_law
    build-Does Opcode.lui d amount own = λ u h. lui-handler mem b law Inv n u h
    build-Does Opcode.lw d amount own =
        λ u h. load-handler mem b law Inv n u h word false (b.sext_u32 word) law.sext32_law
    build-Does Opcode.or d amount own =
        λ u h. r-handler mem b law Inv n u h b.or_u32 bit_or law.or_law
    build-Does Opcode.ori d amount own =
        λ u h. i-handler mem b law Inv n u h b.or_u32 bit_or (λ x. law.or_law x n.imm)
    build-Does Opcode.pause d amount own = absurd d
    build-Does Opcode.sb d amount own = λ u h. store-handler mem b law Inv n u h byte
    build-Does Opcode.sbreak d amount own = absurd d
    build-Does Opcode.scall d amount own = absurd d
    build-Does Opcode.sh d amount own = λ u h. store-handler mem b law Inv n u h half
    build-Does Opcode.sll d amount own = absurd own
    build-Does Opcode.slli d amount own = λ u h.
        i-handler mem b law Inv n u h b.shl_u32 sll_helper
          (λ x. law.shl_law x n.imm (amount refl) ∙ sym (sll_helper-small x n.imm (amount refl)))
    build-Does Opcode.slt d amount own = λ u h.
        comp_r-handler mem b law Inv n u h b.lt (λ x y. bool_word (signed_less x y)) law.lt_law
    build-Does Opcode.slti d amount own = λ u h.
        comp_i-handler mem b law Inv n u h b.lt (λ x y. bool_word (signed_less x y))
          (λ x. law.lt_law x n.imm)
    build-Does Opcode.sltiu d amount own = λ u h.
        comp_i-handler mem b law Inv n u h b.ult (λ x y. bool_word (ltb x y))
          (λ x. law.ult_law x n.imm)
    build-Does Opcode.sltu d amount own =
        λ u h. comp_r-handler mem b law Inv n u h b.ult (λ x y. bool_word (ltb x y)) law.ult_law
    build-Does Opcode.sra d amount own = absurd own
    build-Does Opcode.srai d amount own = λ u h.
        i-handler mem b law Inv n u h b.sar_u32 sra_helper
          (λ x. law.sar_law x n.imm (amount refl) ∙ sym (sra_helper-small x n.imm (amount refl)))
    build-Does Opcode.srl d amount own = absurd own
    build-Does Opcode.srli d amount own = λ u h.
        i-handler mem b law Inv n u h b.shr_u32 srl_helper
          (λ x. law.shr_law x n.imm (amount refl) ∙ sym (srl_helper-small x n.imm (amount refl)))
    build-Does Opcode.sub d amount own =
        λ u h. r-handler mem b law Inv n u h b.sub_u32 minus law.sub_law
    build-Does Opcode.sw d amount own = λ u h. store-handler mem b law Inv n u h word
    build-Does Opcode.xor d amount own =
        λ u h. r-handler mem b law Inv n u h b.xor_u32 bit_xor law.xor_law
    build-Does Opcode.xori d amount own =
        λ u h. i-handler mem b law Inv n u h b.xor_u32 bit_xor (λ x. law.xor_law x n.imm)
    build-Does Opcode.num_opcodes d amount own = absurd d

  advance_pc-view :
      (u : IrState M) → view (advance_pc mem b u) ≡ set_pc (plus (view u).pc word_size) (view u)
  unfolding advance_pc set_pc
  advance_pc-view u = ap (λ q. set_pc q u.cpu) (law.add_law u.pc_ref word_size)

  enter-view : (s : CpuState M) → view (enter mem b s) ≡ s
  unfolding enter set_pc
  enter-view s = ap (λ q. set_pc q s) (law.load_pc_law s)

  leave-add_count : (k : ℕ) (u : IrState M) → leave mem b k u ≡ add_count k (view u)
  unfolding leave set_pc
  leave-add_count k u =
      rw
        (
          leave,
          law.store_pc_law,
          law.load_icount_law,
          law.add64_law u.cpu.icount k,
          law.store_icount_law,
        )
        refl

  -- For a block that is not empty, of supported instructions with operands in range, `IRJit::run`
  -- ends with a value, and from a sound state its code does what interpreting the block does, also
  -- where an access or a call throws.
  pub run-interpret_insns :
      (keeps : KeepsWidths mem Inv) (n : Instruction) (ns : List Instruction) (s : CpuState M)
      → IsSound Inv s
      → All (Supports IsSupported) (n ∷ ns)
      → Yields (λ code. code s ≡ interpret_insns mem (n ∷ ns) s) (run mem b (n ∷ ns))
  unfolding run
  run-interpret_insns keeps n ns s sound all =
      >>=-Yields (Does Inv view (run_insns mem (n ∷ ns))) _
        (emit_insns (λ n. build mem b n.opcode n) (advance_pc mem b) (n ∷ ns)) _
        (emit_insns-Does mem Inv keeps view (λ n. build mem b n.opcode n) (advance_pc mem b)
          IsSupported
          (λ n sup.
            build-Does n n.opcode sup.well_formed.decodable sup.well_formed.amount_lt sup.own)
          advance_pc-view (n ∷ ns) all)
        λ body does.
          finish-interpret_insns mem Inv view n ns body s (enter mem b s)
            (leave mem b (length (n ∷ ns))) does sound (enter-view s)
            (λ u same. leave-add_count (length (n ∷ ns)) u)

  -- The translator `ir` is faithful on a program whose invariant keeps the state sound and whose code
  -- it supports, if the library compiles what was emitted.
  pub ir_translator-IsFaithful :
      (keeps : KeepsWidths mem Inv) (p : Program mem)
      → ((s : CpuState M) → p.Inv s → IsSound Inv s)
      → ((addr : ℕ) → p.Code addr → IsSupported (p.code addr).opcode (p.code addr))
      → (compile : Code M → Outcome (Code M)) → Compiles compile
      → IsFaithful mem p (ir_translator mem b compile)
  ir_translator-IsFaithful keeps p sound own compile compiles =
      library_translator-IsFaithful mem p IsSupported own (run mem b) compile
        (λ n ns s h l all. run-interpret_insns keeps n ns s (sound s h) all) compiles
