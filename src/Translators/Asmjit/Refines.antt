-- ===== src/Translators/Asmjit/Refines.antt =====
-- The asmjit translator against the interpreter: instructions, blocks, and what the engine asks for.
use jit_research.Base.{
  Yields, Yields-map, >>=-Yields, >>=_ok, ℕ, ◌+◌, ◌%◌, ◌^◌, ◌<◌, ◌≡◌, refl, sym, ap, ◌∙◌, List, ◌∷◌,
  length, true, false, Outcome, ok, ◌>>=◌, bit_and, bit_or, bit_xor,
}
use jit_research.Isa.Word.{plus, minus, word_size}
use jit_research.Isa.Opcode.{Opcode}
use jit_research.Isa.Decode.{Instruction}
use jit_research.Isa.Decode.Bounds.{IsDecodable}
use jit_research.Memory.{MemoryOps, KeepsWidths, byte, half, word}
use jit_research.CpuState.{CpuState, set_pc, emulate_sys_call}
use jit_research.Interpreter.{handler}
use jit_research.Interpreter.Handlers.{
  sll_helper, srl_helper, sra_helper, register_register_op, register_imm_op, br_helper, do_add,
  do_addi, do_and, do_andi, do_beq, do_bge, do_bgeu, do_blt, do_bltu, do_bne, do_ebreak, do_ecall,
  do_fence, do_or, do_ori, do_sll, do_slli, do_slt, do_slti, do_sltiu, do_sltu, do_sra, do_srai,
  do_srl, do_srli, do_sub, do_xor, do_xori,
}
use jit_research.Interpreter.Accesses.{do_lb, do_lbu, do_lh, do_lhu, do_lw, do_sb, do_sh, do_sw}
use jit_research.Interpreter.Shifts.{sll_helper-mask, srl_helper-mask, sra_helper-mask}
use jit_research.Interpreter.Valid.{IsSound}
use jit_research.Jit.Blocks.{Program, IsLine}
use jit_research.Jit.Cache.{Code}
use jit_research.Jit.Counted.{run_insns}
use jit_research.Translators.LowCount.{add_low, add_low-interpret_insns}
use jit_research.Jit.Refines.{IsFaithful}
use jit_research.Translators.Access.{syscall_helper}
use jit_research.Translators.Emit.{Does, All, Supports, emit_insns, emit_insns-Does}
use jit_research.Translators.Faithful.{Compiles, finish-run_insns, library_translator-IsFaithful}
use jit_research.Translators.X86
use jit_research.Translators.X86.{X86, IsX86, holds}
use jit_research.Translators.Asmjit.{
  r_op, i_op, r_cmp_op, i_cmp_op, b_cond_op, s_op, l_op, jal_op, jalr_op, lui_op, auipc_op, build,
  advance_pc, update_icount, compile_insns, asmjit_translator,
}
use jit_research.Translators.Asmjit.Correct.{
  r-handler, i-handler, r_cmp-handler, i_cmp-handler, b_cond-handler, lui-handler, auipc-handler,
  jal-handler, jalr-handler, l-handler, s-handler, move_pc,
}

-- Nothing more is asked of an instruction.
abbrev pub IsSupported : Opcode → Instruction → Type 0
IsSupported op n = Unit

module _ {M : Type 0} (mem : MemoryOps M) (x86 : X86 M) (law : IsX86 x86) (stale : CpuState M → ℕ)
    (Inv : M → Type 0) (keeps : KeepsWidths mem Inv) where
  module _ (n : Instruction) where
    build-Does :
        (op : Opcode)
        → IsDecodable op
        → Yields (Does Inv (λ s. s) (handler mem op n)) (build mem x86 stale op n)
    unfolding build handler r_op i_op r_cmp_op i_cmp_op b_cond_op jal_op jalr_op lui_op auipc_op
        syscall_helper register_register_op register_imm_op br_helper do_add do_addi do_and do_andi
        do_beq do_bge do_bgeu do_blt do_bltu do_bne do_ebreak do_ecall do_fence do_lb do_lbu do_lh
        do_lhu do_lw do_or do_ori do_sb do_sh do_sll do_slli do_slt do_slti do_sltiu do_sltu do_sra
        do_srai do_srl do_srli do_sub do_sw do_xor do_xori
    build-Does Opcode.add d = λ s h. r-handler mem x86 law stale n s h.0.x0 x86.add plus law.add_law
    build-Does Opcode.addi d =
        λ s h. i-handler mem x86 law stale n s h.0.x0 x86.add plus (λ x. law.add_law x n.imm)
    build-Does Opcode.and d =
        λ s h. r-handler mem x86 law stale n s h.0.x0 x86.and bit_and law.and_law
    build-Does Opcode.andi d =
        λ s h. i-handler mem x86 law stale n s h.0.x0 x86.and bit_and (λ x. law.and_law x n.imm)
    build-Does Opcode.auipc d = λ s h. auipc-handler mem x86 law stale n s h.0.x0
    build-Does Opcode.beq d = λ s h. b_cond-handler mem x86 law stale n s h.0.x0 X86.e
    build-Does Opcode.bge d = λ s h. b_cond-handler mem x86 law stale n s h.0.x0 X86.ge
    build-Does Opcode.bgeu d = λ s h. b_cond-handler mem x86 law stale n s h.0.x0 X86.ae
    build-Does Opcode.blt d = λ s h. b_cond-handler mem x86 law stale n s h.0.x0 X86.l
    build-Does Opcode.bltu d = λ s h. b_cond-handler mem x86 law stale n s h.0.x0 X86.b
    build-Does Opcode.bne d = λ s h. b_cond-handler mem x86 law stale n s h.0.x0 X86.ne
    build-Does Opcode.ebreak d = λ s h. refl
    build-Does Opcode.ecall d = λ s h. >>=_ok (emulate_sys_call s)
    build-Does Opcode.fence d = λ s h. refl
    build-Does Opcode.jal d = λ s h. jal-handler mem x86 law stale n s h.0.x0
    build-Does Opcode.jalr d = λ s h. jalr-handler mem x86 law stale n s h.0.x0
    build-Does Opcode.lb d = λ s h.
        >>=_ok (l_op mem x86 stale byte _ n s)
        ∙ l-handler mem x86 law stale n s h.0.x0 Inv keeps h.1 byte true _
            (λ x lt. ap x86.movsx8 (law.returned_law byte x) ∙ law.movsx8_law x lt)
    build-Does Opcode.lbu d = λ s h.
        >>=_ok (l_op mem x86 stale byte _ n s)
        ∙ l-handler mem x86 law stale n s h.0.x0 Inv keeps h.1 byte false _
            (λ x lt. law.returned_law byte x)
    build-Does Opcode.lh d = λ s h.
        >>=_ok (l_op mem x86 stale half _ n s)
        ∙ l-handler mem x86 law stale n s h.0.x0 Inv keeps h.1 half true _
            (λ x lt. ap x86.movsx16 (law.returned_law half x) ∙ law.movsx16_law x lt)
    build-Does Opcode.lhu d = λ s h.
        >>=_ok (l_op mem x86 stale half _ n s)
        ∙ l-handler mem x86 law stale n s h.0.x0 Inv keeps h.1 half false _
            (λ x lt. law.returned_law half x)
    build-Does Opcode.lui d = λ s h. lui-handler mem x86 law stale n s h.0.x0
    build-Does Opcode.lw d = λ s h.
        >>=_ok (l_op mem x86 stale word _ n s)
        ∙ l-handler mem x86 law stale n s h.0.x0 Inv keeps h.1 word false _
            (λ x lt. law.returned_law word x)
    build-Does Opcode.or d = λ s h. r-handler mem x86 law stale n s h.0.x0 x86.or bit_or law.or_law
    build-Does Opcode.ori d =
        λ s h. i-handler mem x86 law stale n s h.0.x0 x86.or bit_or (λ x. law.or_law x n.imm)
    build-Does Opcode.pause d = absurd d
    build-Does Opcode.sb d =
        λ s h. >>=_ok (s_op mem x86 stale byte n s) ∙ s-handler mem x86 law stale n s h.0.x0 byte
    build-Does Opcode.sbreak d = absurd d
    build-Does Opcode.scall d = absurd d
    build-Does Opcode.sh d =
        λ s h. >>=_ok (s_op mem x86 stale half n s) ∙ s-handler mem x86 law stale n s h.0.x0 half
    build-Does Opcode.sll d = λ s h.
        r-handler mem x86 law stale n s h.0.x0 x86.shl sll_helper
          (λ x y. law.shl_law x y ∙ sym (sll_helper-mask x y))
    build-Does Opcode.slli d = λ s h.
        i-handler mem x86 law stale n s h.0.x0 x86.shl sll_helper
          (λ x. law.shl_law x n.imm ∙ sym (sll_helper-mask x n.imm))
    build-Does Opcode.slt d = λ s h. r_cmp-handler mem x86 law stale n s h.0.x0 X86.g
    build-Does Opcode.slti d = λ s h. i_cmp-handler mem x86 law stale n s h.0.x0 X86.l
    build-Does Opcode.sltiu d = λ s h. i_cmp-handler mem x86 law stale n s h.0.x0 X86.b
    build-Does Opcode.sltu d = λ s h. r_cmp-handler mem x86 law stale n s h.0.x0 X86.a
    build-Does Opcode.sra d = λ s h.
        r-handler mem x86 law stale n s h.0.x0 x86.sar_by sra_helper
          (λ x y. law.sar_law x y ∙ sym (sra_helper-mask x y))
    build-Does Opcode.srai d = λ s h.
        i-handler mem x86 law stale n s h.0.x0 x86.sar_by sra_helper
          (λ x. law.sar_law x n.imm ∙ sym (sra_helper-mask x n.imm))
    build-Does Opcode.srl d = λ s h.
        r-handler mem x86 law stale n s h.0.x0 x86.shr srl_helper
          (λ x y. law.shr_law x y ∙ sym (srl_helper-mask x y))
    build-Does Opcode.srli d = λ s h.
        i-handler mem x86 law stale n s h.0.x0 x86.shr srl_helper
          (λ x. law.shr_law x n.imm ∙ sym (srl_helper-mask x n.imm))
    build-Does Opcode.sub d =
        λ s h. r-handler mem x86 law stale n s h.0.x0 x86.sub minus law.sub_law
    build-Does Opcode.sw d =
        λ s h. >>=_ok (s_op mem x86 stale word n s) ∙ s-handler mem x86 law stale n s h.0.x0 word
    build-Does Opcode.xor d =
        λ s h. r-handler mem x86 law stale n s h.0.x0 x86.xor bit_xor law.xor_law
    build-Does Opcode.xori d =
        λ s h. i-handler mem x86 law stale n s h.0.x0 x86.xor bit_xor (λ x. law.xor_law x n.imm)
    build-Does Opcode.num_opcodes d = absurd d

  advance_pc-set_pc : (s : CpuState M) → advance_pc mem x86 stale s ≡ set_pc (plus s.pc word_size) s
  unfolding advance_pc
  advance_pc-set_pc s = move_pc mem x86 law stale word_size s

  body-Does :
      (ns : List Instruction)
      → All (Supports IsSupported) ns
      → Yields
          (Does Inv (λ s. s) (run_insns mem ns))
          (emit_insns (λ n. build mem x86 stale n.opcode n) (advance_pc mem x86 stale) ns)
  body-Does ns all =
      emit_insns-Does mem Inv keeps (λ s. s) (λ n. build mem x86 stale n.opcode n)
        (advance_pc mem x86 stale) IsSupported
        (λ n sup. build-Does n n.opcode sup.well_formed.decodable) advance_pc-set_pc ns all

  -- For a block of instructions with operands in range, `AsmJit::translate` ends with a value, and
  -- from a sound state its code runs the block and adds the block's length to the low half of the
  -- count, without a carry into the high half; also where an access or a call throws.
  pub compile_insns-run_insns :
      (ns : List Instruction) (s : CpuState M)
      → IsSound Inv s
      → All (Supports IsSupported) ns
      → Yields
          (λ code. code s ≡ (run_insns mem ns s >>= add_low (length ns)))
          (compile_insns mem x86 stale ns)
  unfolding compile_insns update_icount
  compile_insns-run_insns ns s sound all =
      >>=-Yields (Does Inv (λ s. s) (run_insns mem ns)) _
        (emit_insns (λ n. build mem x86 stale n.opcode n) (advance_pc mem x86 stale) ns) _
        (body-Does ns all)
        λ body does.
          finish-run_insns mem Inv (λ s. s) ns body s s (update_icount mem x86 stale (length ns))
            (add_low (length ns)) does sound refl
            (λ t same. ap ok (law.add_to_icount_law (length ns) t))

  -- The translator `asmjit` is faithful on a program whose invariant keeps the state sound and lets no
  -- block of the program carry out of the low half of the count, if the library gives the code that
  -- was emitted.
  pub asmjit_translator-IsFaithful :
      (p : Program mem)
      → ((s : CpuState M) → p.Inv s → IsSound Inv s)
      → ((s : CpuState M) (ns : List Instruction)
          → p.Inv s
          → IsLine mem p s.pc ns
          → s.icount % 2 ^ 32 + length ns < 2 ^ 32)
      → (compile : Code M → Outcome (Code M)) → Compiles compile
      → IsFaithful mem p (asmjit_translator mem x86 stale compile)
  asmjit_translator-IsFaithful p sound no_carry compile compiles =
      library_translator-IsFaithful mem p IsSupported (λ addr c. tt) (compile_insns mem x86 stale)
        compile
        (λ n ns s h l all.
          Yields-map (compile_insns mem x86 stale (n ∷ ns))
            (λ code does.
              does
              ∙ add_low-interpret_insns mem n ns s (no_carry s (n ∷ ns) h l)
                  (sound s h).0.icount_long)
            (compile_insns-run_insns (n ∷ ns) s (sound s h) all))
        compiles
