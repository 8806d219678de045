-- ===== src/Translators/Xbyak/Refines.antt =====
-- The xbyak translator against the interpreter: instructions, blocks, and what the engine asks for.
use jit_research.Base.{
  Yields, Yields-map, >>=_ok, ◌*◌, ◌/◌, ◌%◌, ◌^◌, ◌≡◌, refl, sym, ap, ◌∙◌, List, ◌∷◌, true, false,
  Outcome, bit_and, bit_or, bit_xor,
}
use jit_research.Isa.Word.{plus, minus, to_word, sar, word_size}
use jit_research.Isa.Word.Amounts.{mask_byte}
use jit_research.Isa.Opcode.{Opcode}
use jit_research.Isa.Decode.{Instruction}
use jit_research.Isa.Decode.Bounds.{IsDecodable}
use jit_research.Memory.{MemoryOps, KeepsWidths, byte, half, word}
use jit_research.CpuState.{CpuState, set_pc, emulate_sys_call}
use jit_research.Interpreter.{handler}
use jit_research.Interpreter.Handlers.{
  sll_helper, srl_helper, sra_helper, register_register_op, register_imm_op, br_helper, do_add,
  do_addi, do_and, do_andi, do_beq, do_bge, do_bgeu, do_blt, do_bltu, do_bne, do_ebreak, do_ecall,
  do_fence, do_or, do_ori, do_sll, do_slli, do_slt, do_slti, do_sltiu, do_sltu, do_sra, do_srai,
  do_srl, do_srli, do_sub, do_xor, do_xori,
}
use jit_research.Interpreter.Accesses.{do_lb, do_lbu, do_lh, do_lhu, do_lw, do_sb, do_sh, do_sw}
use jit_research.Interpreter.Shifts.{sll_helper-mask, srl_helper-mask, sra_helper-mask}
use jit_research.Interpreter.Valid.{IsSound}
use jit_research.Jit.{interpret_insns}
use jit_research.Jit.Blocks.{Program}
use jit_research.Jit.Cache.{Code}
use jit_research.Jit.Refines.{IsFaithful}
use jit_research.Engine.{count_one}
use jit_research.Translators.Access.{syscall_helper}
use jit_research.Translators.Emit.{Does, All, Supports, emit_closed-interpret_insns}
use jit_research.Translators.Faithful.{Compiles, library_translator-IsFaithful}
use jit_research.Translators.X86
use jit_research.Translators.X86.{X86, IsX86, holds}
use jit_research.Translators.Xbyak.{
  reg_op, imm_op, auipc_op, branch_op, jal_op, jalr_op, lui_op, load_op, set_op, set_imm_op,
  shift_op, store_op, build, advance_pc, count_insn, generate, xbyak_translator,
}
use jit_research.Translators.Xbyak.Correct.{
  reg-handler, imm-handler, shift-handler, set-handler, set_imm-handler, branch-handler,
  lui-handler, auipc-handler, jal-handler, jalr-handler, load-handler, store-handler,
}

-- Nothing more is asked of an instruction.
abbrev pub IsSupported : Opcode → Instruction → Type 0
IsSupported op n = Unit

module _ {M : Type 0} (mem : MemoryOps M) (x86 : X86 M) (law : IsX86 x86) (Inv : M → Type 0)
    (keeps : KeepsWidths mem Inv) where
  module _ (n : Instruction) where
    build-Does :
        (op : Opcode)
        → IsDecodable op
        → Yields (Does Inv (λ s. s) (handler mem op n)) (build mem x86 op n)
    unfolding build handler reg_op imm_op auipc_op branch_op jal_op jalr_op lui_op set_op set_imm_op
        shift_op syscall_helper register_register_op register_imm_op br_helper do_add do_addi do_and
        do_andi do_beq do_bge do_bgeu do_blt do_bltu do_bne do_ebreak do_ecall do_fence do_lb do_lbu
        do_lh do_lhu do_lw do_or do_ori do_sb do_sh do_sll do_slli do_slt do_slti do_sltiu do_sltu
        do_sra do_srai do_srl do_srli do_sub do_sw do_xor do_xori
    build-Does Opcode.add d = λ s h. reg-handler mem x86 law n s x86.add plus law.add_law
    build-Does Opcode.addi d =
        λ s h. imm-handler mem x86 law n s x86.add plus (λ x. law.add_law x n.imm)
    build-Does Opcode.and d = λ s h. reg-handler mem x86 law n s x86.and bit_and law.and_law
    build-Does Opcode.andi d =
        λ s h. imm-handler mem x86 law n s x86.and bit_and (λ x. law.and_law x n.imm)
    build-Does Opcode.auipc d = λ s h. auipc-handler mem x86 law n s
    build-Does Opcode.beq d = λ s h. branch-handler mem x86 law n s X86.e
    build-Does Opcode.bge d = λ s h. branch-handler mem x86 law n s X86.ge
    build-Does Opcode.bgeu d = λ s h. branch-handler mem x86 law n s X86.ae
    build-Does Opcode.blt d = λ s h. branch-handler mem x86 law n s X86.l
    build-Does Opcode.bltu d = λ s h. branch-handler mem x86 law n s X86.b
    build-Does Opcode.bne d = λ s h. branch-handler mem x86 law n s X86.ne
    build-Does Opcode.ebreak d = λ s h. refl
    build-Does Opcode.ecall d = λ s h. >>=_ok (emulate_sys_call s)
    build-Does Opcode.fence d = λ s h. refl
    build-Does Opcode.jal d = λ s h. jal-handler mem x86 law n s
    build-Does Opcode.jalr d = λ s h. jalr-handler mem x86 law n s
    build-Does Opcode.lb d = λ s h.
        >>=_ok (load_op mem x86 byte _ n s)
        ∙ load-handler mem x86 law n s Inv keeps h.1 byte true _ (λ x lt.
          ap (λ r. x86.cwde (x86.cbw r)) (law.returned_law byte x) ∙ law.cbw_cwde_law x lt)
    build-Does Opcode.lbu d = λ s h.
        >>=_ok (load_op mem x86 byte _ n s)
        ∙ load-handler mem x86 law n s Inv keeps h.1 byte false _ (λ x lt. law.returned_law byte x)
    build-Does Opcode.lh d = λ s h.
        >>=_ok (load_op mem x86 half _ n s)
        ∙ load-handler mem x86 law n s Inv keeps h.1 half true _
            (λ x lt. ap x86.cwde (law.returned_law half x) ∙ law.cwde_law x lt)
    build-Does Opcode.lhu d = λ s h.
        >>=_ok (load_op mem x86 half _ n s)
        ∙ load-handler mem x86 law n s Inv keeps h.1 half false _ (λ x lt. law.returned_law half x)
    build-Does Opcode.lui d = λ s h. lui-handler mem x86 law n s
    build-Does Opcode.lw d = λ s h.
        >>=_ok (load_op mem x86 word _ n s)
        ∙ load-handler mem x86 law n s Inv keeps h.1 word false _ (λ x lt. law.returned_law word x)
    build-Does Opcode.or d = λ s h. reg-handler mem x86 law n s x86.or bit_or law.or_law
    build-Does Opcode.ori d =
        λ s h. imm-handler mem x86 law n s x86.or bit_or (λ x. law.or_law x n.imm)
    build-Does Opcode.pause d = absurd d
    build-Does Opcode.sb d =
        λ s h. >>=_ok (store_op mem x86 byte n s) ∙ store-handler mem x86 law n s byte
    build-Does Opcode.sbreak d = absurd d
    build-Does Opcode.scall d = absurd d
    build-Does Opcode.sh d =
        λ s h. >>=_ok (store_op mem x86 half n s) ∙ store-handler mem x86 law n s half
    build-Does Opcode.sll d = λ s h. shift-handler mem x86 law n s x86.shl sll_helper (λ x y.
        law.shl_law x (y % 2 ^ 8)
        ∙ ap (λ c. to_word (x * 2 ^ c)) (mask_byte y)
        ∙ sym (sll_helper-mask x y))
    build-Does Opcode.slli d = λ s h.
        imm-handler mem x86 law n s x86.shl sll_helper
          (λ x. law.shl_law x n.imm ∙ sym (sll_helper-mask x n.imm))
    build-Does Opcode.slt d = λ s h. set-handler mem x86 law n s X86.l
    build-Does Opcode.slti d = λ s h. set_imm-handler mem x86 law n s X86.l
    build-Does Opcode.sltiu d = λ s h. set_imm-handler mem x86 law n s X86.b
    build-Does Opcode.sltu d = λ s h. set-handler mem x86 law n s X86.b
    build-Does Opcode.sra d = λ s h. shift-handler mem x86 law n s x86.sar_by sra_helper (λ x y.
        law.sar_law x (y % 2 ^ 8) ∙ ap (λ c. sar x c) (mask_byte y) ∙ sym (sra_helper-mask x y))
    build-Does Opcode.srai d = λ s h.
        imm-handler mem x86 law n s x86.sar_by sra_helper
          (λ x. law.sar_law x n.imm ∙ sym (sra_helper-mask x n.imm))
    build-Does Opcode.srl d = λ s h. shift-handler mem x86 law n s x86.shr srl_helper (λ x y.
        law.shr_law x (y % 2 ^ 8) ∙ ap (λ c. x / 2 ^ c) (mask_byte y) ∙ sym (srl_helper-mask x y))
    build-Does Opcode.srli d = λ s h.
        imm-handler mem x86 law n s x86.shr srl_helper
          (λ x. law.shr_law x n.imm ∙ sym (srl_helper-mask x n.imm))
    build-Does Opcode.sub d = λ s h. reg-handler mem x86 law n s x86.sub minus law.sub_law
    build-Does Opcode.sw d =
        λ s h. >>=_ok (store_op mem x86 word n s) ∙ store-handler mem x86 law n s word
    build-Does Opcode.xor d = λ s h. reg-handler mem x86 law n s x86.xor bit_xor law.xor_law
    build-Does Opcode.xori d =
        λ s h. imm-handler mem x86 law n s x86.xor bit_xor (λ x. law.xor_law x n.imm)
    build-Does Opcode.num_opcodes d = absurd d

  advance_pc-set_pc : (s : CpuState M) → advance_pc mem x86 s ≡ set_pc (plus s.pc word_size) s
  unfolding advance_pc set_pc
  advance_pc-set_pc s = law.add_to_pc_law word_size s

  count_insn-count_one : (s : CpuState M) → count_insn mem x86 s ≡ count_one s
  unfolding count_insn
  count_insn-count_one s = law.inc64_law s

  -- For a block of instructions with operands in range, the loop of `XByakJit::translate` ends with a
  -- value, and from a sound state its code does what interpreting the block does, also where an
  -- access or a call throws.
  pub generate-interpret_insns :
      (ns : List Instruction) (s : CpuState M)
      → IsSound Inv s
      → All (Supports IsSupported) ns
      → Yields (λ code. code s ≡ interpret_insns mem ns s) (generate mem x86 ns)
  unfolding generate
  generate-interpret_insns ns s sound all =
      Yields-map (generate mem x86 ns) (λ code does. sym (>>=_ok (code s)) ∙ does s sound)
        (emit_closed-interpret_insns mem Inv keeps (λ s. s) (λ n. build mem x86 n.opcode n)
          (advance_pc mem x86) IsSupported
          (λ n sup. build-Does n n.opcode sup.well_formed.decodable) advance_pc-set_pc
          (count_insn mem x86) count_insn-count_one ns all)

  -- The translator `xbyak` is faithful on a program whose invariant keeps the state sound, if the
  -- assembler gives the code that was emitted.
  pub xbyak_translator-IsFaithful :
      (p : Program mem)
      → ((s : CpuState M) → p.Inv s → IsSound Inv s)
      → (compile : Code M → Outcome (Code M)) → Compiles compile
      → IsFaithful mem p (xbyak_translator mem x86 compile)
  xbyak_translator-IsFaithful p sound compile compiles =
      library_translator-IsFaithful mem p IsSupported (λ addr c. tt) (generate mem x86) compile
        (λ n ns s h l all. generate-interpret_insns (n ∷ ns) s (sound s h) all) compiles
