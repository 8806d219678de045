-- ===== src/Translators/Llvm/Refines.antt =====
-- The LLVM translators against the interpreter: instructions, blocks, and what the engine asks for.
use jit_research.Base.{
  bit_and, bit_or, bit_xor, Yields, >>=-Yields, >>=_ok, ℕ, ◌<◌, ◌≡◌, refl, ◌∙◌, List, ◌∷◌, length,
  not, true, false, Outcome, ◌==◌, ltb, leb,
}
use jit_research.Isa.Word.{plus, minus, word_size, signed_less}
use jit_research.Isa.Opcode.{Opcode}
use jit_research.Isa.Decode.{Instruction}
use jit_research.Isa.Decode.Bounds.{IsDecodable, shifts_by_imm}
use jit_research.Memory.{MemoryOps, KeepsWidths, byte, half, word, width_mod}
use jit_research.CpuState.{CpuState, get_reg, set_pc, emulate_sys_call}
use jit_research.Interpreter.{handler}
use jit_research.Interpreter.Handlers.{
  bool_word, register_register_op, register_imm_op, br_helper, do_beq, do_bne, do_blt, do_bge,
  do_bltu, do_bgeu, do_addi, do_slti, do_sltiu, do_xori, do_ori, do_andi, do_slli, do_srli, do_srai,
  do_add, do_sub, do_sll, do_slt, do_sltu, do_xor, do_srl, do_sra, do_or, do_and, do_ebreak,
  do_ecall, do_fence,
}
use jit_research.Interpreter.Accesses.{do_lb, do_lbu, do_lh, do_lhu, do_lw, do_sb, do_sh, do_sw}
use jit_research.Interpreter.Valid.{IsSound}
use jit_research.Jit.{interpret_insns}
use jit_research.Jit.Blocks.{Program}
use jit_research.Jit.Cache.{Code}
use jit_research.Jit.Counted.{run_insns, add_count}
use jit_research.Jit.Refines.{IsFaithful}
use jit_research.Translators.Emit.{Does, All, Supports, emit_insns-Does}
use jit_research.Translators.Faithful.{
  Compiles, finish-interpret_insns, library_translator-IsFaithful,
}
use jit_research.Translators.Llvm.{Llvm, IsLlvm, i1, i8, i16, i32}
use jit_research.Translators.Llvm.Builder.{
  lui_build_ir, auipc_build_ir, jal_build_ir, jalr_build_ir, beq_build_ir, bne_build_ir,
  blt_build_ir, bge_build_ir, bltu_build_ir, bgeu_build_ir, addi_build_ir, slti_build_ir,
  sltiu_build_ir, xori_build_ir, ori_build_ir, andi_build_ir, slli_build_ir, srli_build_ir,
  srai_build_ir, add_build_ir, sub_build_ir, sll_build_ir, slt_build_ir, sltu_build_ir,
  xor_build_ir, srl_build_ir, sra_build_ir, or_build_ir, and_build_ir, do_syscall, load_build,
  store_build, generate_load, generate_store, advance_pc, branch_build, reg_build, imm_build,
}
use jit_research.Translators.Llvm.Translate.{
  build_opcode, build, build_insns, add_icount, translate, llvm_translator,
}
use jit_research.Translators.Llvm.Correct.{
  reg-handler, imm-handler, branch-handler, lui-handler, auipc-handler, jal-handler, jalr-handler,
  load-handler, store-handler, slli-handler, srli-handler, srai-handler,
}

-- What is asked of an instruction. The shifts by a register are left out: the builder does not mask the
-- amount, and a shift by 32 or more is poison.
abbrev pub IsSupported : Opcode → Instruction → Type 0
IsSupported Opcode.sll n = ⊥
IsSupported Opcode.srl n = ⊥
IsSupported Opcode.sra n = ⊥
IsSupported op n = Unit

module _ {M : Type 0} (mem : MemoryOps M) (b : Llvm M) (law : IsLlvm b) (Inv : M → Type 0) where
  module _ (n : Instruction) where
    source-lt : (s : CpuState M) → IsSound Inv s → get_reg n.rs2 s < width_mod word
    unfolding get_reg
    source-lt s h = h.0.words n.rs2

    build_opcode-Does :
        (op : Opcode)
        → IsDecodable op
        → (shifts_by_imm op ≡ true → n.imm < 32)
        → IsSupported op n
        → Yields (Does Inv (λ s. s) (handler mem op n)) (build_opcode mem b op n)
    unfolding build_opcode handler do_add do_addi do_and do_andi do_beq do_bge do_bgeu do_blt
        do_bltu do_bne do_ebreak do_ecall do_fence do_lb do_lbu do_lh do_lhu do_lw do_or do_ori
        do_sb do_sh do_sll do_slli do_slt do_slti do_sltiu do_sltu do_sra do_srai do_srl do_srli
        do_sub do_sw do_xor do_xori beq_build_ir bne_build_ir blt_build_ir bge_build_ir
        bltu_build_ir bgeu_build_ir addi_build_ir slti_build_ir sltiu_build_ir xori_build_ir
        ori_build_ir andi_build_ir slli_build_ir srli_build_ir srai_build_ir add_build_ir
        sub_build_ir sll_build_ir slt_build_ir sltu_build_ir xor_build_ir srl_build_ir sra_build_ir
        or_build_ir and_build_ir auipc_build_ir jal_build_ir jalr_build_ir lui_build_ir branch_build
        reg_build imm_build load_build store_build br_helper register_imm_op register_register_op
        generate_load generate_store do_syscall
    build_opcode-Does Opcode.add d amount own =
        λ s h. reg-handler mem b law n s (b.create_add i32) plus (λ x y. law.add_law x y)
    build_opcode-Does Opcode.addi d amount own =
        λ s h. imm-handler mem b law n s (b.create_add i32) plus (λ x. law.add_law x n.imm)
    build_opcode-Does Opcode.and d amount own =
        λ s h. reg-handler mem b law n s b.create_and bit_and (λ x y. law.and_law x y)
    build_opcode-Does Opcode.andi d amount own =
        λ s h. imm-handler mem b law n s b.create_and bit_and (λ x. law.and_law x n.imm)
    build_opcode-Does Opcode.auipc d amount own = λ s h. auipc-handler mem b law n s
    build_opcode-Does Opcode.beq d amount own =
        λ s h. branch-handler mem b law n s b.create_icmp_eq ◌==◌ law.eq_law
    build_opcode-Does Opcode.bge d amount own = λ s h.
        branch-handler mem b law n s b.create_icmp_sge (λ x y. not (signed_less x y)) law.sge_law
    build_opcode-Does Opcode.bgeu d amount own =
        λ s h. branch-handler mem b law n s b.create_icmp_uge (λ x y. leb y x) law.uge_law
    build_opcode-Does Opcode.blt d amount own =
        λ s h. branch-handler mem b law n s b.create_icmp_slt signed_less law.slt_law
    build_opcode-Does Opcode.bltu d amount own =
        λ s h. branch-handler mem b law n s b.create_icmp_ult ltb law.ult_law
    build_opcode-Does Opcode.bne d amount own =
        λ s h. branch-handler mem b law n s b.create_icmp_ne (λ x y. not (x == y)) law.ne_law
    build_opcode-Does Opcode.ebreak d amount own = λ s h. refl
    build_opcode-Does Opcode.ecall d amount own = λ s h. >>=_ok (emulate_sys_call s)
    build_opcode-Does Opcode.fence d amount own = λ s h. refl
    build_opcode-Does Opcode.jal d amount own = λ s h. jal-handler mem b law n s
    build_opcode-Does Opcode.jalr d amount own = λ s h. jalr-handler mem b law n s
    build_opcode-Does Opcode.lb d amount own = λ s h.
        >>=_ok (load_build mem b byte _ n s)
        ∙ load-handler mem b law n s byte true (b.create_sext i8) law.sext8_law
    build_opcode-Does Opcode.lbu d amount own = λ s h.
        >>=_ok (load_build mem b byte _ n s)
        ∙ load-handler mem b law n s byte false (b.create_zext i8) (law.zext_law i8)
    build_opcode-Does Opcode.lh d amount own = λ s h.
        >>=_ok (load_build mem b half _ n s)
        ∙ load-handler mem b law n s half true (b.create_sext i16) law.sext16_law
    build_opcode-Does Opcode.lhu d amount own = λ s h.
        >>=_ok (load_build mem b half _ n s)
        ∙ load-handler mem b law n s half false (b.create_zext i16) (law.zext_law i16)
    build_opcode-Does Opcode.lui d amount own = λ s h. lui-handler mem b law n s
    build_opcode-Does Opcode.lw d amount own = λ s h.
        >>=_ok (load_build mem b word _ n s)
        ∙ load-handler mem b law n s word false (b.create_zext i32) (law.zext_law i32)
    build_opcode-Does Opcode.or d amount own =
        λ s h. reg-handler mem b law n s b.create_or bit_or (λ x y. law.or_law x y)
    build_opcode-Does Opcode.ori d amount own =
        λ s h. imm-handler mem b law n s b.create_or bit_or (λ x. law.or_law x n.imm)
    build_opcode-Does Opcode.pause d amount own = absurd d
    build_opcode-Does Opcode.sb d amount own = λ s h.
        >>=_ok (store_build mem b byte n s) ∙ store-handler mem b law n s byte (source-lt s h)
    build_opcode-Does Opcode.sbreak d amount own = absurd d
    build_opcode-Does Opcode.scall d amount own = absurd d
    build_opcode-Does Opcode.sh d amount own = λ s h.
        >>=_ok (store_build mem b half n s) ∙ store-handler mem b law n s half (source-lt s h)
    build_opcode-Does Opcode.sll d amount own = absurd own
    build_opcode-Does Opcode.slli d amount own = λ s h. slli-handler mem b law n s (amount refl)
    build_opcode-Does Opcode.slt d amount own = λ s h.
        reg-handler mem b law n s (λ x y. b.create_zext i1 (b.create_icmp_slt x y))
          (λ x y. bool_word (signed_less x y)) (λ x y. law.zext_law i1 _ ∙ law.slt_law x y)
    build_opcode-Does Opcode.slti d amount own = λ s h.
        imm-handler mem b law n s (λ x y. b.create_zext i1 (b.create_icmp_slt x y))
          (λ x y. bool_word (signed_less x y)) (λ x. law.zext_law i1 _ ∙ law.slt_law x n.imm)
    build_opcode-Does Opcode.sltiu d amount own = λ s h.
        imm-handler mem b law n s (λ x y. b.create_zext i1 (b.create_icmp_ult x y))
          (λ x y. bool_word (ltb x y)) (λ x. law.zext_law i1 _ ∙ law.ult_law x n.imm)
    build_opcode-Does Opcode.sltu d amount own = λ s h.
        reg-handler mem b law n s (λ x y. b.create_zext i1 (b.create_icmp_ult x y))
          (λ x y. bool_word (ltb x y)) (λ x y. law.zext_law i1 _ ∙ law.ult_law x y)
    build_opcode-Does Opcode.sra d amount own = absurd own
    build_opcode-Does Opcode.srai d amount own = λ s h. srai-handler mem b law n s (amount refl)
    build_opcode-Does Opcode.srl d amount own = absurd own
    build_opcode-Does Opcode.srli d amount own = λ s h. srli-handler mem b law n s (amount refl)
    build_opcode-Does Opcode.sub d amount own =
        λ s h. reg-handler mem b law n s b.create_sub minus (λ x y. law.sub_law x y)
    build_opcode-Does Opcode.sw d amount own = λ s h.
        >>=_ok (store_build mem b word n s) ∙ store-handler mem b law n s word (source-lt s h)
    build_opcode-Does Opcode.xor d amount own =
        λ s h. reg-handler mem b law n s b.create_xor bit_xor (λ x y. law.xor_law x y)
    build_opcode-Does Opcode.xori d amount own =
        λ s h. imm-handler mem b law n s b.create_xor bit_xor (λ x. law.xor_law x n.imm)
    build_opcode-Does Opcode.num_opcodes d amount own = absurd d

  build-Does :
      (n : Instruction)
      → Supports IsSupported n
      → Yields (Does Inv (λ s. s) (handler mem n.opcode n)) (build mem b n)
  unfolding build
  build-Does n sup =
      build_opcode-Does n n.opcode sup.well_formed.decodable sup.well_formed.amount_lt sup.own

  advance_pc-set_pc : (s : CpuState M) → advance_pc mem b s ≡ set_pc (plus s.pc word_size) s
  unfolding advance_pc set_pc
  advance_pc-set_pc s =
      rw (advance_pc, law.load_pc_law s, law.add_law s.pc 4, law.store_pc_law) refl

  add_icount-add_count : (k : ℕ) (s : CpuState M) → add_icount mem b k s ≡ add_count k s
  unfolding add_icount
  add_icount-add_count k s =
      rw (add_icount, law.load_icount_law s, law.add64_law s.icount k, law.store_icount_law) refl

  -- For a block that is not empty, of supported instructions with operands in range, `ll::translate`
  -- ends with a value, and from a sound state its code does what interpreting the block does, also
  -- where an access or a call throws.
  pub translate-interpret_insns :
      (keeps : KeepsWidths mem Inv) (n : Instruction) (ns : List Instruction) (s : CpuState M)
      → IsSound Inv s
      → All (Supports IsSupported) (n ∷ ns)
      → Yields (λ code. code s ≡ interpret_insns mem (n ∷ ns) s) (translate mem b (n ∷ ns))
  unfolding translate
  translate-interpret_insns keeps n ns s sound all =
      >>=-Yields (Does Inv (λ s. s) (run_insns mem (n ∷ ns))) _ (build_insns mem b (n ∷ ns)) _
        (emit_insns-Does mem Inv keeps (λ s. s) (build mem b) (advance_pc mem b) IsSupported
          build-Does advance_pc-set_pc (n ∷ ns) all)
        λ body does.
          finish-interpret_insns mem Inv (λ s. s) n ns body s s (add_icount mem b (length (n ∷ ns)))
            does sound refl (λ t same. add_icount-add_count (length (n ∷ ns)) t)

  -- The translators `llvm` and `tpde` are faithful on a program whose invariant keeps the state sound
  -- and whose code they support, if the library compiles what was emitted.
  pub llvm_translator-IsFaithful :
      (keeps : KeepsWidths mem Inv) (p : Program mem)
      → ((s : CpuState M) → p.Inv s → IsSound Inv s)
      → ((addr : ℕ) → p.Code addr → IsSupported (p.code addr).opcode (p.code addr))
      → (compile : Code M → Outcome (Code M)) → Compiles compile
      → IsFaithful mem p (llvm_translator mem b compile)
  llvm_translator-IsFaithful keeps p sound own compile compiles =
      library_translator-IsFaithful mem p IsSupported own (translate mem b) compile
        (λ n ns s h l all. translate-interpret_insns keeps n ns s (sound s h) all) compiles
