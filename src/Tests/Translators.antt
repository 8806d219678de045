-- ===== src/Tests/Translators.antt =====
-- The theorems on the translators at concrete inputs: a short program, and models of the libraries.
use jit_research.Base.{
  Yields, ℕ, ◌≡◌, refl, sym, ap, ok-injective, inl, inr, Bool-cases, ◌==◌, List, [], ◌∷◌, Outcome,
  ok, ◌>>=◌,
}
use jit_research.Isa.Decode.{Instruction}
use jit_research.Isa.Opcode.{Opcode}
use jit_research.CpuState.{CpuState, set_reg, set_pc, get_reg, new}
use jit_research.Interpreter.Handlers.{do_jalr}
use jit_research.Jit.{interpret_insns}
use jit_research.Jit.Cache.{Code}
use jit_research.Jit.Counted.{run_insns, add_count, interpret_insns-add_count}
use jit_research.Jit.Refines.{IsFaithful}
use jit_research.Tests.Machine.{call}
use jit_research.Tests.Brief.{
  rom, rom-KeepsWidths, Any, seven, seven-IsWellFormed, call-IsWellFormed, first, first-IsSound,
  brief, Reached-IsSound, brief-no_carry, code_at,
}
use jit_research.Tests.LlvmModel.{llvm, llvm-IsLlvm, ir, ir-IsIr}
use jit_research.Tests.X86Model.{x86, x86-IsX86}
use jit_research.Tests.MirModel.{mir, mir-IsMir}
use jit_research.Tests.LightningModel.{lightning, lightning-IsLightning}
use jit_research.Translators.Emit.{All, none_left, and_all, Supports}
use jit_research.Translators.Faithful.{Compiles}
use jit_research.Translators.LowCount.{add_low}
use jit_research.Translators.Llvm.Translate
use jit_research.Translators.Llvm.Translate.{llvm_translator}
use jit_research.Translators.Llvm.Refines as LlvmRefines
use jit_research.Translators.Ir.Run.{ir_translator, run, jalr_op, enter}
use jit_research.Translators.Ir.Correct.{view}
use jit_research.Translators.Ir.Link
use jit_research.Translators.Ir.Refines as IrRefines
use jit_research.Translators.Xbyak.{xbyak_translator, generate}
use jit_research.Translators.Xbyak.Refines as XbyakRefines
use jit_research.Translators.Asmjit.{asmjit_translator, compile_insns}
use jit_research.Translators.Asmjit.Refines as AsmjitRefines
use jit_research.Translators.Mir.Generate.{mir_translator, append_insns}
use jit_research.Translators.Mir.Refines as MirRefines
use jit_research.Translators.Lightning.Emitted.{lightning_translator, emit_block}
use jit_research.Translators.Lightning.Refines as LightningRefines

-- The block of the program.
abbrev block : List Instruction
block = seven ∷ call ∷ []

supported :
    (Own : Opcode → Instruction → Type 0)
    → Own seven.opcode seven
    → Own call.opcode call
    → All (Supports Own) block
supported Own s c =
    and_all (record { well_formed = seven-IsWellFormed; own = s })
      (and_all (record { well_formed = call-IsWellFormed; own = c }) none_left)

-- A library that gives what was emitted.
abbrev gives : Code (Unit {0}) → Outcome (Code (Unit {0}))
gives code = ok code

gives-Compiles : Compiles gives
gives-Compiles emitted code e s = ap (λ (f : Code (Unit {0})). f s) (sym (ok-injective e))

abbrev stale : CpuState (Unit {0}) → ℕ
stale s = s.pc

interpret_insns-add_count_example :
    interpret_insns rom (seven ∷ call ∷ []) first
    ≡ (run_insns rom (seven ∷ call ∷ []) first >>= add_count 2)
interpret_insns-add_count_example = interpret_insns-add_count rom seven (call ∷ []) first

translate-interpret_insns_example :
    Yields
      (λ code. code first ≡ interpret_insns rom block first)
      (Translate.translate rom llvm block)
translate-interpret_insns_example =
    LlvmRefines.translate-interpret_insns rom llvm llvm-IsLlvm Any rom-KeepsWidths seven (call ∷ [])
      first first-IsSound (supported LlvmRefines.IsSupported tt tt)

run-interpret_insns_example :
    Yields (λ code. code first ≡ interpret_insns rom block first) (run rom ir block)
run-interpret_insns_example =
    IrRefines.run-interpret_insns rom ir ir-IsIr Any rom-KeepsWidths seven (call ∷ []) first
      first-IsSound (supported IrRefines.IsSupported tt tt)

generate-interpret_insns_example :
    Yields (λ code. code first ≡ interpret_insns rom block first) (generate rom x86 block)
generate-interpret_insns_example =
    XbyakRefines.generate-interpret_insns rom x86 x86-IsX86 Any rom-KeepsWidths block first
      first-IsSound (supported XbyakRefines.IsSupported tt tt)

compile_insns-run_insns_example :
    Yields
      (λ code. code first ≡ (run_insns rom block first >>= add_low 2))
      (compile_insns rom x86 stale block)
compile_insns-run_insns_example =
    AsmjitRefines.compile_insns-run_insns rom x86 x86-IsX86 stale Any rom-KeepsWidths block first
      first-IsSound (supported AsmjitRefines.IsSupported tt tt)

append_insns-run_insns_example :
    Yields
      (λ code. code first ≡ (run_insns rom block first >>= add_low 2))
      (append_insns rom mir block)
append_insns-run_insns_example =
    MirRefines.append_insns-run_insns rom mir mir-IsMir Any rom-KeepsWidths block first
      first-IsSound (supported MirRefines.IsSupported tt tt)

emit_block-run_insns_example :
    Yields
      (λ code. code first ≡ (run_insns rom block first >>= add_low 2))
      (emit_block rom lightning block)
emit_block-run_insns_example =
    LightningRefines.emit_block-run_insns rom lightning lightning-IsLightning Any rom-KeepsWidths
      block first first-IsSound (supported LightningRefines.IsSupported tt tt)

owned :
    (Own : Opcode → Instruction → Type 0)
    → Own seven.opcode seven
    → Own call.opcode call
    → (addr : ℕ) → Own (code_at addr).opcode (code_at addr)
owned Own s c addr = elim (Bool-cases (addr == 0)) [ inl e ↦ rw e s | inr e ↦ rw e c ]

llvm_translator-IsFaithful_example : IsFaithful rom brief (llvm_translator rom llvm gives)
llvm_translator-IsFaithful_example =
    LlvmRefines.llvm_translator-IsFaithful rom llvm llvm-IsLlvm Any rom-KeepsWidths brief
      Reached-IsSound (λ addr c. owned LlvmRefines.IsSupported tt tt addr) gives gives-Compiles

ir_translator-IsFaithful_example : IsFaithful rom brief (ir_translator rom ir gives)
ir_translator-IsFaithful_example =
    IrRefines.ir_translator-IsFaithful rom ir ir-IsIr Any rom-KeepsWidths brief Reached-IsSound
      (λ addr c. owned IrRefines.IsSupported tt tt addr) gives gives-Compiles

xbyak_translator-IsFaithful_example : IsFaithful rom brief (xbyak_translator rom x86 gives)
xbyak_translator-IsFaithful_example =
    XbyakRefines.xbyak_translator-IsFaithful rom x86 x86-IsX86 Any rom-KeepsWidths brief
      Reached-IsSound gives gives-Compiles

asmjit_translator-IsFaithful_example : IsFaithful rom brief (asmjit_translator rom x86 stale gives)
asmjit_translator-IsFaithful_example =
    AsmjitRefines.asmjit_translator-IsFaithful rom x86 x86-IsX86 stale Any rom-KeepsWidths brief
      Reached-IsSound brief-no_carry gives gives-Compiles

mir_translator-IsFaithful_example : IsFaithful rom brief (mir_translator rom mir gives)
mir_translator-IsFaithful_example =
    MirRefines.mir_translator-IsFaithful rom mir mir-IsMir Any rom-KeepsWidths brief Reached-IsSound
      (λ addr c. owned MirRefines.IsSupported tt tt addr) brief-no_carry gives gives-Compiles

lightning_translator-IsFaithful_example :
    IsFaithful rom brief (lightning_translator rom lightning gives)
lightning_translator-IsFaithful_example =
    LightningRefines.lightning_translator-IsFaithful rom lightning lightning-IsLightning Any
      rom-KeepsWidths brief Reached-IsSound brief-no_carry gives gives-Compiles

-- A jump by the register that it links: it goes to the return address plus the offset.
abbrev jump_linked : Instruction
jump_linked = record { rs1 = 1; rs2 = 0; rd = 1; imm = 8; opcode = Opcode.jalr }

jalr_op-do_jalr_example :
    (jalr_op rom ir jump_linked (enter rom ir first) >>= λ v. ok (view v))
    ≡ do_jalr jump_linked (set_reg 1 4 first)
unfolding enter set_pc new
jalr_op-do_jalr_example =
    Link.jalr_op-do_jalr rom ir ir-IsIr Any jump_linked (enter rom ir first) first-IsSound

jump_linked-target : (jalr_op rom ir jump_linked (enter rom ir first) >>= λ v. ok v.pc_ref) ≡ ok 12
unfolding jalr_op enter new
jump_linked-target = refl

jump_linked-base : (do_jalr jump_linked first >>= λ s. ok s.pc) ≡ ok 8
unfolding do_jalr set_reg set_pc get_reg new
jump_linked-base = refl
