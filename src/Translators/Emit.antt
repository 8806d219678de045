-- ===== src/Translators/Emit.antt =====
-- The loop over the instructions of a block that `translate` of every translator of src/jit has: emit
-- code for the instruction and, unless `changesPC`, code that moves the program counter on.
use jit_research.Base.{
  Ensures, Ensures-image, Yields, >>=-Yields, >>=-congr-Ensures, >>=-congr, >>=_assoc, ◌≡◌, refl,
  sym, ap, ◌∙◌, List, [], ◌∷◌, Bool, true, false, Outcome, ok, ◌>>=◌, if◌then◌else◌,
}
use mathlib.Core.Path.{subst}
use jit_research.Isa.Word.{plus, word_size}
use jit_research.Isa.Opcode.{Opcode, changes_pc}
use jit_research.Isa.Decode.{Instruction}
use jit_research.Isa.Decode.Bounds.{IsWellFormed, IsDecodable}
use jit_research.Memory.{MemoryOps, KeepsWidths}
use jit_research.CpuState.{CpuState, set_pc}
use jit_research.Interpreter.{handler, execute}
use jit_research.Interpreter.Counter.{execute-handler}
use jit_research.Interpreter.Valid.{IsSound, execute-IsSound}
use jit_research.Engine.{count_one}
use jit_research.Engine.Valid.{count_one-IsSound}
use jit_research.Jit.{interpret_insns}
use jit_research.Jit.Counted.{run_insns}

-- The emitted code works on an `S`: the CPU state, with what the code holds in machine registers.
-- `close` is what else the code does after every instruction.
unfoldable pub emit_closed :
    {S : Type 0}
    → (Instruction → Outcome (S → Outcome S))
    → (S → S)
    → (S → S)
    → List Instruction
    → Outcome (S → Outcome S)
emit_closed build advance close [] = ok ok
emit_closed build advance close (n ∷ ns) = do
  code ← build n
  jumped ← changes_pc n.opcode
  rest ← emit_closed build advance close ns
  ok (λ s. do s' ← code s; rest (close (if jumped then s' else advance s')))

abbrev pub emit_insns :
    {S : Type 0}
    → (Instruction → Outcome (S → Outcome S))
    → (S → S)
    → List Instruction
    → Outcome (S → Outcome S)
emit_insns build advance ns = emit_closed build advance (λ s. s) ns

-- All of a list.
pub data All {A : Type 0} (P : A → Type 0) : List A → Type 0 where
  none_left : All P []
  and_all : {x : A} {xs : List A} → P x → All P xs → All P (x ∷ xs)

-- What a translator supports: an instruction with operands in range for which its own condition holds.
pub record Supports (Own : Opcode → Instruction → Type 0) (n : Instruction) : Type 0 where
  pub well_formed : IsWellFormed n
  pub own : Own n.opcode n

-- An opcode that the decoder gives has an answer to `changesPC`.
changes_pc-Yields :
    (op : Opcode) → IsDecodable op → Yields (λ b. changes_pc op ≡ ok b) (changes_pc op)
unfolding changes_pc
changes_pc-Yields Opcode.add d = refl
changes_pc-Yields Opcode.addi d = refl
changes_pc-Yields Opcode.and d = refl
changes_pc-Yields Opcode.andi d = refl
changes_pc-Yields Opcode.auipc d = refl
changes_pc-Yields Opcode.beq d = refl
changes_pc-Yields Opcode.bge d = refl
changes_pc-Yields Opcode.bgeu d = refl
changes_pc-Yields Opcode.blt d = refl
changes_pc-Yields Opcode.bltu d = refl
changes_pc-Yields Opcode.bne d = refl
changes_pc-Yields Opcode.ebreak d = refl
changes_pc-Yields Opcode.ecall d = refl
changes_pc-Yields Opcode.fence d = refl
changes_pc-Yields Opcode.jal d = refl
changes_pc-Yields Opcode.jalr d = refl
changes_pc-Yields Opcode.lb d = refl
changes_pc-Yields Opcode.lbu d = refl
changes_pc-Yields Opcode.lh d = refl
changes_pc-Yields Opcode.lhu d = refl
changes_pc-Yields Opcode.lui d = refl
changes_pc-Yields Opcode.lw d = refl
changes_pc-Yields Opcode.or d = refl
changes_pc-Yields Opcode.ori d = refl
changes_pc-Yields Opcode.pause d = refl
changes_pc-Yields Opcode.sb d = refl
changes_pc-Yields Opcode.sbreak d = refl
changes_pc-Yields Opcode.scall d = refl
changes_pc-Yields Opcode.sh d = refl
changes_pc-Yields Opcode.sll d = refl
changes_pc-Yields Opcode.slli d = refl
changes_pc-Yields Opcode.slt d = refl
changes_pc-Yields Opcode.slti d = refl
changes_pc-Yields Opcode.sltiu d = refl
changes_pc-Yields Opcode.sltu d = refl
changes_pc-Yields Opcode.sra d = refl
changes_pc-Yields Opcode.srai d = refl
changes_pc-Yields Opcode.srl d = refl
changes_pc-Yields Opcode.srli d = refl
changes_pc-Yields Opcode.sub d = refl
changes_pc-Yields Opcode.sw d = refl
changes_pc-Yields Opcode.xor d = refl
changes_pc-Yields Opcode.xori d = refl
changes_pc-Yields Opcode.num_opcodes d = absurd d

-- On a sound state, the code does what `f` does.
abbrev pub Does :
    {M S : Type 0}
    → (M → Type 0)
    → (S → CpuState M)
    → (CpuState M → Outcome (CpuState M))
    → (S → Outcome S)
    → Type 0
Does {S = S} Inv view f code =
    (u : S) → IsSound Inv (view u) → (code u >>= λ v. ok (view v)) ≡ f (view u)

module _ {M S : Type 0} (mem : MemoryOps M) (Inv : M → Type 0) (keeps : KeepsWidths mem Inv)
    (view : S → CpuState M) (build : Instruction → Outcome (S → Outcome S)) (advance : S → S) where
  module _ (Own : Opcode → Instruction → Type 0)
      (builds : (n : Instruction)
        → Supports Own n
        → Yields (Does Inv view (handler mem n.opcode n)) (build n))
      (advances : (u : S) → view (advance u) ≡ set_pc (plus (view u).pc word_size) (view u)) where
    advanced :
        (jumped : Bool) (v : S)
        → view (if jumped then v else advance v)
          ≡ (if jumped then view v else set_pc (plus (view v).pc word_size) (view v))
    advanced true v = refl
    advanced false v = advances v

    module _ (close : S → S) (closed : CpuState M → CpuState M)
        (closes : (u : S) → view (close u) ≡ closed (view u))
        (keeps_sound : (s : CpuState M) → IsSound Inv s → IsSound Inv (closed s))
        (runs : List Instruction → CpuState M → Outcome (CpuState M))
        (runs_nil : (s : CpuState M) → runs [] s ≡ ok s)
        (runs_cons : (n : Instruction) (ns : List Instruction) (s : CpuState M)
          → runs (n ∷ ns) s ≡ (execute mem n s >>= λ t. runs ns (closed t))) where
      -- Code for one instruction, with what follows it.
      cons-Does :
          (n : Instruction) (ns : List Instruction) (code rest : S → Outcome S) (jumped : Bool)
          → Supports Own n
          → changes_pc n.opcode ≡ ok jumped
          → Does Inv view (handler mem n.opcode n) code
          → Does Inv view (runs ns) rest
          → Does Inv view
              (runs (n ∷ ns))
              (λ u. (code u >>= λ v. rest (close (if jumped then v else advance v))))
      cons-Does n ns code rest jumped sup c h k u sound =
          let moved : S → S = λ v. if jumped then v else advance v in
          let step : (code u >>= λ v. ok (view (moved v))) ≡ execute mem n (view u) =
            >>=-congr (code u) _ _ (λ v. ap ok (advanced jumped v))
            ∙ sym (>>=_assoc (code u) (λ v. ok (view v)) _)
            ∙ ap (λ o. o >>= λ t. ok (if jumped then t else set_pc (plus t.pc word_size) t))
                (h u sound)
            ∙ execute-handler mem n (view u) _ (λ t. refl) jumped c in
          let after : Ensures (λ v. IsSound Inv (view (moved v))) (code u) =
            Ensures-image (IsSound Inv) (λ v. view (moved v)) (code u)
              (subst (Ensures (IsSound Inv)) (sym step)
                (execute-IsSound Inv n sup.well_formed (view u) sound mem keeps)) in
          let next : (v : S)
              → IsSound Inv (view (moved v))
              → (rest (close (moved v)) >>= λ w. ok (view w)) ≡ runs ns (closed (view (moved v))) =
            λ v hv.
              k (close (moved v)) (subst (IsSound Inv) (sym (closes (moved v))) (keeps_sound _ hv))
              ∙ ap (runs ns) (closes (moved v)) in
          >>=_assoc (code u) _ _
          ∙ >>=-congr-Ensures (λ v. IsSound Inv (view (moved v))) (code u) _ _ after next
          ∙ sym (>>=_assoc (code u) (λ v. ok (view (moved v))) (λ t. runs ns (closed t)))
          ∙ ap (λ o. o >>= λ t. runs ns (closed t)) step
          ∙ sym (runs_cons n ns (view u))

      -- The code of a block does what running its instructions one after another does.
      pub emit_closed-Does :
          (ns : List Instruction)
          → All (Supports Own) ns
          → Yields (Does Inv view (runs ns)) (emit_closed build advance close ns)
      unfolding emit_closed
      emit_closed-Does [] none_left = λ u sound. sym (runs_nil (view u))
      emit_closed-Does (n ∷ ns) (and_all sup all) =
          >>=-Yields _ _ (build n) _ (builds n sup) λ code h.
            >>=-Yields _ _ (changes_pc n.opcode) _
              (changes_pc-Yields n.opcode sup.well_formed.decodable)
              λ jumped c.
                >>=-Yields _ _ (emit_closed build advance close ns) _ (emit_closed-Does ns all)
                  λ rest k. cons-Does n ns code rest jumped sup c h k

    -- Without a count, the code does what running the instructions does.
    pub emit_insns-Does :
        (ns : List Instruction)
        → All (Supports Own) ns
        → Yields (Does Inv view (run_insns mem ns)) (emit_insns build advance ns)
    unfolding run_insns
    emit_insns-Does ns all =
        emit_closed-Does (λ u. u) (λ s. s) (λ u. refl) (λ s h. h) (run_insns mem) (λ s. refl)
          (λ n ns s. refl) ns all

    -- With a count after every instruction, it does what interpreting them does.
    pub emit_closed-interpret_insns :
        (close : S → S)
        → ((u : S) → view (close u) ≡ count_one (view u))
        → (ns : List Instruction) → All (Supports Own) ns
        → Yields (Does Inv view (interpret_insns mem ns)) (emit_closed build advance close ns)
    unfolding interpret_insns
    emit_closed-interpret_insns close closes ns all =
        emit_closed-Does close count_one closes (count_one-IsSound Inv mem keeps)
          (interpret_insns mem) (λ s. refl) (λ n ns s. refl) ns all
