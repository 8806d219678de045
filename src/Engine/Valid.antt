-- ===== src/Engine/Valid.antt =====
-- Whole runs of the interpreter keep the machine well-formed, and their errors are those listed.
use jit_research.Base.{
  Ensures, >>=-Ensures, any-Ensures, ℕ, zero, suc, ◌%◌, ◌≡◌, refl, arith, Bool, true, false, Option,
  none, some, Outcome, ok, fail, Failure, ◌>>=◌, if◌then◌else◌, ◌==◌,
}
use jit_research.Isa.Word.{word_size}
use jit_research.Isa.Decode.{Instruction, decode}
use jit_research.Isa.Decode.Bounds.{IsWellFormed, decode-IsWellFormed}
use jit_research.Memory.{KeepsWidths, MemoryOps, read, word}
use jit_research.CpuState.{CpuState}
use jit_research.Interpreter.{execute}
use jit_research.Interpreter.Valid.{IsSound, execute-IsSound}
use jit_research.Engine.{decoded, count_one, step, run}

decoded-IsWellFormed : (bytes : ℕ) → Ensures IsWellFormed (decoded bytes (decode bytes))
decoded-IsWellFormed bytes = at (decode bytes) (decode-IsWellFormed bytes)
  where
    at :
        (o : Option Instruction)
        → ((n : Instruction) → o ≡ some n → IsWellFormed n)
        → Ensures IsWellFormed (decoded bytes o)
    at none h = tt
    at (some n) h = h n refl

module _ {M : Type 0} (Inv : M → Type 0) (mem : MemoryOps M) (keeps : KeepsWidths mem Inv) where
  pub count_one-IsSound : (s : CpuState M) → IsSound Inv s → IsSound Inv (count_one s)
  count_one-IsSound s h = (
    record {
      count = h.0.count;
      words = h.0.words;
      x0 = h.0.x0;
      pc_word = h.0.pc_word;
      icount_long = omega arith;
      exit_word = h.0.exit_word;
    },
    h.1,
  )

  -- One step of the interpreter, if it ends with a value, leaves a well-formed machine.
  pub step-IsSound : (s : CpuState M) → IsSound Inv s → Ensures (IsSound Inv) (step mem s)
  unfolding step
  step-IsSound s h =
      let finish : Instruction → Outcome (CpuState M) =
        λ n. (execute mem n s >>= λ s'. ok (count_one s')) in
      let interpret : ℕ → Outcome (CpuState M) =
        λ bytes. (decoded bytes (decode bytes) >>= finish) in
      let fetch : Unit {0} → Outcome (CpuState M) =
        λ _. (read mem word s.pc s.memory >>= interpret) in
      let guard : Outcome (Unit {0}) =
        if s.pc % word_size == 0 then ok tt else fail (Failure.misaligned_pc s.pc) in
      >>=-Ensures (λ u. Unit {0}) (IsSound Inv) guard fetch (any-Ensures guard)
        λ u _.
          >>=-Ensures (λ b. Unit {0}) (IsSound Inv) (read mem word s.pc s.memory) interpret
            (any-Ensures _)
            λ bytes _.
              >>=-Ensures IsWellFormed (IsSound Inv) (decoded bytes (decode bytes)) finish
                (decoded-IsWellFormed bytes)
                λ n wf.
                  >>=-Ensures (IsSound Inv) (IsSound Inv) (execute mem n s)
                    (λ s'. ok (count_one s')) (execute-IsSound Inv n wf s h mem keeps)
                    count_one-IsSound

  -- From a well-formed state with a memory of its invariant, a run of the interpreter, with any
  -- number of rounds, leaves such a state again, if it ends with a value.
  pub run-IsSound :
      (fuel : ℕ) (s : CpuState M) → IsSound Inv s → Ensures (IsSound Inv) (run (step mem) fuel s)
  unfolding run
  run-IsSound zero s h = tt
  run-IsSound (suc fuel) s h = at (run-IsSound fuel) s.finished
    where
      at :
          ((t : CpuState M) → IsSound Inv t → Ensures (IsSound Inv) (run (step mem) fuel t))
          → (b : Bool)
          → Ensures
              (IsSound Inv)
              (elim b [ true ↦ ok s | false ↦ step mem s >>= run (step mem) fuel ])
      at ih true = h
      at ih false = >>=-Ensures (IsSound Inv) (IsSound Inv) _ _ (step-IsSound s h) ih
