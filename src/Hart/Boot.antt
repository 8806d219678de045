-- ===== src/Hart/Boot.antt =====
-- A hart from its construction to the end of a run.
use jit_research.Base.{ℕ, ◌%◌, ◌^◌, ◌<◌, arith, Outcome, ◌>>=◌, Ensures, >>=-Ensures}
use jit_research.Isa.Word.{word_mod}
use jit_research.Memory.{MemoryOps}
use jit_research.CpuState.{CpuState, new, set_reg, set_pc}
use jit_research.CpuState.Valid.{IsValid, new-IsValid, set_pc-IsValid}
use jit_research.Engine
use jit_research.Engine.{run}
use jit_research.Engine.Valid.{run-IsSound}
use jit_research.Interpreter.Valid.{IsSound, set_reg-IsSound}
use jit_research.Memory.Bytes.{IsBytes}
use jit_research.Memory.Plain.{PlainMemory, plain_ops}
use jit_research.Memory.Plain.Laws.{plain-KeepsWidths}
use jit_research.Loader.Segments.{AllSegments, load_segments-IsBytes}
use jit_research.Loader.{Constants, Elf, load_memory, load_segments, get_entry_point}
use jit_research.Hart.{make_hart, set_sp, load}

-- What src/tools/sim/sim_app.cpp does with a hart over an engine's step: it is made, loaded with the
-- file, given a stack, and run.
unfoldable pub simulate :
    {M : Type 0}
    → MemoryOps M
    → (CpuState M → Outcome (CpuState M))
    → Constants
    → Elf
    → ℕ
    → ℕ
    → M
    → Outcome (CpuState M)
simulate mem engine_step k elf stack fuel m = do
  s ← load mem k elf (make_hart mem m)
  run engine_step fuel (set_sp mem stack s)

-- From a stack pointer that is a word, a file of bytes and a plain memory of bytes, a hart that is
-- made, loaded with the file and run with the interpreter, for any number of rounds, ends
-- well-formed, if it ends with a value.
pub simulate-IsSound :
    (k : Constants) (elf : Elf) (stack fuel : ℕ) (m : PlainMemory)
    → stack < word_mod
    → AllSegments elf.segments
    → IsBytes m.cell
    → Ensures
        (IsSound (λ m. IsBytes m.cell))
        (simulate plain_ops (Engine.step plain_ops) k elf stack fuel m)
unfolding simulate load set_sp make_hart get_entry_point load_memory set_pc
simulate-IsSound k elf stack fuel m st b h =
    let Good : CpuState PlainMemory → Type 0 = IsSound (λ m. IsBytes m.cell) in
    >>=-Ensures Good Good _ _
      (>>=-Ensures (λ m'. IsBytes m'.cell) Good (load_segments plain_ops k elf.segments m) _
        (load_segments-IsBytes k elf.segments m b h)
        λ m' h'. (set_pc-IsValid (elf.get_entry % 2 ^ 32) _ (omega arith) (moved m'), h'))
      λ s good.
        run-IsSound (λ m. IsBytes m.cell) plain_ops plain-KeepsWidths fuel (set_reg 2 stack s)
          (set_reg-IsSound (λ m. IsBytes m.cell) 2 stack s (omega arith) st good)
  where
    moved : (m' : PlainMemory) → IsValid (record (new m) { memory = m' })
    moved m' =
        let v = new-IsValid m in
        record {
          count = v.count;
          words = v.words;
          x0 = v.x0;
          pc_word = v.pc_word;
          icount_long = v.icount_long;
          exit_word = v.exit_word;
        }
