-- ===== src/Translators/LowCount.antt =====
-- Some translators add the length of a block to the low half of the 64-bit count alone.
use jit_research.Base.{
  >>=-congr-Ensures, ℕ, ◌+◌, ◌*◌, ◌/◌, ◌%◌, ◌^◌, ◌<◌, ◌≡◌, sym, ap, ◌∙◌, arith, List, ◌∷◌, length,
  Outcome, ok, ◌>>=◌,
}
use jit_research.Isa.Decode.{Instruction}
use jit_research.Memory.{MemoryOps}
use jit_research.CpuState.{CpuState}
use jit_research.Interpreter.Counted.{with_count}
use jit_research.Jit.{interpret_insns}
use jit_research.Jit.Counted.{run_insns, run_insns-icount, interpret_insns-add_count}

-- The count of a block, added to the low half of the counter without a carry.
abbrev pub add_low : {M : Type 0} → ℕ → CpuState M → Outcome (CpuState M)
add_low k s = ok (with_count (s.icount / 2 ^ 32 * 2 ^ 32 + (s.icount + k) % 2 ^ 32) s)

no_carry-count :
    (c k : ℕ)
    → c % 2 ^ 32 + k < 2 ^ 32
    → c < 2 ^ 64
    → c / 2 ^ 32 * 2 ^ 32 + (c + k) % 2 ^ 32 ≡ (c + k) % 2 ^ 64
no_carry-count c k low long = omega arith

-- Where there is no carry, that is what the interpreter counts.
pub add_low-interpret_insns :
    {M : Type 0} (mem : MemoryOps M) (n : Instruction) (ns : List Instruction) (s : CpuState M)
    → s.icount % 2 ^ 32 + length (n ∷ ns) < 2 ^ 32
    → s.icount < 2 ^ 64
    → (run_insns mem (n ∷ ns) s >>= add_low (length (n ∷ ns))) ≡ interpret_insns mem (n ∷ ns) s
add_low-interpret_insns mem n ns s low long =
    >>=-congr-Ensures (λ t. t.icount ≡ s.icount) (run_insns mem (n ∷ ns) s) _ _
      (run_insns-icount mem (n ∷ ns) s)
      (λ t same.
        ap (λ (c : ℕ). ok (with_count c t))
          (no_carry-count t.icount _ (rw same low) (rw same long)))
    ∙ sym (interpret_insns-add_count mem n ns s)
