-- ===== src/Jit/Counted.antt =====
-- The count of instructions: `interpret` of src/jit/base/base.cc counts each, translated code at its end.
use jit_research.Base.{
  Ensures, >>=-Ensures, >>=-congr-Ensures, ℕ, suc, ◌+◌, ◌%◌, ◌^◌, ◌≡◌, refl, sym, ap, ◌∙◌, arith,
  List, [], ◌∷◌, length, Outcome, ok, ◌>>=◌, >>=_assoc, >>=-congr,
}
use jit_research.Isa.Decode.{Instruction}
use jit_research.Memory.{MemoryOps}
use jit_research.CpuState.{CpuState}
use jit_research.Interpreter.{execute}
use jit_research.Interpreter.Counted.{with_count, execute-with_count}
use jit_research.Interpreter.Frame.{IsFrame, execute-IsFrame}
use jit_research.Engine.{count_one}
use jit_research.Jit.{interpret_insns}

abbrev pub add_count : {M : Type 0} → ℕ → CpuState M → Outcome (CpuState M)
add_count k s = ok (with_count ((s.icount + k) % 2 ^ 64) s)

module _ {M : Type 0} (mem : MemoryOps M) where
  -- The instructions one after another, without the count.
  unfoldable pub run_insns : List Instruction → CpuState M → Outcome (CpuState M)
  run_insns [] s = ok s
  run_insns (n ∷ ns) s = execute mem n s >>= run_insns ns

  run_insns-with_count :
      (ns : List Instruction) (c : ℕ) (s : CpuState M)
      → run_insns ns (with_count c s) ≡ (run_insns ns s >>= λ t. ok (with_count c t))
  unfolding run_insns
  run_insns-with_count [] c s = refl
  run_insns-with_count (n ∷ ns) c s =
      rw (execute-with_count mem n c s, >>=_assoc, >>=_assoc)
        (>>=-congr (execute mem n s) _ _ λ t. run_insns-with_count ns c t)

  pub run_insns-icount :
      (ns : List Instruction) (s : CpuState M) → Ensures (λ t. t.icount ≡ s.icount) (run_insns ns s)
  unfolding run_insns
  run_insns-icount [] s = refl
  run_insns-icount (n ∷ ns) s =
      >>=-Ensures (IsFrame n.opcode n.rd s) (λ t. t.icount ≡ s.icount) _ _ (execute-IsFrame mem n s)
        λ t frame. rw (← frame.icount_same) (run_insns-icount ns t)

  counts-add :
      (ns : List Instruction) (k : ℕ) (t : CpuState M)
      → (run_insns ns (count_one t) >>= add_count k) ≡ (run_insns ns t >>= add_count (suc k))
  counts-add ns k t =
      rw (run_insns-with_count ns _ t, >>=_assoc)
        (>>=-congr-Ensures (λ u. u.icount ≡ t.icount) (run_insns ns t) _ _ (run_insns-icount ns t)
          λ u same.
            let e : ((t.icount + 1) % 2 ^ 64 + k) % 2 ^ 64 ≡ (u.icount + suc k) % 2 ^ 64 =
              omega arith in
            ap (λ (c : ℕ). ok (with_count c u)) e)

  -- Interpreting a block that is not empty is running its instructions and adding their number to the
  -- count, also where one of them fails.
  pub interpret_insns-add_count :
      (n : Instruction) (ns : List Instruction) (s : CpuState M)
      → interpret_insns mem (n ∷ ns) s ≡ (run_insns (n ∷ ns) s >>= add_count (length (n ∷ ns)))
  unfolding interpret_insns run_insns
  interpret_insns-add_count n [] s = sym (>>=_assoc (execute mem n s) ok (add_count 1))
  interpret_insns-add_count n (m ∷ ns) s = rw (>>=_assoc (execute mem n s)) (
      >>=-congr (execute mem n s) _ _
        λ t. interpret_insns-add_count m ns (count_one t) ∙ counts-add (m ∷ ns) (length (m ∷ ns)) t)
