-- ===== src/Jit/Lines.antt =====
-- A block against the interpreter's loop: only the last instruction of a block can end the program.
use jit_research.Base.{
  ℕ, suc, ◌+◌, ◌≡◌, refl, sym, ap, ◌∙◌, arith, List, length, Bool, true, false, Outcome, ok, ◌>>=◌,
  >>=-eq-ok, ok-injective, Ensures-ok,
}
use jit_research.Isa.Word.{plus, word_size}
use jit_research.Isa.Opcode.{Opcode, is_terminator}
use jit_research.Isa.Decode.{Instruction}
use jit_research.Memory.{MemoryOps}
use jit_research.CpuState.{CpuState}
use jit_research.Interpreter.{execute}
use jit_research.Interpreter.Frame.{is_call, IsFrame, execute-IsFrame}
use jit_research.Engine
use jit_research.Engine.{count_one, run}
use jit_research.Jit.{interpret_insns}
use jit_research.Jit.Blocks.{Program, IsLine, last, next, step-execute, execute-pc}

is_terminator-is_call : (op : Opcode) → is_terminator op ≡ ok false → is_call op ≡ false
unfolding is_terminator
is_terminator-is_call op h = ground arith

execute-finished :
    {M : Type 0} (mem : MemoryOps M) (n : Instruction) (s t : CpuState M)
    → is_terminator n.opcode ≡ ok false
    → execute mem n s ≡ ok t
    → t.finished ≡ s.finished
execute-finished mem n s t h e =
    let frame = Ensures-ok (IsFrame n.opcode n.rd s) e (execute-IsFrame mem n s) in
    (frame.running (is_terminator-is_call n.opcode h)).0

at_false {ℓ} : {A : Type ℓ} (b : Bool) (x y : A) → b ≡ false → elim b [ true ↦ x | false ↦ y ] ≡ y
at_false true x y h = cc
at_false false x y h = refl

module _ {M : Type 0} (mem : MemoryOps M) (p : Program mem) where
  open p use {Code, code, Inv, keeps}

  -- One round of the loop.
  run-execute :
      (fuel : ℕ) (s t : CpuState M)
      → Inv s
      → s.finished ≡ false
      → execute mem (code s.pc) s ≡ ok t
      → run (Engine.step mem) (1 + fuel) s ≡ run (Engine.step mem) fuel (count_one t)
  unfolding run
  run-execute fuel s t h on e =
      let one : 1 + fuel ≡ suc fuel = omega arith in
      rw one (
        at_false s.finished _ _ on
        ∙ ap (λ (o : Outcome (CpuState M)). o >>= run (Engine.step mem) fuel)
            (step-execute mem p s h
              ∙ ap (λ (o : Outcome (CpuState M)). o >>= λ s'. ok (count_one s')) e))

  line-run :
      {addr : ℕ} {ns : List Instruction} (fuel : ℕ) (s s' : CpuState M)
      → Inv s
      → s.finished ≡ false
      → s.pc ≡ addr
      → IsLine mem p addr ns
      → interpret_insns mem ns s ≡ ok s'
      → run (Engine.step mem) (length ns + fuel) s ≡ run (Engine.step mem) fuel s'
  unfolding interpret_insns
  line-run fuel s s' h on at (last {n} c e) g =
      let (t, x, r) = >>=-eq-ok (execute mem n s) (λ t. ok (count_one t)) g in
      let here : n ≡ code s.pc = e ∙ ap code (sym at) in
      run-execute fuel s t h on (rw (← here) x) ∙ ap (run (Engine.step mem) fuel) (ok-injective r)
  line-run fuel s s' h on at (next {n} {ns} c e t l) g =
      let (u, x, r) = >>=-eq-ok (execute mem n s) (λ u. interpret_insns mem ns (count_one u)) g in
      let here : n ≡ code s.pc = e ∙ ap code (sym at) in
      let y : execute mem (code s.pc) s ≡ ok u = rw (← here) x in
      let assoc : suc (length ns) + fuel ≡ 1 + (length ns + fuel) = omega arith in
      rw assoc (
        run-execute (length ns + fuel) s u h on y
        ∙ line-run fuel (count_one u) s' (keeps s u h y) (execute-finished mem n s u t x ∙ on)
            (execute-pc mem n s u t x ∙ ap (λ (a : ℕ). plus a word_size) at) l r)

  -- On a program, from a state of its invariant in which it has not finished, a line of code at the
  -- program counter that is interpreted to its end is as many rounds of the interpreter's loop as
  -- it has instructions.
  pub interpret-run :
      (fuel : ℕ) (ns : List Instruction) (s s' : CpuState M)
      → Inv s
      → s.finished ≡ false
      → IsLine mem p s.pc ns
      → interpret_insns mem ns s ≡ ok s'
      → run (Engine.step mem) (length ns + fuel) s ≡ run (Engine.step mem) fuel s'
  interpret-run fuel ns s s' h on l e = line-run fuel s s' h on refl l e
