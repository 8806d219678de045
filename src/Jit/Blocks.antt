-- ===== src/Jit/Blocks.antt =====
-- A program that does not modify its own code, and what a block of it does.
use mathlib.Core.Path.{subst}
use jit_research.Base.{
  ℕ, zero, suc, ◌%◌, ◌≤◌, ◌≡◌, refl, sym, ap, ◌∙◌, arith, List, [], ◌∷◌, length, Bool, true, false,
  ◌||◌, some, Outcome, ok, ◌>>=◌, >>=-eq-ok, ◌==◌, inl, inr, ok-injective, Outcome-cases,
}
use jit_research.Isa.Word.{plus, word_size}
use jit_research.Isa.Opcode.{Opcode, is_terminator, changes_pc}
use jit_research.Isa.Decode.{Instruction, decode}
use jit_research.Memory.{MemoryOps, read, word}
use jit_research.CpuState.{CpuState, set_pc}
use jit_research.Interpreter.{execute, handler}
use jit_research.Engine
use jit_research.Engine.{count_one, decoded}
use jit_research.Jit.{Config, collect, interpret_insns}

-- A program: its code addresses with the instruction at each, and an invariant of the machine
-- while the program runs. What is asked of it: execution stays aligned and inside the code, no
-- store changes the code, and what follows an instruction that ends no block is code too.
pub record Program {M : Type 0} (mem : MemoryOps M) : Type 1 where
  pub Code : ℕ → Type 0
  pub code : ℕ → Instruction
  pub Inv : CpuState M → Type 0
  pub aligned : (s : CpuState M) → Inv s → (s.pc % word_size == 0) ≡ true
  pub at_code : (s : CpuState M) → Inv s → Code s.pc
  pub in_memory :
      (s : CpuState M) (addr : ℕ)
      → Inv s
      → Code addr
      → (bytes : ℕ) × (read mem word addr s.memory ≡ ok bytes) × (decode bytes ≡ some (code addr))
  pub follows :
      (addr : ℕ)
      → Code addr
      → is_terminator (code addr).opcode ≡ ok false
      → Code (plus addr word_size)
  pub keeps : (s s' : CpuState M) → Inv s → execute mem (code s.pc) s ≡ ok s' → Inv (count_one s')

-- `steps k s`: what `k` calls of the interpreter's `step` do.
unfoldable pub steps : {M : Type 0} → MemoryOps M → ℕ → CpuState M → Outcome (CpuState M)
steps mem zero s = ok s
steps mem (suc k) s = Engine.step mem s >>= steps mem k

-- An instruction that ends no block leaves the program counter at the next one.
changes_pc-is_terminator : (op : Opcode) → is_terminator op ≡ ok false → changes_pc op ≡ ok false
unfolding is_terminator changes_pc
changes_pc-is_terminator op h = ground arith

pub execute-next :
    {M : Type 0} (mem : MemoryOps M) (n : Instruction) (s s' : CpuState M)
    → changes_pc n.opcode ≡ ok false
    → execute mem n s ≡ ok s'
    → s'.pc ≡ plus s.pc word_size
unfolding execute set_pc
execute-next {M} mem n s s' stays e =
    let (t, _, e') = >>=-eq-ok (handler mem n.opcode n s) _ e in rest t (rw stays at e')
  where
    rest :
        (t : CpuState M) → ok (set_pc (plus s.pc word_size) t) ≡ ok s' → s'.pc ≡ plus s.pc word_size
    rest t g = ground arith

pub execute-pc :
    {M : Type 0} (mem : MemoryOps M) (n : Instruction) (s s' : CpuState M)
    → is_terminator n.opcode ≡ ok false
    → execute mem n s ≡ ok s'
    → s'.pc ≡ plus s.pc word_size
execute-pc mem n s s' h e = execute-next mem n s s' (changes_pc-is_terminator n.opcode h) e

module _ {M : Type 0} (mem : MemoryOps M) (p : Program mem) where
  open p use {Code, code, Inv, aligned, at_code, in_memory, follows, keeps}

  -- Inside the program, a step executes the instruction at the program counter.
  pub step-execute :
      (s : CpuState M)
      → Inv s
      → Engine.step mem s ≡ (execute mem (code s.pc) s >>= λ s'. ok (count_one s'))
  unfolding Engine.step
  step-execute s h = let (bytes, r, d) = in_memory s s.pc h (at_code s h) in rw (aligned s h, r, d)

  -- A straight line of code from an address on.
  pub data IsLine : ℕ → List Instruction → Type 0 where
    last : {addr : ℕ} {n : Instruction} → Code addr → n ≡ code addr → IsLine addr (n ∷ [])
    next :
        {addr : ℕ} {n : Instruction} {ns : List Instruction}
        → Code addr
        → n ≡ code addr
        → is_terminator n.opcode ≡ ok false
        → IsLine (plus addr word_size) ns
        → IsLine addr (n ∷ ns)

  finished-IsLine :
      (addr : ℕ) (b : Bool) (ends : Bool) (ns : List Instruction)
      (rest : Outcome (List Instruction))
      → Code addr
      → is_terminator (code addr).opcode ≡ ok ends
      → ((ms : List Instruction) → ends ≡ false → rest ≡ ok ms → IsLine (plus addr word_size) ms)
      → elim (b || ends) [ true ↦ ok (code addr ∷ []) | false ↦ do ms ← rest; ok (code addr ∷ ms) ]
        ≡ ok ns
      → IsLine addr ns
  finished-IsLine addr true ends ns rest c t more e =
      subst (IsLine addr) (ok-injective e) (last c refl)
  finished-IsLine addr false true ns rest c t more e =
      subst (IsLine addr) (ok-injective e) (last c refl)
  finished-IsLine addr false false ns rest c t more e =
      let (ms, g, e') = >>=-eq-ok rest (λ ms. ok (code addr ∷ ms)) e in
      subst (IsLine addr) (ok-injective e') (next c refl t (more ms refl g))

  -- On a program, what the engine collects from an address of the code on is a straight line of the
  -- code from there.
  pub collect-IsLine :
      (fuel : ℕ) (config : Config) (addr : ℕ) (s : CpuState M) (ns : List Instruction)
      → Inv s
      → Code addr
      → collect mem fuel config addr s.memory ≡ ok ns
      → IsLine addr ns
  unfolding collect
  collect-IsLine zero config addr s ns h c e = cc
  collect-IsLine (suc fuel) config addr s ns h c e =
      let (bytes, r, d) = in_memory s addr h c in
      let (ends, t, e') = >>=-eq-ok (is_terminator (code addr).opcode) _ (rw (r, d) at e) in
      finished-IsLine addr config.single_step ends ns _ c t
        (λ ms no g.
          collect-IsLine fuel config (plus addr word_size) s ms h (follows addr c (t ∙ ap ok no)) g)
        e'

  -- A line of code up to and with the first instruction that ends a block.
  pub data IsBlock : ℕ → List Instruction → Type 0 where
    end :
        {addr : ℕ}
        → Code addr
        → is_terminator (code addr).opcode ≡ ok true
        → IsBlock addr (code addr ∷ [])
    more :
        {addr : ℕ} {ns : List Instruction}
        → Code addr
        → is_terminator (code addr).opcode ≡ ok false
        → IsBlock (plus addr word_size) ns
        → IsBlock addr (code addr ∷ ns)

  -- On a program, where the code reaches an instruction that ends a block and single steps are off,
  -- the engine collects the instructions up to it and no more: as many rounds as they are is
  -- enough.
  pub collect-IsBlock :
      (fuel : ℕ) (config : Config) (addr : ℕ) (s : CpuState M) (ns : List Instruction)
      → Inv s
      → config.single_step ≡ false
      → IsBlock addr ns
      → length ns ≤ fuel
      → collect mem fuel config addr s.memory ≡ ok ns
  unfolding collect
  collect-IsBlock fuel config addr s ns h single (end c t) le = enough fuel le
    where
      enough : (fuel : ℕ) → 1 ≤ fuel → collect mem fuel config addr s.memory ≡ ok (code addr ∷ [])
      enough zero le = absurd (omega arith)
      enough (suc fuel) le = let (bytes, r, d) = in_memory s addr h c in rw (r, d, t, single)
  collect-IsBlock zero config addr s ns h single (more c t b) le = absurd (omega arith)
  collect-IsBlock (suc fuel) config addr s all h single (more {ns} c t b) le =
      let (bytes, r, d) = in_memory s addr h c in
      let rest = collect-IsBlock fuel config (plus addr word_size) s ns h single b (omega arith) in
      rw (r, d, t, single, rest)

  -- One instruction and what follows it, on both sides.
  one_step :
      (n : Instruction) (s : CpuState M) (rest rest' : CpuState M → Outcome (CpuState M))
      → Inv s
      → n ≡ code s.pc
      → ((s' : CpuState M)
          → execute mem (code s.pc) s ≡ ok s'
          → rest (count_one s') ≡ rest' (count_one s'))
      → (execute mem n s >>= λ s'. rest (count_one s')) ≡ (Engine.step mem s >>= rest')
  one_step n s rest rest' h e k =
      rw (step-execute s h, e)
        (elim (Outcome-cases (execute mem (code s.pc) s)) [
          | inl (s', g) ↦ rw g (k s' g)
          | inr (f, g) ↦ rw g
        ])

  line-steps :
      {addr : ℕ} {ns : List Instruction} (s : CpuState M)
      → Inv s
      → s.pc ≡ addr
      → IsLine addr ns
      → interpret_insns mem ns s ≡ steps mem (length ns) s
  unfolding interpret_insns steps
  line-steps s h at (last {n} c e) = one_step n s ok ok h (e ∙ ap code (sym at)) (λ s' g. refl)
  line-steps s h at (next {n} {ns} c e t l) =
      let here : n ≡ code s.pc = e ∙ ap code (sym at) in
      one_step n s (interpret_insns mem ns) (steps mem (length ns)) h here λ s' g.
        line-steps (count_one s') (keeps s s' h g)
          (execute-pc mem (code s.pc) s s' (rw (← here) t) g ∙ ap (λ (a : ℕ). plus a word_size) at)
          l

  -- On a program, from a state of its invariant, interpreting a line of code that starts at the
  -- program counter is as many steps of the interpreter, also where one of them fails.
  pub interpret-steps :
      (ns : List Instruction) (s : CpuState M)
      → Inv s
      → IsLine s.pc ns
      → interpret_insns mem ns s ≡ steps mem (length ns) s
  interpret-steps ns s h l = line-steps s h refl l

  line-Inv :
      {addr : ℕ} {ns : List Instruction} (s s' : CpuState M)
      → Inv s
      → s.pc ≡ addr
      → IsLine addr ns
      → interpret_insns mem ns s ≡ ok s'
      → Inv s'
  unfolding interpret_insns
  line-Inv s s' h at (last {n} c e) g =
      let (t, x, r) = >>=-eq-ok (execute mem n s) (λ t. ok (count_one t)) g in
      let here : n ≡ code s.pc = e ∙ ap code (sym at) in
      subst Inv (ok-injective r) (keeps s t h (rw (← here) x))
  line-Inv s s' h at (next {n} {ns} c e t l) g =
      let (u, x, r) = >>=-eq-ok (execute mem n s) (λ u. interpret_insns mem ns (count_one u)) g in
      let here : n ≡ code s.pc = e ∙ ap code (sym at) in
      line-Inv (count_one u) s' (keeps s u h (rw (← here) x))
        (execute-pc mem n s u t x ∙ ap (λ (a : ℕ). plus a word_size) at) l r

  -- A block that is interpreted to its end leaves the machine inside the program.
  pub interpret-Inv :
      (ns : List Instruction) (s s' : CpuState M)
      → Inv s
      → IsLine s.pc ns
      → interpret_insns mem ns s ≡ ok s'
      → Inv s'
  interpret-Inv ns s s' h l e = line-Inv s s' h refl l e
