-- ===== src/Jit/Runs.antt =====
-- Rounds and whole runs of the JIT engine against the interpreter.
use mathlib.Core.Path.{subst}
use jit_research.Base.{
  ℕ, zero, suc, ◌+◌, ◌≡◌, refl, sym, ap, ◌∙◌, arith, Bool, true, false, Option, none, some, Outcome,
  ok, ◌>>=◌, >>=-eq-ok, ok-injective, leb, if◌then◌else◌,
}
use jit_research.Memory.{MemoryOps}
use jit_research.CpuState.{CpuState}
use jit_research.Engine
use jit_research.Engine.{run}
use jit_research.Jit
use jit_research.Jit.{
  BbInfo, Translator, Config, JitState, collect, interpret_insns, find_block, interpret_block,
  run_translated, cached_code, run_block, round,
}
use jit_research.Jit.Cache.{Code, TbCache, lookup, empty, lookup-empty}
use jit_research.Jit.Blocks.{Program, IsLine, collect-IsLine}
use jit_research.Jit.Refines.{
  IsFaithful, RunsLine, IsCoherent, IsSteps, line-IsSteps, interpret_block-IsSteps,
  run_translated-IsSteps,
}

-- A translator, if there is one, is faithful.
abbrev pub AllFaithful :
    {M : Type 0} (mem : MemoryOps M) → Program mem → Option (Translator M) → Type 0
AllFaithful mem p none = Unit
AllFaithful mem p (some t) = IsFaithful mem p t

-- The loop at a state in which the program has finished.
run-true :
    {M : Type 0} (f : CpuState M → Outcome (CpuState M)) (s : CpuState M)
    → s.finished ≡ true
    → run f 1 s ≡ ok s
unfolding run
run-true {M} f s h = at_true s.finished (ok s) _ h
  where
    at_true :
        (b : Bool) (x y : Outcome (CpuState M)) → b ≡ true → elim b [ true ↦ x | false ↦ y ] ≡ x
    at_true true x y e = refl
    at_true false x y e = cc

module _ {M : Type 0} (mem : MemoryOps M) (p : Program mem) where
  open p use {Inv, at_code}

  find_block-IsLine :
      (fuel : ℕ) (config : Config) (s : CpuState M) (j : JitState M) (info : BbInfo)
      → Inv s
      → IsCoherent mem p j
      → find_block mem fuel config s j ≡ ok info
      → IsLine mem p s.pc info.insns
  unfolding find_block
  find_block-IsLine fuel config s j info h c e = at (j.cache_bb s.pc) refl e
    where
      at :
          (o : Option BbInfo)
          → j.cache_bb s.pc ≡ o
          → elim o [
            | some info ↦ ok info
            | none ↦ do
              insns ← collect mem fuel config s.pc s.memory
              ok (record { insns = insns; num_exec = 0 })
          ]
            ≡ ok info
          → IsLine mem p s.pc info.insns
      at (some old) q e = c.blocks s.pc info (q ∙ ap some (ok-injective e))
      at none q e =
          let (ns, x, y) = >>=-eq-ok (collect mem fuel config s.pc s.memory) _ e in
          subst (λ (i : BbInfo). IsLine mem p s.pc i.insns) (ok-injective y)
            (collect-IsLine mem p fuel config s.pc s ns h (at_code s h) x)

  run_block-IsSteps :
      (config : Config) (t : Option (Translator M)) (info : BbInfo) (s : CpuState M)
      (j : JitState M) (r : JitState M × CpuState M)
      → AllFaithful mem p t
      → Inv s
      → IsCoherent mem p j
      → IsLine mem p s.pc info.insns
      → run_block mem config t info s j ≡ ok r
      → IsSteps mem p s r
  unfolding run_block
  run_block-IsSteps config none info s j r f h c l e =
      interpret_block-IsSteps mem p info s j r h c l e
  run_block-IsSteps config (some t) info s j r f h c l e =
      at (leb config.exec_threshold info.num_exec) e
    where
      at :
          (b : Bool)
          → (if b then run_translated mem t info s j else interpret_block mem info s j) ≡ ok r
          → IsSteps mem p s r
      at true e = run_translated-IsSteps mem p t f info s j r h c l e
      at false e = interpret_block-IsSteps mem p info s j r h c l e

  cached_code-RunsLine :
      (t : Option (Translator M)) (s : CpuState M) (j : JitState M) (code : Code M)
      → IsCoherent mem p j
      → cached_code mem t s.pc j ≡ some code
      → RunsLine mem p s.pc code
  unfolding cached_code
  cached_code-RunsLine none s j code c e = cc
  cached_code-RunsLine (some t) s j code c e = c.codes s.pc code e

  -- On a program, from a state of its invariant, coherent caches and with a faithful translator or
  -- none, a round of the JIT engine that ends with a value, whether it runs cached code, collects a
  -- block, interprets it or translates it, has done one or more steps of the interpreter, and it
  -- keeps the invariant and the coherence of the caches.
  pub round-IsSteps :
      (fuel : ℕ) (config : Config) (t : Option (Translator M)) (s : CpuState M) (j : JitState M)
      (r : JitState M × CpuState M)
      → AllFaithful mem p t
      → Inv s
      → IsCoherent mem p j
      → round mem fuel config t s j ≡ ok r
      → IsSteps mem p s r
  unfolding round
  round-IsSteps fuel config t s j r f h c e = at (cached_code mem t s.pc j) refl e
    where
      at :
          (o : Option (Code M))
          → cached_code mem t s.pc j ≡ o
          → elim o [
            | some code ↦ do s' ← code s; ok (j, s')
            | none ↦ do info ← find_block mem fuel config s j; run_block mem config t info s j
          ]
            ≡ ok r
          → IsSteps mem p s r
      at (some code) q e =
          let (ns, l, runs) = cached_code-RunsLine t s j code c q in
          let (s', u, v) = >>=-eq-ok (code s) _ e in
          subst (IsSteps mem p s) (ok-injective v)
            (line-IsSteps mem p s s' j ns h l (sym (runs s h refl) ∙ u) c)
      at none q e =
          let (info, u, v) = >>=-eq-ok (find_block mem fuel config s j) _ e in
          run_block-IsSteps config t info s j r f h c (find_block-IsLine fuel config s j info h c u)
            v

  -- The state in which an engine starts: both caches are empty.
  pub fresh-IsCoherent :
      (j : JitState M)
      → j.tb_cache ≡ empty
      → ((addr : ℕ) → j.cache_bb addr ≡ none)
      → IsCoherent mem p j
  fresh-IsCoherent j e h = record {
    blocks = λ addr info g. let new = h addr in cc;
    codes =
        λ addr code g. let new = ap (λ (c : TbCache M). lookup addr c) e ∙ lookup-empty addr in cc;
  }

  -- On a program, from a state of its invariant, coherent caches and with a faithful translator or
  -- none, a run of the JIT engine that returns ends in a state in which the program has finished,
  -- and some number of rounds lets the interpreter's loop return that same state.
  pub step-run :
      (rounds fuel : ℕ) (config : Config) (t : Option (Translator M)) (s : CpuState M)
      (j : JitState M) (r : JitState M × CpuState M)
      → AllFaithful mem p t
      → Inv s
      → IsCoherent mem p j
      → Jit.step mem rounds fuel config t s j ≡ ok r
      → (k : ℕ) × (run (Engine.step mem) (suc k) s ≡ ok r.1) × (r.1.finished ≡ true)
  unfolding Jit.step
  step-run zero fuel config t s j r f h c e = cc
  step-run (suc rounds) fuel config t s j r f h c e =
      at s.finished refl e λ s' j' h c v. step-run rounds fuel config t s' j' r f h c v
    where
      at :
          (b : Bool)
          → s.finished ≡ b
          → elim b [
            | true ↦ ok (j, s)
            | false ↦ do
              (j', s') ← round mem fuel config t s j
              Jit.step mem rounds fuel config t s' j'
          ]
            ≡ ok r
          → ((s' : CpuState M) (j' : JitState M)
              → Inv s'
              → IsCoherent mem p j'
              → Jit.step mem rounds fuel config t s' j' ≡ ok r
              → (k : ℕ) × (run (Engine.step mem) (suc k) s' ≡ ok r.1) × (r.1.finished ≡ true))
          → (k : ℕ) × (run (Engine.step mem) (suc k) s ≡ ok r.1) × (r.1.finished ≡ true)
      at true q e more =
          let same : s ≡ r.1 = ap (λ (w : JitState M × CpuState M). w.1) (ok-injective e) in
          (
            0,
            run-true (Engine.step mem) s q ∙ ap ok same,
            ap (λ (w : CpuState M). w.finished) (sym same) ∙ q,
          )
      at false q e more =
          let ((j', s'), u, v) = >>=-eq-ok (round mem fuel config t s j) _ e in
          let d = round-IsSteps fuel config t s j (j', s') f h c u in
          let (k, x, y) = more s' j' d.inv d.coherent v in
          let add : suc (suc d.more + k) ≡ suc d.more + suc k = omega arith in
          (suc d.more + k, rw add (d.runs q (suc k) ∙ x), y)
