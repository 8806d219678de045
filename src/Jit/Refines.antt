-- ===== src/Jit/Refines.antt =====
-- The JIT engine against the interpreter.
use mathlib.Core.Path.{subst}
use mathlib.Core.Option.{some-injective}
use jit_research.Base.{
  ℕ, suc, ◌+◌, ◌%◌, ◌^◌, ◌≡◌, refl, sym, ap, ◌∙◌, List, [], ◌∷◌, length, Bool, true, false, Option,
  none, some, ok, ◌>>=◌, >>=-eq-ok, ok-injective, ◌==◌, ==_iff, if◌then◌else◌, Bool-cases, inl, inr,
}
use jit_research.Isa.Decode.{Instruction}
use jit_research.Memory.{MemoryOps}
use jit_research.CpuState.{CpuState}
use jit_research.Jit.{
  BbInfo, Translator, JitState, put_bb, interpret_insns, interpret, interpret_block, translated,
  run_translated,
}
use jit_research.Jit.Cache.{Code, lookup, insert, get_hash, lookup-insert}
use jit_research.Engine
use jit_research.Engine.{run}
use jit_research.Jit.Lines.{interpret-run}
use jit_research.Jit.Blocks.{Program, IsLine, steps, interpret-steps, interpret-Inv}

-- What holds of a new entry and of the old ones holds of all.
keyed {ℓ} :
    {V : Type 0} (P : ℕ → V → Type ℓ) (key a : ℕ) (new other : V) (old : Option V)
    → P key new
    → (old ≡ some other → P a other)
    → (if key == a then some new else old) ≡ some other
    → P a other
keyed P key a new other old h k e = elim (Bool-cases (key == a)) [
  | inl q ↦
      subst (P a) (some-injective new other (rw q at e))
        (subst (λ b. P b new) ((==_iff key a).0 q) h)
  | inr q ↦ k (rw q at e)
]

unless {ℓ} :
    {V : Type ℓ} (b : Bool) (o : Option V) (v : V) → (if b then none else o) ≡ some v → o ≡ some v
unless true o v e = cc
unless false o v e = e

pub not-IsLine-nil :
    {M : Type 0} (mem : MemoryOps M) (p : Program mem) {addr : ℕ} → ¬ IsLine mem p addr []
not-IsLine-nil mem p l = elim l [ ]

module _ {M : Type 0} (mem : MemoryOps M) where
  module _ (p : Program mem) where
    open p use {Inv}

    -- What the engine relies on in a translator: on the program, the code of a block does what
    -- interpreting its instructions does.
    pub record IsFaithful (t : Translator M) : Type 0 where
      pub same :
          (info : BbInfo) (code : Code M)
          → t.translate info ≡ ok (some code)
          → (s : CpuState M) → Inv s
          → IsLine mem p s.pc info.insns
          → code s ≡ interpret_insns mem info.insns s

    -- The code does what some line of the program does, which starts at its address.
    abbrev pub RunsLine : ℕ → Code M → Type 0
    RunsLine addr code =
        (ns : List Instruction) × IsLine mem p addr ns
        × ((s : CpuState M) → Inv s → s.pc ≡ addr → code s ≡ interpret_insns mem ns s)

    -- Both caches hold lines of the program under their addresses.
    pub record IsCoherent (j : JitState M) : Type 0 where
      pub blocks :
          (addr : ℕ) (info : BbInfo) → j.cache_bb addr ≡ some info → IsLine mem p addr info.insns
      pub codes :
          (addr : ℕ) (code : Code M) → lookup addr j.tb_cache ≡ some code → RunsLine addr code

    -- What a round has to show: it is at least one step of the interpreter, and keeps all invariants.
    pub record IsSteps (s : CpuState M) (r : JitState M × CpuState M) : Type 0 where
      pub more : ℕ
      pub same : steps mem (suc more) s ≡ ok r.1
      pub runs :
          s.finished ≡ false
          → (fuel : ℕ) → run (Engine.step mem) (suc more + fuel) s ≡ run (Engine.step mem) fuel r.1
      pub inv : Inv r.1
      pub coherent : IsCoherent r.0

    pub line-IsSteps :
        (s s' : CpuState M) (j : JitState M) (ns : List Instruction)
        → Inv s
        → IsLine mem p s.pc ns
        → interpret_insns mem ns s ≡ ok s'
        → IsCoherent j
        → IsSteps s (j, s')
    line-IsSteps s s' j [] h l e c = absurd (not-IsLine-nil mem p l)
    line-IsSteps s s' j (n ∷ ns) h l e c = record {
      more = length ns;
      same = sym (interpret-steps mem p (n ∷ ns) s h l) ∙ e;
      runs = λ on fuel. interpret-run mem p fuel (n ∷ ns) s s' h on l e;
      inv = interpret-Inv mem p (n ∷ ns) s s' h l e;
      coherent = c;
    }

    put_bb-IsCoherent :
        (addr : ℕ) (info : BbInfo) (j : JitState M)
        → IsLine mem p addr info.insns
        → IsCoherent j
        → IsCoherent (put_bb addr info j)
    put_bb-IsCoherent addr info j l c = record {
      blocks = λ a other.
          keyed (λ a info. IsLine mem p a info.insns) addr a info other _ l (c.blocks a other);
      codes = c.codes;
    }

    insert-IsCoherent :
        (addr : ℕ) (code : Code M) (j : JitState M)
        → RunsLine addr code
        → IsCoherent j
        → IsCoherent (record j { tb_cache = insert addr code j.tb_cache })
    insert-IsCoherent addr code j r c = record {
      blocks = c.blocks;
      codes = λ a other e.
          keyed RunsLine addr a code other _ r
            (λ g. c.codes a other (unless (get_hash addr == get_hash a) _ other g))
            (sym (lookup-insert addr a code j.tb_cache).1 ∙ e);
    }

    pub interpret_block-IsSteps :
        (info : BbInfo) (s : CpuState M) (j : JitState M) (r : JitState M × CpuState M)
        → Inv s
        → IsCoherent j
        → IsLine mem p s.pc info.insns
        → interpret_block mem info s j ≡ ok r
        → IsSteps s r
    unfolding interpret_block interpret
    interpret_block-IsSteps info s j r h c l e =
        let (q, x, y) = >>=-eq-ok (interpret mem info s) _ e in
        let (s', u, v) = >>=-eq-ok (interpret_insns mem info.insns s) _ x in
        let counted : BbInfo = record info { num_exec = (info.num_exec + 1) % 2 ^ 64 } in
        let pair : (counted, s') ≡ q = ok-injective v in
        let result : (put_bb s.pc counted j, s') ≡ r =
          ap (λ (w : BbInfo × CpuState M). (put_bb s.pc w.0 j, w.1)) pair ∙ ok-injective y in
        subst (IsSteps s) result
          (line-IsSteps s s' _ info.insns h l u (put_bb-IsCoherent s.pc counted j l c))

    pub run_translated-IsSteps :
        (t : Translator M) (faithful : IsFaithful t) (info : BbInfo) (s : CpuState M)
        (j : JitState M) (r : JitState M × CpuState M)
        → Inv s
        → IsCoherent j
        → IsLine mem p s.pc info.insns
        → run_translated mem t info s j ≡ ok r
        → IsSteps s r
    unfolding run_translated
    run_translated-IsSteps t faithful info s j r h c l e =
        let (o, x, y) = >>=-eq-ok (t.translate info) _ e in
        at o x (>>=-eq-ok (translated mem s.pc o) _ y)
      where
        finish :
            (code : Code M)
            → t.translate info ≡ ok (some code)
            → (s' : CpuState M) → code s ≡ ok s'
            → (record (put_bb s.pc info j) { tb_cache = insert s.pc code j.tb_cache }, s') ≡ r
            → IsSteps s r
        finish code x s' y result =
            let runs : (u : CpuState M)
                → Inv u
                → u.pc ≡ s.pc
                → code u ≡ interpret_insns mem info.insns u =
              λ u hu at.
                faithful.same info code x u hu
                  (subst (λ (a : ℕ). IsLine mem p a info.insns) (sym at) l) in
            subst (IsSteps s) result (
              line-IsSteps s s' _ info.insns h l (sym (runs s h refl) ∙ y) (
                insert-IsCoherent s.pc code (put_bb s.pc info j) (info.insns, l, runs)
                  (put_bb-IsCoherent s.pc info j l c)))

        at :
            (o : Option (Code M))
            → t.translate info ≡ ok o
            → (code : Code M) × (translated mem s.pc o ≡ ok code)
              × ((code s >>= λ s'.
                    ok (record (put_bb s.pc info j) { tb_cache = insert s.pc code j.tb_cache }, s'))
                  ≡ ok r)
            → IsSteps s r
        at none x (code, y, z) = cc
        at (some f) x (code, y, z) =
            let same : f ≡ code = ok-injective y in
            let (s', u, v) = >>=-eq-ok (code s) _ z in
            finish code (x ∙ ap (λ (g : Code M). ok (some g)) same) s' u (ok-injective v)
