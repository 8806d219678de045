-- ===== src/Translators/Faithful.antt =====
-- From the code that a translator of src/jit emits for single instructions to `Translator::translate`.
use mathlib.Core.Path.{subst}
use mathlib.Core.Option.{some-injective}
use jit_research.Base.{
  Ensures, Ensures-image, Yields, Yields-ok, >>=-congr-Ensures, >>=_assoc, >>=-eq-ok, ℕ, ◌≡◌, sym,
  ap, ◌∙◌, List, [], ◌∷◌, length, some, Outcome, ok, ◌>>=◌, ok-injective,
}
use jit_research.Isa.Opcode.{Opcode}
use jit_research.Isa.Decode.{Instruction}
use jit_research.Isa.Decode.Bounds.{decode-IsWellFormed}
use jit_research.Memory.{MemoryOps}
use jit_research.CpuState.{CpuState}
use jit_research.Interpreter.Valid.{IsSound}
use jit_research.Jit.{Translator, interpret_insns}
use jit_research.Jit.Blocks.{Program, IsLine}
use jit_research.Jit.Cache.{Code}
use jit_research.Jit.Counted.{run_insns, run_insns-icount, add_count, interpret_insns-add_count}
use jit_research.Jit.Refines.{IsFaithful, not-IsLine-nil}
use jit_research.Translators.Emit.{All, none_left, and_all, Supports, Does}

-- A translator of the repository, by its own part and the library's: what it emits for a block, and
-- what the library makes of that, which may throw.
abbrev pub library_translator :
    {M : Type 0}
    → (List Instruction → Outcome (Code M))
    → (Code M → Outcome (Code M))
    → Translator M
library_translator emit compile = record {
  translate = λ info. do
    emitted ← emit info.insns
    code ← compile emitted
    ok (some code);
}

-- What is asked of the library: if it gives code, the code does what was emitted.
abbrev pub Compiles : {M : Type 0} → (Code M → Outcome (Code M)) → Type 0
Compiles {M} compile =
    (emitted code : Code M) → compile emitted ≡ ok code → (s : CpuState M) → code s ≡ emitted s

module _ {M S : Type 0} (mem : MemoryOps M) (Inv : M → Type 0) (view : S → CpuState M) where
  -- A block's code between what the function begins and ends with.
  pub finish-run_insns :
      (ns : List Instruction) (body : S → Outcome S) (s : CpuState M) (u : S)
      (finish : S → Outcome (CpuState M)) (last : CpuState M → Outcome (CpuState M))
      → Does Inv view (run_insns mem ns) body
      → IsSound Inv s
      → view u ≡ s
      → ((v : S) → (view v).icount ≡ s.icount → finish v ≡ last (view v))
      → (body u >>= finish) ≡ (run_insns mem ns s >>= last)
  finish-run_insns ns body s u finish last h sound entered law =
      let does : (body u >>= λ v. ok (view v)) ≡ run_insns mem ns s =
        h u (subst (IsSound Inv) (sym entered) sound) ∙ ap (run_insns mem ns) entered in
      let count : Ensures (λ v. (view v).icount ≡ s.icount) (body u) =
        Ensures-image (λ t. t.icount ≡ s.icount) view (body u)
          (subst (Ensures (λ t. t.icount ≡ s.icount)) (sym does) (run_insns-icount mem ns s)) in
      >>=-congr-Ensures (λ v. (view v).icount ≡ s.icount) (body u) _ _ count law
      ∙ sym (>>=_assoc (body u) (λ v. ok (view v)) last)
      ∙ ap (λ o. o >>= last) does

  pub finish-interpret_insns :
      (n : Instruction) (ns : List Instruction) (body : S → Outcome S) (s : CpuState M) (u : S)
      (finish : S → Outcome (CpuState M))
      → Does Inv view (run_insns mem (n ∷ ns)) body
      → IsSound Inv s
      → view u ≡ s
      → ((v : S) → (view v).icount ≡ s.icount → finish v ≡ add_count (length (n ∷ ns)) (view v))
      → (body u >>= finish) ≡ interpret_insns mem (n ∷ ns) s
  finish-interpret_insns n ns body s u finish h sound entered law =
      finish-run_insns (n ∷ ns) body s u finish (add_count (length (n ∷ ns))) h sound entered law
      ∙ sym (interpret_insns-add_count mem n ns s)

module _ {M : Type 0} (mem : MemoryOps M) (p : Program mem) (Own : Opcode → Instruction → Type 0)
    (own : (addr : ℕ) → p.Code addr → Own (p.code addr).opcode (p.code addr)) where
  code-Supports :
      (s : CpuState M)
      → p.Inv s
      → (addr : ℕ) → p.Code addr
      → (n : Instruction) → n ≡ p.code addr
      → Supports Own n
  code-Supports s h addr c n e =
      let (bytes, _, d) = p.in_memory s addr h c in
      subst (Supports Own) (sym e)
        (record { well_formed = decode-IsWellFormed bytes (p.code addr) d; own = own addr c })

  -- What a translator meets on a line of the program, it supports.
  pub line-All :
      (s : CpuState M)
      → p.Inv s
      → {addr : ℕ} → (ns : List Instruction) → IsLine mem p addr ns
      → All (Supports Own) ns
  line-All s h ns (IsLine.last c e) = and_all (code-Supports s h _ c _ e) none_left
  line-All s h ns (IsLine.next c e t l) = and_all (code-Supports s h _ c _ e) (line-All s h _ l)

  -- A translator is faithful whose emitted code is, for blocks that are not empty and supported.
  pub library_translator-IsFaithful :
      (emit : List Instruction → Outcome (Code M)) (compile : Code M → Outcome (Code M))
      → ((n : Instruction) (ns : List Instruction) (s : CpuState M)
          → p.Inv s
          → IsLine mem p s.pc (n ∷ ns)
          → All (Supports Own) (n ∷ ns)
          → Yields (λ code. code s ≡ interpret_insns mem (n ∷ ns) s) (emit (n ∷ ns)))
      → Compiles compile
      → IsFaithful mem p (library_translator emit compile)
  library_translator-IsFaithful emit compile does compiles = record {
    same = λ info code e s h l. by_insns info.insns code e s h l;
  }
    where
      by_insns :
          (ns : List Instruction) (code : Code M)
          → (emit ns >>= λ emitted. (compile emitted >>= λ code. ok (some code))) ≡ ok (some code)
          → (s : CpuState M) → p.Inv s
          → IsLine mem p s.pc ns
          → code s ≡ interpret_insns mem ns s
      by_insns [] code e s h l = absurd (not-IsLine-nil mem p l)
      by_insns (n ∷ ns) code e s h l =
          let (emitted, e1, rest) = >>=-eq-ok (emit (n ∷ ns)) _ e in
          let (made, e2, last) = >>=-eq-ok (compile emitted) _ rest in
          let same : made ≡ code = some-injective made code (ok-injective last) in
          ap (λ (f : Code M). f s) (sym same)
          ∙ compiles emitted made e2 s
          ∙ Yields-ok (λ f. f s ≡ interpret_insns mem (n ∷ ns) s) e1
              (does n ns s h l (line-All s h (n ∷ ns) l))
