-- ===== src/Translators/Access.antt =====
-- What the translators share that hold a state pointer: the places of `CPUState` that emitted code
-- reads and writes, and the helpers that it calls.
use jit_research.Base.{
  arith, true, not, ◌||◌, ℕ, ◌%◌, ◌≡◌, refl, sym, ap, ◌∙◌, Bool-cases, inl, inr, Outcome, ok, ◌>>=◌,
  ◌==◌, ==_iff, if◌then◌else◌, get_or, set,
}
use jit_research.Memory.{MemoryOps, Width, byte, half, word, read, write, width_mod}
use jit_research.Interpreter.Frame.{get_or-set_other}
use jit_research.CpuState.{CpuState, get_reg, set_reg, emulate_sys_call}

-- `offsetof(CPUState, regs) + kWordSize * reg`, `offsetof(CPUState, pc)` and `offsetof(CPUState, icount)`
pub data Field : Type 0 where
  reg : ℕ → Field
  pc icount : Field

module _ {M : Type 0} (mem : MemoryOps M) where
  -- `loadHelper<T>`, `storeHelper<T>` and `syscallHelper`; a `T` is passed by its low bits.
  unfoldable pub load_helper : Width → ℕ → CpuState M → Outcome ℕ
  load_helper width addr s = read mem width addr s.memory

  unfoldable pub store_helper : Width → ℕ → ℕ → CpuState M → Outcome (CpuState M)
  store_helper width addr val s = do
    m ← write mem width addr (val % width_mod width) s.memory
    ok (record s { memory = m })

  unfoldable pub syscall_helper : CpuState M → Outcome (CpuState M)
  syscall_helper s = emulate_sys_call s

-- A `loadReg` and a `setDst` that treat register 0 on their own do what the accessors do.
module _ {M : Type 0} where
  pub load_zero-get_reg :
      (load : ℕ → CpuState M → ℕ) (s : CpuState M)
      → ((i : ℕ) → load i s ≡ get_or s.regs i 0)
      → get_or s.regs 0 0 ≡ 0
      → (i : ℕ) → (if i == 0 then 0 else load i s) ≡ get_reg i s
  unfolding get_reg
  load_zero-get_reg load s law x0 i = elim (Bool-cases (i == 0)) [
    | inl z ↦ rw z (sym (ap (λ j. get_or s.regs j 0) ((==_iff i 0).0 z) ∙ x0))
    | inr z ↦ rw z (law i)
  ]

  pub stored-set_reg :
      (rd w : ℕ) (s t : CpuState M)
      → (t ≡ record s { regs = set s.regs rd w })
      → (if rd == 0 then s else t) ≡ set_reg rd w s
  unfolding set_reg
  stored-set_reg rd w s t e = elim (Bool-cases (rd == 0)) [ inl z ↦ rw z refl | inr z ↦ rw z e ]

  pub store_nonzero-set_reg :
      (store : ℕ → ℕ → CpuState M → CpuState M) (rd v w : ℕ) (s : CpuState M)
      → (store rd v s ≡ record s { regs = set s.regs rd v })
      → v ≡ w
      → (if rd == 0 then s else store rd v s) ≡ set_reg rd w s
  store_nonzero-set_reg store rd v w s law e =
      stored-set_reg rd w s _ (law ∙ ap (λ (x : ℕ). record s { regs = set s.regs rd x }) e)

  -- A write to another register, or to register 0, does not change what a register holds.
  pub get_reg-set_reg_apart :
      (rd r v : ℕ) (s : CpuState M)
      → (not (rd == r) || (rd == 0)) ≡ true
      → get_reg r (set_reg rd v s) ≡ get_reg r s
  unfolding get_reg set_reg
  get_reg-set_reg_apart rd r v s apart = elim (Bool-cases (rd == 0)) [
    | inl z ↦ rw z refl
    | inr z ↦ rw z (get_or-set_other s.regs rd r v (ground (arith, z, apart)))
  ]

pub mod-mod_width :
    (width : Width) (x : ℕ) → x % width_mod width % width_mod width ≡ x % width_mod width
mod-mod_width byte x = omega arith
mod-mod_width half x = omega arith
mod-mod_width word x = omega arith
