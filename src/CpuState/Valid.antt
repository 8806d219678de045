-- ===== src/CpuState/Valid.antt =====
-- The well-formedness of a CPU state, and the laws of the register file.
use jit_research.Base.{
  Ensures, if-Ensures, ℕ, ◌^◌, ◌<◌, ◌≡◌, ◌∙◌, refl, arith, get_or, replicate, length, length-set,
  get_or-set, Bool-cases, inl, inr, ◌==◌, if◌then◌else◌, ok, zero, suc,
}
use jit_research.Isa.Word.{word_mod}
use jit_research.CpuState.{
  CpuState, num_regs, new, set_pc, get_reg, set_reg, emulate_sys_call, do_exit,
}

-- 32 registers that hold words, the first of which is 0; a word as the program counter.
pub record IsValid {M : Type 0} (s : CpuState M) : Type 0 where
  pub count : length s.regs ≡ num_regs
  pub words : (r : ℕ) → get_or s.regs r 0 < word_mod
  pub x0 : get_or s.regs 0 0 ≡ 0
  pub pc_word : s.pc < word_mod
  pub icount_long : s.icount < 2 ^ 64
  pub exit_word : s.exit_code < word_mod

get_or-replicate : (n r : ℕ) → get_or {A = ℕ} (replicate n 0) r 0 ≡ 0
get_or-replicate zero r = refl
get_or-replicate (suc n) zero = refl
get_or-replicate (suc n) (suc r) = get_or-replicate n r

module _ {M : Type 0} where
  -- A read after a write to a register in range gives the value at that register and the old value
  -- at others, and a write to register 0 changes nothing.
  pub get_reg-set_reg :
      (r id val : ℕ) (s : CpuState M)
      → id < length s.regs
      → get_reg r (set_reg id val s)
        ≡ (if id == 0 then get_reg r s else if id == r then val else get_reg r s)
  unfolding get_reg set_reg
  get_reg-set_reg r id val s h = ground (arith, get_or-set s.regs id r val 0)

  pub set_reg-IsValid :
      (id val : ℕ) (s : CpuState M)
      → id < num_regs
      → val < word_mod
      → IsValid s
      → IsValid (set_reg id val s)
  unfolding set_reg
  set_reg-IsValid id val s hi hv h = elim (Bool-cases (id == 0)) [
    | inl is_zero ↦ rw is_zero h
    | inr other ↦ rw other (record {
      count = length-set s.regs id val ∙ h.count;
      words = λ r. ground (arith, get_or-set s.regs id r val 0, h.count, h.words r);
      x0 = ground (arith, get_or-set s.regs id 0 val 0, h.count, h.x0);
      pc_word = h.pc_word;
      icount_long = h.icount_long;
      exit_word = h.exit_word;
    })
  ]

  pub set_pc-IsValid :
      (new_pc : ℕ) (s : CpuState M) → new_pc < word_mod → IsValid s → IsValid (set_pc new_pc s)
  unfolding set_pc
  set_pc-IsValid new_pc s hp h = record {
    count = h.count;
    words = h.words;
    x0 = h.x0;
    pc_word = hp;
    icount_long = h.icount_long;
    exit_word = h.exit_word;
  }

  -- A system call that returns leaves the registers and the memory alone.
  pub emulate_sys_call-IsValid :
      (Inv : M → Type 0) (s : CpuState M)
      → IsValid s
      → Inv s.memory
      → Ensures (λ t. IsValid t × Inv t.memory) (emulate_sys_call s)
  unfolding emulate_sys_call
  emulate_sys_call-IsValid Inv s h hm =
      let after : IsValid (do_exit (get_or s.regs 10 0) s) = record {
        count = h.count;
        words = h.words;
        x0 = h.x0;
        pc_word = h.pc_word;
        icount_long = h.icount_long;
        exit_word = h.words 10;
      } in
      if-Ensures (λ t. IsValid t × Inv t.memory) (get_or s.regs 17 0 == 93)
        (ok (do_exit (get_or s.regs 10 0) s)) _ (after, hm) tt

  -- A new state is well-formed.
  pub new-IsValid : (m : M) → IsValid (new m)
  unfolding new
  new-IsValid m = record {
    count = refl;
    words = λ r. rw (get_or-replicate 32 r) (omega arith);
    x0 = refl;
    pc_word = omega arith;
    icount_long = omega arith;
    exit_word = omega arith;
  }
