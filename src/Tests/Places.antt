-- ===== src/Tests/Places.antt =====
-- What models of the libraries share: the low halves of values, and the places of the CPU state.
use jit_research.Base.{ℕ, ◌+◌, ◌*◌, ◌/◌, ◌%◌, ◌<◌, ◌≡◌, refl, arith, Bool, true, false, get_or, set}
use jit_research.Isa.Word.{word_mod}
use jit_research.CpuState.{CpuState}
use jit_research.Interpreter.Handlers.{bool_word}
use jit_research.Translators.Access
use jit_research.Translators.Access.{Field, reg}

abbrev pub load_low : {M : Type 0} → Field → CpuState M → ℕ
load_low (reg i) s = get_or s.regs i 0
load_low Access.pc s = s.pc
load_low Access.icount s = s.icount % word_mod

abbrev pub store_low : {M : Type 0} → Field → ℕ → CpuState M → CpuState M
store_low (reg i) v s = record s { regs = set s.regs i (v % word_mod) }
store_low Access.pc v s = record s { pc = v % word_mod }
store_low Access.icount v s = record s { icount = s.icount / word_mod * word_mod + v % word_mod }

pub twice : (x : ℕ) → x % word_mod % word_mod ≡ x % word_mod
twice x = omega arith

pub below : (x : ℕ) → x < word_mod → x % word_mod ≡ x
below x h = omega arith

pub bit_below : (c : Bool) → bool_word c % word_mod ≡ bool_word c
bit_below true = refl
bit_below false = refl
