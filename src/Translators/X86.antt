-- ===== src/Translators/X86.antt =====
-- The x86 instructions that src/jit/xbyak/xbyak.cc and src/jit/asmjit/asmjit.cc emit through their
-- libraries. What each of them does is a parameter, with the manual's account of it as named laws.
use jit_research.Base.{
  ℕ, ◌+◌, ◌*◌, ◌/◌, ◌%◌, ◌^◌, ◌<◌, ◌≡◌, ap, ◌∙◌, arith, true, false, Bool, not, bit_and, bit_or,
  bit_xor, get_or, set, ltb, leb, ◌==◌, if◌then◌else◌,
}
use jit_research.Isa.Word.{plus, minus, to_word, signed_less, sar, sign_extend}
use jit_research.Memory.{Width}
use jit_research.CpuState.{CpuState}
use jit_research.Interpreter.Handlers.{bool_word}
use jit_research.Translators.Access.{Field, reg, pc, icount}

-- The condition codes: equal, not equal, and less, greater, below and above with the negations that are
-- used.
pub data Cond : Type 0 where
  e : Cond
  ne : Cond
  l : Cond
  ge : Cond
  b : Cond
  ae : Cond
  g : Cond
  a : Cond

-- When a condition holds after a comparison.
abbrev pub holds : Cond → ℕ → ℕ → Bool
holds e x y = x == y
holds ne x y = not (x == y)
holds l x y = signed_less x y
holds ge x y = not (signed_less x y)
holds b x y = ltb x y
holds ae x y = leb y x
holds g x y = signed_less y x
holds a x y = ltb y x

-- On 32-bit registers: an instruction with a destination gives what it leaves there, and `cmp` the
-- flags. `returned` is what a register of the caller holds after a helper returned a value of a width.
pub record X86 (M : Type 0) : Type 0 where
  pub add : ℕ → ℕ → ℕ
  pub and : ℕ → ℕ → ℕ
  pub or : ℕ → ℕ → ℕ
  pub xor : ℕ → ℕ → ℕ
  pub sub : ℕ → ℕ → ℕ
  pub shl : ℕ → ℕ → ℕ
  pub shr : ℕ → ℕ → ℕ
  pub sar_by : ℕ → ℕ → ℕ
  pub cmp : ℕ → ℕ → ℕ
  pub cmov : Cond → ℕ → ℕ → ℕ → ℕ
  pub setcc : Cond → ℕ → ℕ → ℕ
  pub movzx8 : ℕ → ℕ
  pub movsx8 : ℕ → ℕ
  pub movsx16 : ℕ → ℕ
  pub cbw : ℕ → ℕ
  pub cwde : ℕ → ℕ
  pub returned : Width → ℕ → ℕ
  pub load : Field → CpuState M → ℕ
  pub store : Field → ℕ → CpuState M → CpuState M
  pub add_to : Field → ℕ → CpuState M → CpuState M
  pub inc64 : Field → CpuState M → CpuState M

-- A shift takes the low five bits of its amount, and `setcc` writes the low byte of its destination.
-- A helper returns a byte or a half extended by zeros, as the usual compilers have it.
pub record IsX86 {M : Type 0} (x86 : X86 M) : Type 0 where
  pub add_law : (x y : ℕ) → x86.add x y ≡ plus x y
  pub and_law : (x y : ℕ) → x86.and x y ≡ bit_and x y
  pub or_law : (x y : ℕ) → x86.or x y ≡ bit_or x y
  pub xor_law : (x y : ℕ) → x86.xor x y ≡ bit_xor x y
  pub sub_law : (x y : ℕ) → x86.sub x y ≡ minus x y
  pub shl_law : (x y : ℕ) → x86.shl x y ≡ to_word (x * 2 ^ bit_and y 31)
  pub shr_law : (x y : ℕ) → x86.shr x y ≡ x / 2 ^ bit_and y 31
  pub sar_law : (x y : ℕ) → x86.sar_by x y ≡ sar x (bit_and y 31)
  pub cmov_law :
      (c : Cond) (x y old new : ℕ)
      → x86.cmov c (x86.cmp x y) old new ≡ (if holds c x y then new else old)
  pub setcc_law :
      (c : Cond) (x y old : ℕ)
      → x86.setcc c (x86.cmp x y) old ≡ old / 2 ^ 8 * 2 ^ 8 + bool_word (holds c x y)
  pub movzx8_law : (x : ℕ) → x86.movzx8 x ≡ x % 2 ^ 8
  pub movsx8_law : (x : ℕ) → x < 2 ^ 8 → x86.movsx8 x ≡ sign_extend 32 32 8 x
  pub movsx16_law : (x : ℕ) → x < 2 ^ 16 → x86.movsx16 x ≡ sign_extend 32 32 16 x
  pub cbw_cwde_law : (x : ℕ) → x < 2 ^ 8 → x86.cwde (x86.cbw x) ≡ sign_extend 32 32 8 x
  pub cwde_law : (x : ℕ) → x < 2 ^ 16 → x86.cwde x ≡ sign_extend 32 32 16 x
  pub returned_law : (width : Width) (x : ℕ) → x86.returned width x ≡ x
  pub load_reg_law : (i : ℕ) (s : CpuState M) → x86.load (reg i) s ≡ get_or s.regs i 0
  pub load_pc_law : (s : CpuState M) → x86.load pc s ≡ s.pc
  pub store_reg_law :
      (i v : ℕ) (s : CpuState M) → x86.store (reg i) v s ≡ record s { regs = set s.regs i v }
  pub store_pc_law : (v : ℕ) (s : CpuState M) → x86.store pc v s ≡ record s { pc = v }
  pub add_to_pc_law : (v : ℕ) (s : CpuState M) → x86.add_to pc v s ≡ record s { pc = plus s.pc v }
  -- only the low half of the count, without a carry into the high half
  pub add_to_icount_law :
      (v : ℕ) (s : CpuState M)
      → x86.add_to icount v s
        ≡ record s { icount = s.icount / 2 ^ 32 * 2 ^ 32 + (s.icount + v) % 2 ^ 32 }
  pub inc64_law :
      (s : CpuState M) → x86.inc64 icount s ≡ record s { icount = (s.icount + 1) % 2 ^ 64 }

byte_bool : (old : ℕ) (c : Bool) → (old / 2 ^ 8 * 2 ^ 8 + bool_word c) % 2 ^ 8 ≡ bool_word c
byte_bool old true = omega arith
byte_bool old false = omega arith

module _ {M : Type 0} (x86 : X86 M) (law : IsX86 x86) where
  -- `setcc` on a register that is 0, and one whose low byte is then extended
  pub setcc_zero : (c : Cond) (x y : ℕ) → x86.setcc c (x86.cmp x y) 0 ≡ bool_word (holds c x y)
  setcc_zero c x y =
      let bit = bool_word (holds c x y) in
      let low : 0 / 2 ^ 8 * 2 ^ 8 + bit ≡ bit = omega arith in law.setcc_law c x y 0 ∙ low

  pub movzx8-setcc :
      (c : Cond) (x y old : ℕ)
      → x86.movzx8 (x86.setcc c (x86.cmp x y) old) ≡ bool_word (holds c x y)
  movzx8-setcc c x y old =
      law.movzx8_law _ ∙ ap (λ v. v % 2 ^ 8) (law.setcc_law c x y old) ∙ byte_bool old (holds c x y)
