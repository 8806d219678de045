-- ===== src/Translators/Lightning.antt =====
-- GNU lightning as src/jit/lightning/lightning.cc uses it, on 64-bit registers. What running its
-- instructions does is a parameter, with its documented behaviour as named laws.
pub mod Emitted
pub mod Correct
pub mod Results
pub mod Refines
use jit_research.Base.{
  ℕ, ◌+◌, ◌-◌, ◌*◌, ◌/◌, ◌%◌, ◌^◌, ◌<◌, ◌≡◌, Bool, not, bit_and, bit_or, bit_xor, get_or, set, ltb,
  leb, ◌==◌, if◌then◌else◌,
}
use jit_research.Base.Int.{ltb_ℤ, shr_ℤ}
use jit_research.Isa.Word.{word_mod, sign_extend}
use jit_research.Isa.Word.Longs.{long_mod, signed_long, unsigned_long, extended}
use jit_research.Memory.{Width}
use jit_research.CpuState.{CpuState}
use jit_research.Interpreter.Handlers.{bool_word}
use jit_research.Translators.Access.{Field, reg, pc, icount}

-- `retval` is what `jit_retval` gives after a helper that returns a value of a width, and `extr` the
-- extraction of so many low bits with their sign.
pub record Lightning (M : Type 0) : Type 0 where
  pub addr : ℕ → ℕ → ℕ
  pub addi : ℕ → ℕ → ℕ
  pub andr : ℕ → ℕ → ℕ
  pub andi : ℕ → ℕ → ℕ
  pub orr : ℕ → ℕ → ℕ
  pub ori : ℕ → ℕ → ℕ
  pub xorr : ℕ → ℕ → ℕ
  pub xori : ℕ → ℕ → ℕ
  pub subr : ℕ → ℕ → ℕ
  pub lshr : ℕ → ℕ → ℕ
  pub lshi : ℕ → ℕ → ℕ
  pub rshr : ℕ → ℕ → ℕ
  pub rshi : ℕ → ℕ → ℕ
  pub rshr_u : ℕ → ℕ → ℕ
  pub rshi_u : ℕ → ℕ → ℕ
  pub eqr : ℕ → ℕ → ℕ
  pub ner : ℕ → ℕ → ℕ
  pub ltr : ℕ → ℕ → ℕ
  pub ger : ℕ → ℕ → ℕ
  pub ltr_u : ℕ → ℕ → ℕ
  pub ger_u : ℕ → ℕ → ℕ
  pub lti_u : ℕ → ℕ → ℕ
  pub movzr : ℕ → ℕ → ℕ → ℕ
  pub extr : ℕ → ℕ → ℕ
  pub retval : Width → ℕ → ℕ
  pub ldxi_i : Field → CpuState M → ℕ
  pub ldxi_ui : Field → CpuState M → ℕ
  pub stxi_i : Field → ℕ → CpuState M → CpuState M

-- The manual on these. A helper returns a byte or a half extended by zeros, as the usual compilers have
-- it.
pub record IsLightning {M : Type 0} (jit : Lightning M) : Type 0 where
  pub addr_law : (x y : ℕ) → jit.addr x y ≡ (x + y) % long_mod
  pub addi_law : (x y : ℕ) → jit.addi x y ≡ (x + y) % long_mod
  pub andr_law : (x y : ℕ) → jit.andr x y ≡ bit_and x y
  pub andi_law : (x y : ℕ) → jit.andi x y ≡ bit_and x y
  pub orr_law : (x y : ℕ) → jit.orr x y ≡ bit_or x y
  pub ori_law : (x y : ℕ) → jit.ori x y ≡ bit_or x y
  pub xorr_law : (x y : ℕ) → jit.xorr x y ≡ bit_xor x y
  pub xori_law : (x y : ℕ) → jit.xori x y ≡ bit_xor x y
  pub subr_law : (x y : ℕ) → y < long_mod → jit.subr x y ≡ (x + long_mod - y) % long_mod
  pub lshr_law : (x y : ℕ) → y < 64 → jit.lshr x y ≡ x * 2 ^ y % long_mod
  pub lshi_law : (x y : ℕ) → y < 64 → jit.lshi x y ≡ x * 2 ^ y % long_mod
  pub rshr_law : (x y : ℕ) → y < 64 → jit.rshr x y ≡ unsigned_long (shr_ℤ (signed_long x) y)
  pub rshi_law : (x y : ℕ) → y < 64 → jit.rshi x y ≡ unsigned_long (shr_ℤ (signed_long x) y)
  pub rshr_u_law : (x y : ℕ) → y < 64 → jit.rshr_u x y ≡ x / 2 ^ y
  pub rshi_u_law : (x y : ℕ) → y < 64 → jit.rshi_u x y ≡ x / 2 ^ y
  pub eqr_law : (x y : ℕ) → jit.eqr x y ≡ bool_word (x == y)
  pub ner_law : (x y : ℕ) → jit.ner x y ≡ bool_word (not (x == y))
  pub ltr_law : (x y : ℕ) → jit.ltr x y ≡ bool_word (ltb_ℤ (signed_long x) (signed_long y))
  pub ger_law : (x y : ℕ) → jit.ger x y ≡ bool_word (not (ltb_ℤ (signed_long x) (signed_long y)))
  pub ltr_u_law : (x y : ℕ) → jit.ltr_u x y ≡ bool_word (ltb x y)
  pub ger_u_law : (x y : ℕ) → jit.ger_u x y ≡ bool_word (leb y x)
  pub lti_u_law : (x y : ℕ) → jit.lti_u x y ≡ bool_word (ltb x y)
  pub movzr_law : (old new c : ℕ) → jit.movzr old new c ≡ (if c == 0 then new else old)
  pub extr_8_law : (x : ℕ) → x < 2 ^ 8 → jit.extr 8 x % word_mod ≡ sign_extend 32 32 8 x
  pub extr_16_law : (x : ℕ) → x < 2 ^ 16 → jit.extr 16 x % word_mod ≡ sign_extend 32 32 16 x
  pub retval_law : (width : Width) (x : ℕ) → jit.retval width x ≡ x
  pub ldxi_i_law : (i : ℕ) (s : CpuState M) → jit.ldxi_i (reg i) s ≡ extended (get_or s.regs i 0)
  pub ldxi_ui_law : (i : ℕ) (s : CpuState M) → jit.ldxi_ui (reg i) s ≡ get_or s.regs i 0
  pub ldxi_pc_law : (s : CpuState M) → jit.ldxi_ui pc s ≡ s.pc
  pub ldxi_icount_law : (s : CpuState M) → jit.ldxi_ui icount s ≡ s.icount % word_mod
  pub stxi_reg_law :
      (i v : ℕ) (s : CpuState M)
      → jit.stxi_i (reg i) v s ≡ record s { regs = set s.regs i (v % word_mod) }
  pub stxi_pc_law : (v : ℕ) (s : CpuState M) → jit.stxi_i pc v s ≡ record s { pc = v % word_mod }
  pub stxi_icount_law :
      (v : ℕ) (s : CpuState M)
      → jit.stxi_i icount v s ≡ record s { icount = s.icount / word_mod * word_mod + v % word_mod }
