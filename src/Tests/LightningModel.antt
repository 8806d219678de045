-- ===== src/Tests/LightningModel.antt =====
-- A model of lightning that satisfies what is assumed of it.
use jit_research.Base.{
  ℕ, ◌+◌, ◌-◌, ◌*◌, ◌/◌, ◌%◌, ◌^◌, refl, arith, not, bit_and, bit_or, bit_xor, get_or, ltb, leb,
  ◌==◌, if◌then◌else◌,
}
use jit_research.Base.Int.{ltb_ℤ, shr_ℤ}
use jit_research.Isa.Word.{sign_extend}
use jit_research.Isa.Word.Longs.{long_mod, signed_long, unsigned_long, extended}
use jit_research.Isa.Word.Signs.{sign_extend-lt}
use jit_research.CpuState.{CpuState}
use jit_research.Interpreter.Handlers.{bool_word}
use jit_research.Tests.Places.{load_low, store_low, below}
use jit_research.Translators.Access.{Field, reg}
use jit_research.Translators.Lightning.{Lightning, IsLightning}

abbrev load_extended : {M : Type 0} → Field → CpuState M → ℕ
load_extended (reg i) s = extended (get_or s.regs i 0)
load_extended f s = 0

abbrev extract : ℕ → ℕ → ℕ
extract bits x = sign_extend 32 32 bits x

abbrev pub lightning : {M : Type 0} → Lightning M
lightning = record {
  addr = λ x y. (x + y) % long_mod;
  addi = λ x y. (x + y) % long_mod;
  andr = bit_and;
  andi = bit_and;
  orr = bit_or;
  ori = bit_or;
  xorr = bit_xor;
  xori = bit_xor;
  subr = λ x y. (x + long_mod - y) % long_mod;
  lshr = λ x y. x * 2 ^ y % long_mod;
  lshi = λ x y. x * 2 ^ y % long_mod;
  rshr = λ x y. unsigned_long (shr_ℤ (signed_long x) y);
  rshi = λ x y. unsigned_long (shr_ℤ (signed_long x) y);
  rshr_u = λ x y. x / 2 ^ y;
  rshi_u = λ x y. x / 2 ^ y;
  eqr = λ x y. bool_word (x == y);
  ner = λ x y. bool_word (not (x == y));
  ltr = λ x y. bool_word (ltb_ℤ (signed_long x) (signed_long y));
  ger = λ x y. bool_word (not (ltb_ℤ (signed_long x) (signed_long y)));
  ltr_u = λ x y. bool_word (ltb x y);
  ger_u = λ x y. bool_word (leb y x);
  lti_u = λ x y. bool_word (ltb x y);
  movzr = λ old new c. if c == 0 then new else old;
  extr = extract;
  retval = λ width x. x;
  ldxi_i = load_extended;
  ldxi_ui = load_low;
  stxi_i = store_low;
}

pub lightning-IsLightning : {M : Type 0} → IsLightning (lightning {M = M})
lightning-IsLightning = record {
  addr_law = λ x y. refl;
  addi_law = λ x y. refl;
  andr_law = λ x y. refl;
  andi_law = λ x y. refl;
  orr_law = λ x y. refl;
  ori_law = λ x y. refl;
  xorr_law = λ x y. refl;
  xori_law = λ x y. refl;
  subr_law = λ x y h. refl;
  lshr_law = λ x y h. refl;
  lshi_law = λ x y h. refl;
  rshr_law = λ x y h. refl;
  rshi_law = λ x y h. refl;
  rshr_u_law = λ x y h. refl;
  rshi_u_law = λ x y h. refl;
  eqr_law = λ x y. refl;
  ner_law = λ x y. refl;
  ltr_law = λ x y. refl;
  ger_law = λ x y. refl;
  ltr_u_law = λ x y. refl;
  ger_u_law = λ x y. refl;
  lti_u_law = λ x y. refl;
  movzr_law = λ old new c. refl;
  extr_8_law = λ x h. below _ (sign_extend-lt 8 x (omega (arith, h)));
  extr_16_law = λ x h. below _ (sign_extend-lt 16 x (omega (arith, h)));
  retval_law = λ width x. refl;
  ldxi_i_law = λ i s. refl;
  ldxi_ui_law = λ i s. refl;
  ldxi_pc_law = λ s. refl;
  ldxi_icount_law = λ s. refl;
  stxi_reg_law = λ i v s. refl;
  stxi_pc_law = λ v s. refl;
  stxi_icount_law = λ v s. refl;
}
