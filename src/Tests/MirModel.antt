-- ===== src/Tests/MirModel.antt =====
-- A model of MIR that satisfies what is assumed of it.
use jit_research.Base.{
  ℕ, ◌+◌, ◌-◌, ◌*◌, ◌/◌, ◌%◌, ◌^◌, refl, arith, not, bit_and, bit_or, bit_xor, ltb, leb, ◌==◌,
}
use jit_research.Base.Bits.{bit_and-lt, bit_or-lt, bit_xor-lt}
use jit_research.Isa.Word.{plus, minus, word_mod, signed_less, sar, sign_extend}
use jit_research.Isa.Word.Signs.{sar-lt, sign_extend-lt, div-le}
use jit_research.Interpreter.Handlers.{bool_word}
use jit_research.Tests.Places.{load_low, store_low, twice, below, bit_below}
use jit_research.Translators.Mir
use jit_research.Translators.Mir.{Mir, IsMir, MirType}

abbrev result_by : MirType → ℕ → ℕ
result_by Mir.i8 x = sign_extend 32 32 8 x
result_by Mir.i16 x = sign_extend 32 32 16 x
result_by t x = x

abbrev argument_by : MirType → ℕ → ℕ
argument_by Mir.u32 x = x % word_mod
argument_by t x = x

abbrev pub mir : {M : Type 0} → Mir M
mir = record {
  adds = plus;
  subs = minus;
  ands = bit_and;
  ors = bit_or;
  xors = bit_xor;
  lshs = λ x y. x * 2 ^ y;
  urshs = λ x y. x / 2 ^ y;
  rshs = sar;
  lts = λ x y. bool_word (signed_less x y);
  ults = λ x y. bool_word (ltb x y);
  and64 = λ x y. bit_and (x % word_mod) (y % word_mod);
  beqs = λ x y. x == y;
  bnes = λ x y. not (x == y);
  blts = signed_less;
  bges = λ x y. not (signed_less x y);
  ublts = ltb;
  ubges = λ x y. leb y x;
  result = result_by;
  argument = argument_by;
  load_u32 = load_low;
  store_u32 = store_low;
}

pub mir-IsMir : {M : Type 0} → IsMir (mir {M = M})
mir-IsMir = record {
  adds_law = λ x y. twice (x + y);
  subs_law = λ x y p q. twice (x + word_mod - y);
  ands_law = λ x y p q. below _ (bit_and-lt 32 x y p q);
  ors_law = λ x y p q. below _ (bit_or-lt 32 x y p q);
  xors_law = λ x y p q. below _ (bit_xor-lt 32 x y p q);
  lshs_law = λ x y p q. refl;
  urshs_law = λ x y p q. below _ (omega (arith, div-le x (2 ^ y), p));
  rshs_law = λ x y p q. below _ (sar-lt x y);
  lts_law = λ x y p q. bit_below (signed_less x y);
  ults_law = λ x y p q. bit_below (ltb x y);
  and64_law =
      λ x y. below _ (bit_and-lt 32 (x % word_mod) (y % word_mod) (omega arith) (omega arith));
  beqs_law = λ x y p q. refl;
  bnes_law = λ x y p q. refl;
  blts_law = λ x y p q. refl;
  bges_law = λ x y p q. refl;
  ublts_law = λ x y p q. refl;
  ubges_law = λ x y p q. refl;
  result_i8_law = λ x h. below _ (sign_extend-lt 8 x (omega (arith, h)));
  result_i16_law = λ x h. below _ (sign_extend-lt 16 x (omega (arith, h)));
  result_u8_law = λ x h. refl;
  result_u16_law = λ x h. refl;
  result_u32_law = λ x h. refl;
  argument_u32_law = λ x. refl;
  argument_i16_law = λ x. refl;
  argument_i8_law = λ x. refl;
  load_reg_law = λ i s. refl;
  load_pc_law = λ s. refl;
  load_icount_law = λ s. refl;
  store_reg_law = λ i v s. refl;
  store_pc_law = λ v s. refl;
  store_icount_law = λ v s. refl;
}
