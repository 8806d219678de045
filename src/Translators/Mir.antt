-- ===== src/Translators/Mir.antt =====
-- The MIR library as src/jit/mir/mir.cc uses it. What running its instructions does is a parameter,
-- with its documented behaviour as named laws.
pub mod Generate
pub mod Correct
pub mod Refines
use jit_research.Base.{
  ℕ, ◌+◌, ◌*◌, ◌/◌, ◌%◌, ◌^◌, ◌<◌, ◌≡◌, Bool, not, bit_and, bit_or, bit_xor, get_or, set, ltb, leb,
  ◌==◌,
}
use jit_research.Isa.Word.{plus, minus, to_word, word_mod, signed_less, sar, sign_extend}
use jit_research.Memory.{Width}
use jit_research.CpuState.{CpuState}
use jit_research.Interpreter.Handlers.{bool_word}
use jit_research.Translators.Access.{Field, reg, pc, icount}

-- The types of a call's results and arguments that are used.
pub data MirType : Type 0 where
  i8 : MirType
  u8 : MirType
  i16 : MirType
  u16 : MirType
  u32 : MirType

-- On 64-bit registers. `result` is what a register holds after a call whose prototype has that type.
pub record Mir (M : Type 0) : Type 0 where
  pub adds : ℕ → ℕ → ℕ
  pub subs : ℕ → ℕ → ℕ
  pub ands : ℕ → ℕ → ℕ
  pub ors : ℕ → ℕ → ℕ
  pub xors : ℕ → ℕ → ℕ
  pub lshs : ℕ → ℕ → ℕ
  pub urshs : ℕ → ℕ → ℕ
  pub rshs : ℕ → ℕ → ℕ
  pub lts : ℕ → ℕ → ℕ
  pub ults : ℕ → ℕ → ℕ
  pub and64 : ℕ → ℕ → ℕ
  pub beqs : ℕ → ℕ → Bool
  pub bnes : ℕ → ℕ → Bool
  pub blts : ℕ → ℕ → Bool
  pub bges : ℕ → ℕ → Bool
  pub ublts : ℕ → ℕ → Bool
  pub ubges : ℕ → ℕ → Bool
  pub result : MirType → ℕ → ℕ
  pub argument : MirType → ℕ → ℕ
  pub load_u32 : Field → CpuState M → ℕ
  pub store_u32 : Field → ℕ → CpuState M → CpuState M

-- An instruction on 32 bits, whose name ends in `S`, leaves the high half of its result undefined. Of
-- a shift by 32 or more nothing is known.
pub record IsMir {M : Type 0} (mir : Mir M) : Type 0 where
  pub adds_law : (x y : ℕ) → mir.adds x y % word_mod ≡ plus x y
  pub subs_law : (x y : ℕ) → x < word_mod → y < word_mod → mir.subs x y % word_mod ≡ minus x y
  pub ands_law : (x y : ℕ) → x < word_mod → y < word_mod → mir.ands x y % word_mod ≡ bit_and x y
  pub ors_law : (x y : ℕ) → x < word_mod → y < word_mod → mir.ors x y % word_mod ≡ bit_or x y
  pub xors_law : (x y : ℕ) → x < word_mod → y < word_mod → mir.xors x y % word_mod ≡ bit_xor x y
  pub lshs_law : (x y : ℕ) → x < word_mod → y < 32 → mir.lshs x y % word_mod ≡ to_word (x * 2 ^ y)
  pub urshs_law : (x y : ℕ) → x < word_mod → y < 32 → mir.urshs x y % word_mod ≡ x / 2 ^ y
  pub rshs_law : (x y : ℕ) → x < word_mod → y < 32 → mir.rshs x y % word_mod ≡ sar x y
  pub lts_law :
      (x y : ℕ) → x < word_mod → y < word_mod → mir.lts x y % word_mod ≡ bool_word (signed_less x y)
  pub ults_law :
      (x y : ℕ) → x < word_mod → y < word_mod → mir.ults x y % word_mod ≡ bool_word (ltb x y)
  pub and64_law : (x y : ℕ) → mir.and64 x y % word_mod ≡ bit_and (x % word_mod) (y % word_mod)
  pub beqs_law : (x y : ℕ) → x < word_mod → y < word_mod → mir.beqs x y ≡ (x == y)
  pub bnes_law : (x y : ℕ) → x < word_mod → y < word_mod → mir.bnes x y ≡ not (x == y)
  pub blts_law : (x y : ℕ) → x < word_mod → y < word_mod → mir.blts x y ≡ signed_less x y
  pub bges_law : (x y : ℕ) → x < word_mod → y < word_mod → mir.bges x y ≡ not (signed_less x y)
  pub ublts_law : (x y : ℕ) → x < word_mod → y < word_mod → mir.ublts x y ≡ ltb x y
  pub ubges_law : (x y : ℕ) → x < word_mod → y < word_mod → mir.ubges x y ≡ leb y x
  pub result_i8_law : (x : ℕ) → x < 2 ^ 8 → mir.result i8 x % word_mod ≡ sign_extend 32 32 8 x
  pub result_i16_law : (x : ℕ) → x < 2 ^ 16 → mir.result i16 x % word_mod ≡ sign_extend 32 32 16 x
  pub result_u8_law : (x : ℕ) → x < 2 ^ 8 → mir.result u8 x ≡ x
  pub result_u16_law : (x : ℕ) → x < 2 ^ 16 → mir.result u16 x ≡ x
  pub result_u32_law : (x : ℕ) → x < 2 ^ 32 → mir.result u32 x ≡ x
  pub argument_u32_law : (x : ℕ) → mir.argument u32 x ≡ x % word_mod
  pub argument_i16_law : (x : ℕ) → mir.argument i16 x % 2 ^ 16 ≡ x % 2 ^ 16
  pub argument_i8_law : (x : ℕ) → mir.argument i8 x % 2 ^ 8 ≡ x % 2 ^ 8
  pub load_reg_law : (i : ℕ) (s : CpuState M) → mir.load_u32 (reg i) s ≡ get_or s.regs i 0
  pub load_pc_law : (s : CpuState M) → mir.load_u32 pc s ≡ s.pc
  pub load_icount_law : (s : CpuState M) → mir.load_u32 icount s ≡ s.icount % word_mod
  pub store_reg_law :
      (i v : ℕ) (s : CpuState M)
      → mir.store_u32 (reg i) v s ≡ record s { regs = set s.regs i (v % word_mod) }
  pub store_pc_law :
      (v : ℕ) (s : CpuState M) → mir.store_u32 pc v s ≡ record s { pc = v % word_mod }
  pub store_icount_law :
      (v : ℕ) (s : CpuState M)
      → mir.store_u32 icount v s
        ≡ record s { icount = s.icount / word_mod * word_mod + v % word_mod }
