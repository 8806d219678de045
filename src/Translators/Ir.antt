-- ===== src/Translators/Ir.antt =====
-- The IR framework as src/jit/ir/ir.cc uses it. What running an instruction of its IR does is a
-- parameter, with its documented behaviour as named laws.
pub mod Run
pub mod Correct
pub mod Refines
pub mod Link
use jit_research.Base.{
  ℕ, ◌+◌, ◌*◌, ◌/◌, ◌%◌, ◌^◌, ◌<◌, ◌≡◌, Bool, not, bit_and, bit_or, bit_xor, get_or, set, ltb, leb,
  ◌==◌, if◌then◌else◌,
}
use jit_research.Isa.Word.{plus, minus, to_word, signed_less, sar, sign_extend}
use jit_research.Memory.{Width, byte, half, word, width_mod}
use jit_research.CpuState.{CpuState}
use jit_research.Interpreter.Handlers.{bool_word}
use jit_research.Translators.Access.{Field, reg, pc, icount}

-- A value is its bits. A load and a store work on the CPU state, to which the parameter points.
pub record Ir (M : Type 0) : Type 0 where
  pub add_u32 : ℕ → ℕ → ℕ
  pub sub_u32 : ℕ → ℕ → ℕ
  pub and_u32 : ℕ → ℕ → ℕ
  pub or_u32 : ℕ → ℕ → ℕ
  pub xor_u32 : ℕ → ℕ → ℕ
  pub shl_u32 : ℕ → ℕ → ℕ
  pub shr_u32 : ℕ → ℕ → ℕ
  pub sar_u32 : ℕ → ℕ → ℕ
  pub lt : ℕ → ℕ → ℕ
  pub ult : ℕ → ℕ → ℕ
  pub eq : ℕ → ℕ → ℕ
  pub ne : ℕ → ℕ → ℕ
  pub ge : ℕ → ℕ → ℕ
  pub uge : ℕ → ℕ → ℕ
  pub add_u64 : ℕ → ℕ → ℕ
  pub zext_u32 : ℕ → ℕ
  pub sext_u32 : Width → ℕ → ℕ
  pub trunc : Width → ℕ → ℕ
  pub cond_u32 : ℕ → ℕ → ℕ → ℕ
  pub load_u32 : Field → CpuState M → ℕ
  pub load_u64 : Field → CpuState M → ℕ
  pub store_u32 : Field → ℕ → CpuState M → CpuState M
  pub store_u64 : Field → ℕ → CpuState M → CpuState M

-- The documentation of the framework on these. Of a shift by 32 or more nothing is assumed.
pub record IsIr {M : Type 0} (b : Ir M) : Type 0 where
  pub add_law : (x y : ℕ) → b.add_u32 x y ≡ plus x y
  pub sub_law : (x y : ℕ) → b.sub_u32 x y ≡ minus x y
  pub and_law : (x y : ℕ) → b.and_u32 x y ≡ bit_and x y
  pub or_law : (x y : ℕ) → b.or_u32 x y ≡ bit_or x y
  pub xor_law : (x y : ℕ) → b.xor_u32 x y ≡ bit_xor x y
  pub shl_law : (x y : ℕ) → y < 32 → b.shl_u32 x y ≡ to_word (x * 2 ^ y)
  pub shr_law : (x y : ℕ) → y < 32 → b.shr_u32 x y ≡ x / 2 ^ y
  pub sar_law : (x y : ℕ) → y < 32 → b.sar_u32 x y ≡ sar x y
  pub lt_law : (x y : ℕ) → b.lt x y ≡ bool_word (signed_less x y)
  pub ult_law : (x y : ℕ) → b.ult x y ≡ bool_word (ltb x y)
  pub eq_law : (x y : ℕ) → b.eq x y ≡ bool_word (x == y)
  pub ne_law : (x y : ℕ) → b.ne x y ≡ bool_word (not (x == y))
  pub ge_law : (x y : ℕ) → b.ge x y ≡ bool_word (not (signed_less x y))
  pub uge_law : (x y : ℕ) → b.uge x y ≡ bool_word (leb y x)
  pub add64_law : (x y : ℕ) → b.add_u64 x y ≡ (x + y) % 2 ^ 64
  pub zext_law : (x : ℕ) → b.zext_u32 x ≡ x
  pub sext8_law : (x : ℕ) → b.sext_u32 byte x ≡ sign_extend 32 32 8 x
  pub sext16_law : (x : ℕ) → b.sext_u32 half x ≡ sign_extend 32 32 16 x
  pub sext32_law : (x : ℕ) → b.sext_u32 word x ≡ x
  pub trunc_law : (width : Width) (x : ℕ) → b.trunc width x ≡ x % width_mod width
  pub cond_law : (c : Bool) (x y : ℕ) → b.cond_u32 (bool_word c) x y ≡ (if c then x else y)
  pub load_reg_law : (i : ℕ) (s : CpuState M) → b.load_u32 (reg i) s ≡ get_or s.regs i 0
  pub load_pc_law : (s : CpuState M) → b.load_u32 pc s ≡ s.pc
  pub load_icount_law : (s : CpuState M) → b.load_u64 icount s ≡ s.icount
  pub store_reg_law :
      (i v : ℕ) (s : CpuState M) → b.store_u32 (reg i) v s ≡ record s { regs = set s.regs i v }
  pub store_pc_law : (v : ℕ) (s : CpuState M) → b.store_u32 pc v s ≡ record s { pc = v }
  pub store_icount_law : (v : ℕ) (s : CpuState M) → b.store_u64 icount v s ≡ record s { icount = v }
