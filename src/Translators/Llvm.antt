-- ===== src/Translators/Llvm.antt =====
-- The LLVM library as src/jit/llvm/builder/builder.cc uses it. What running an instruction of LLVM IR
-- does is a parameter, with its documented behaviour as named laws.
pub mod Builder
pub mod Translate
pub mod Correct
pub mod Refines
use jit_research.Base.{
  ℕ, ◌+◌, ◌*◌, ◌/◌, ◌%◌, ◌^◌, ◌<◌, ◌≡◌, Bool, not, bit_and, bit_or, bit_xor, get_or, set, List, [],
  ◌∷◌, ltb, leb, ◌==◌, if◌then◌else◌,
}
use jit_research.Isa.Word.{plus, minus, to_word, signed_less, sar, sign_extend}
use jit_research.CpuState.{CpuState}
use jit_research.Interpreter.Handlers.{bool_word}

-- The integer types that the builder uses.
pub data IntType : Type 0 where
  i1 i8 i16 i32 i64 : IntType

-- The members of the struct type of `getCPUStateType`, in order: a number of words for an array.
pub data Member : Type 0 where
  array : ℕ → Member
  integer : IntType → Member
  pointer : Member

abbrev pub cpu_state_type : List Member
cpu_state_type = array 32 ∷ integer i32 ∷ integer i1 ∷ pointer ∷ integer i64 ∷ integer i32 ∷ []

-- What `CreateStructGEP` gives, a member of a struct type by its index, and `CreateInBoundsGEP`, an
-- element of one.
pub data Ptr : Type 0 where
  member : List Member → ℕ → Ptr
  element : List Member → ℕ → ℕ → Ptr

-- The members that `CPUState` of src/cpu_state has in C++: `regs`, `pc`, `finished`, `memory`, `icount`
-- and `m_ExitCode`.
abbrev pub state_layout : List Member
state_layout = array 32 ∷ integer i32 ∷ integer i1 ∷ pointer ∷ integer i64 ∷ integer i32 ∷ []

-- A value is its bits. A load and a store work on the CPU state, to which the function's argument
-- points.
pub record Llvm (M : Type 0) : Type 0 where
  pub create_add : IntType → ℕ → ℕ → ℕ
  pub create_sub : ℕ → ℕ → ℕ
  pub create_and : ℕ → ℕ → ℕ
  pub create_or : ℕ → ℕ → ℕ
  pub create_xor : ℕ → ℕ → ℕ
  pub create_shl : ℕ → ℕ → ℕ
  pub create_lshr : ℕ → ℕ → ℕ
  pub create_ashr : ℕ → ℕ → ℕ
  pub create_icmp_eq : ℕ → ℕ → ℕ
  pub create_icmp_ne : ℕ → ℕ → ℕ
  pub create_icmp_slt : ℕ → ℕ → ℕ
  pub create_icmp_sge : ℕ → ℕ → ℕ
  pub create_icmp_ult : ℕ → ℕ → ℕ
  pub create_icmp_uge : ℕ → ℕ → ℕ
  pub create_select : ℕ → ℕ → ℕ → ℕ
  pub create_zext : IntType → ℕ → ℕ
  pub create_sext : IntType → ℕ → ℕ
  pub create_load : IntType → Ptr → CpuState M → ℕ
  pub create_store : IntType → ℕ → Ptr → CpuState M → CpuState M

-- The language reference of LLVM on these. A shift by 32 or more is a poison value, of which nothing
-- is known, nor of a pointer into the CPU state by a struct type that has not its layout.
pub record IsLlvm {M : Type 0} (b : Llvm M) : Type 0 where
  pub add_law : (x y : ℕ) → b.create_add i32 x y ≡ plus x y
  pub add64_law : (x y : ℕ) → b.create_add i64 x y ≡ (x + y) % 2 ^ 64
  pub sub_law : (x y : ℕ) → b.create_sub x y ≡ minus x y
  pub and_law : (x y : ℕ) → b.create_and x y ≡ bit_and x y
  pub or_law : (x y : ℕ) → b.create_or x y ≡ bit_or x y
  pub xor_law : (x y : ℕ) → b.create_xor x y ≡ bit_xor x y
  pub shl_law : (x y : ℕ) → y < 32 → b.create_shl x y ≡ to_word (x * 2 ^ y)
  pub lshr_law : (x y : ℕ) → y < 32 → b.create_lshr x y ≡ x / 2 ^ y
  pub ashr_law : (x y : ℕ) → y < 32 → b.create_ashr x y ≡ sar x y
  pub eq_law : (x y : ℕ) → b.create_icmp_eq x y ≡ bool_word (x == y)
  pub ne_law : (x y : ℕ) → b.create_icmp_ne x y ≡ bool_word (not (x == y))
  pub slt_law : (x y : ℕ) → b.create_icmp_slt x y ≡ bool_word (signed_less x y)
  pub sge_law : (x y : ℕ) → b.create_icmp_sge x y ≡ bool_word (not (signed_less x y))
  pub ult_law : (x y : ℕ) → b.create_icmp_ult x y ≡ bool_word (ltb x y)
  pub uge_law : (x y : ℕ) → b.create_icmp_uge x y ≡ bool_word (leb y x)
  pub select_law : (c : Bool) (x y : ℕ) → b.create_select (bool_word c) x y ≡ (if c then x else y)
  pub zext_law : (t : IntType) (x : ℕ) → b.create_zext t x ≡ x
  pub sext8_law : (x : ℕ) → b.create_sext i8 x ≡ sign_extend 32 32 8 x
  pub sext16_law : (x : ℕ) → b.create_sext i16 x ≡ sign_extend 32 32 16 x
  pub load_reg_law :
      (i : ℕ) (s : CpuState M) → b.create_load i32 (element state_layout 0 i) s ≡ get_or s.regs i 0
  pub load8_law :
      (i : ℕ) (s : CpuState M)
      → b.create_load i8 (element state_layout 0 i) s ≡ get_or s.regs i 0 % 2 ^ 8
  pub load16_law :
      (i : ℕ) (s : CpuState M)
      → b.create_load i16 (element state_layout 0 i) s ≡ get_or s.regs i 0 % 2 ^ 16
  pub load_pc_law : (s : CpuState M) → b.create_load i32 (member state_layout 1) s ≡ s.pc
  pub load_icount_law : (s : CpuState M) → b.create_load i64 (member state_layout 4) s ≡ s.icount
  pub store_reg_law :
      (i v : ℕ) (s : CpuState M)
      → b.create_store i32 v (element state_layout 0 i) s ≡ record s { regs = set s.regs i v }
  pub store_pc_law :
      (v : ℕ) (s : CpuState M)
      → b.create_store i32 v (member state_layout 1) s ≡ record s { pc = v }
  pub store_icount_law :
      (v : ℕ) (s : CpuState M)
      → b.create_store i64 v (member state_layout 4) s ≡ record s { icount = v }
