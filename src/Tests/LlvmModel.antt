-- ===== src/Tests/LlvmModel.antt =====
-- Models of the LLVM and the IR library that satisfy what is assumed of them.
use jit_research.Base.{
  ℕ, ◌+◌, ◌*◌, ◌/◌, ◌%◌, ◌^◌, refl, true, false, not, bit_and, bit_or, bit_xor, get_or, set, ltb,
  leb, ◌==◌, if◌then◌else◌,
}
use jit_research.Isa.Word.{plus, minus, to_word, signed_less, sar, sign_extend}
use jit_research.Memory.{Width, byte, half, word, width_mod}
use jit_research.CpuState.{CpuState}
use jit_research.Interpreter.Handlers.{bool_word}
use jit_research.Translators.Access
use jit_research.Translators.Access.{Field, reg}
use jit_research.Translators.Ir.{Ir, IsIr}
use jit_research.Translators.Llvm.{Llvm, IsLlvm, IntType, i8, i16, i64, Ptr, member, element}

abbrev add_by : IntType → ℕ → ℕ → ℕ
add_by i64 x y = (x + y) % 2 ^ 64
add_by t x y = plus x y

abbrev sext_by : IntType → ℕ → ℕ
sext_by i8 x = sign_extend 32 32 8 x
sext_by i16 x = sign_extend 32 32 16 x
sext_by t x = x

abbrev load_by : {M : Type 0} → IntType → Ptr → CpuState M → ℕ
load_by i8 (element ms k i) s = get_or s.regs i 0 % 2 ^ 8
load_by i16 (element ms k i) s = get_or s.regs i 0 % 2 ^ 16
load_by i64 (member ms k) s = s.icount
load_by t (element ms k i) s = get_or s.regs i 0
load_by t (member ms k) s = s.pc

abbrev store_by : {M : Type 0} → IntType → ℕ → Ptr → CpuState M → CpuState M
store_by t v (element ms k i) s = record s { regs = set s.regs i v }
store_by i64 v (member ms k) s = record s { icount = v }
store_by t v (member ms k) s = record s { pc = v }

abbrev select : ℕ → ℕ → ℕ → ℕ
select c x y = if c == 0 then y else x

abbrev pub llvm : {M : Type 0} → Llvm M
llvm = record {
  create_add = add_by;
  create_sub = minus;
  create_and = bit_and;
  create_or = bit_or;
  create_xor = bit_xor;
  create_shl = λ x y. to_word (x * 2 ^ y);
  create_lshr = λ x y. x / 2 ^ y;
  create_ashr = sar;
  create_icmp_eq = λ x y. bool_word (x == y);
  create_icmp_ne = λ x y. bool_word (not (x == y));
  create_icmp_slt = λ x y. bool_word (signed_less x y);
  create_icmp_sge = λ x y. bool_word (not (signed_less x y));
  create_icmp_ult = λ x y. bool_word (ltb x y);
  create_icmp_uge = λ x y. bool_word (leb y x);
  create_select = select;
  create_zext = λ t x. x;
  create_sext = sext_by;
  create_load = load_by;
  create_store = store_by;
}

pub llvm-IsLlvm : {M : Type 0} → IsLlvm (llvm {M = M})
llvm-IsLlvm = record {
  add_law = λ x y. refl;
  add64_law = λ x y. refl;
  sub_law = λ x y. refl;
  and_law = λ x y. refl;
  or_law = λ x y. refl;
  xor_law = λ x y. refl;
  shl_law = λ x y h. refl;
  lshr_law = λ x y h. refl;
  ashr_law = λ x y h. refl;
  eq_law = λ x y. refl;
  ne_law = λ x y. refl;
  slt_law = λ x y. refl;
  sge_law = λ x y. refl;
  ult_law = λ x y. refl;
  uge_law = λ x y. refl;
  select_law = elim [ true ↦ λ x y. refl | false ↦ λ x y. refl ];
  zext_law = λ t x. refl;
  sext8_law = λ x. refl;
  sext16_law = λ x. refl;
  load_reg_law = λ i s. refl;
  load8_law = λ i s. refl;
  load16_law = λ i s. refl;
  load_pc_law = λ s. refl;
  load_icount_law = λ s. refl;
  store_reg_law = λ i v s. refl;
  store_pc_law = λ v s. refl;
  store_icount_law = λ v s. refl;
}

abbrev sext_width : Width → ℕ → ℕ
sext_width byte x = sign_extend 32 32 8 x
sext_width half x = sign_extend 32 32 16 x
sext_width word x = x

abbrev load_field : {M : Type 0} → Field → CpuState M → ℕ
load_field (reg i) s = get_or s.regs i 0
load_field Access.pc s = s.pc
load_field Access.icount s = s.icount

abbrev store_field : {M : Type 0} → Field → ℕ → CpuState M → CpuState M
store_field (reg i) v s = record s { regs = set s.regs i v }
store_field Access.pc v s = record s { pc = v }
store_field Access.icount v s = record s { icount = v }

abbrev pub ir : {M : Type 0} → Ir M
ir = record {
  add_u32 = plus;
  sub_u32 = minus;
  and_u32 = bit_and;
  or_u32 = bit_or;
  xor_u32 = bit_xor;
  shl_u32 = λ x y. to_word (x * 2 ^ y);
  shr_u32 = λ x y. x / 2 ^ y;
  sar_u32 = sar;
  lt = λ x y. bool_word (signed_less x y);
  ult = λ x y. bool_word (ltb x y);
  eq = λ x y. bool_word (x == y);
  ne = λ x y. bool_word (not (x == y));
  ge = λ x y. bool_word (not (signed_less x y));
  uge = λ x y. bool_word (leb y x);
  add_u64 = λ x y. (x + y) % 2 ^ 64;
  zext_u32 = λ x. x;
  sext_u32 = sext_width;
  trunc = λ width x. x % width_mod width;
  cond_u32 = select;
  load_u32 = load_field;
  load_u64 = load_field;
  store_u32 = store_field;
  store_u64 = store_field;
}

pub ir-IsIr : {M : Type 0} → IsIr (ir {M = M})
ir-IsIr = record {
  add_law = λ x y. refl;
  sub_law = λ x y. refl;
  and_law = λ x y. refl;
  or_law = λ x y. refl;
  xor_law = λ x y. refl;
  shl_law = λ x y h. refl;
  shr_law = λ x y h. refl;
  sar_law = λ x y h. refl;
  lt_law = λ x y. refl;
  ult_law = λ x y. refl;
  eq_law = λ x y. refl;
  ne_law = λ x y. refl;
  ge_law = λ x y. refl;
  uge_law = λ x y. refl;
  add64_law = λ x y. refl;
  zext_law = λ x. refl;
  sext8_law = λ x. refl;
  sext16_law = λ x. refl;
  sext32_law = λ x. refl;
  trunc_law = λ width x. refl;
  cond_law = elim [ true ↦ λ x y. refl | false ↦ λ x y. refl ];
  load_reg_law = λ i s. refl;
  load_pc_law = λ s. refl;
  load_icount_law = λ s. refl;
  store_reg_law = λ i v s. refl;
  store_pc_law = λ v s. refl;
  store_icount_law = λ v s. refl;
}
