-- ===== src/Tests/X86Model.antt =====
-- A model of the x86 instructions that satisfies what is assumed of them.
use jit_research.Base.{
  ℕ, ◌+◌, ◌-◌, ◌*◌, ◌/◌, ◌%◌, ◌^◌, ◌<◌, ◌≡◌, refl, sym, ap, ◌∙◌, arith, Bool, true, false, bit_and,
  bit_or, bit_xor, set, ltb, ◌==◌, if◌then◌else◌,
}
use jit_research.Isa.Word.{plus, minus, to_word, sar, sign_extend}
use jit_research.Isa.Word.Signs.{sign_extend_byte, sign_extend_half}
use jit_research.CpuState.{CpuState}
use jit_research.Interpreter.Handlers.{bool_word}
use jit_research.Tests.Places.{load_low}
use jit_research.Translators.Access
use jit_research.Translators.Access.{Field, reg}
use jit_research.Translators.X86
use jit_research.Translators.X86.{X86, IsX86, Cond, holds}

-- The flags as a number, a bit for each condition.
abbrev flag_sum : Bool → ℕ → ℕ
flag_sum c rest = bool_word c + 2 * rest

abbrev compare : ℕ → ℕ → ℕ
compare x y = flag_sum (holds X86.e x y) (
    flag_sum (holds X86.ne x y) (
      flag_sum (holds X86.l x y) (
        flag_sum (holds X86.ge x y) (
          flag_sum (holds X86.b x y) (
            flag_sum (holds X86.ae x y)
              (flag_sum (holds X86.g x y) (flag_sum (holds X86.a x y) 0)))))))

abbrev position : Cond → ℕ
position X86.e = 0
position X86.ne = 1
position X86.l = 2
position X86.ge = 3
position X86.b = 4
position X86.ae = 5
position X86.g = 6
position X86.a = 7

abbrev test : Cond → ℕ → Bool
test c flags = flags / 2 ^ position c % 2 == 1

bit_lt : (c : Bool) → bool_word c < 2
bit_lt true = omega arith
bit_lt false = omega arith

is_one : (c : Bool) → (bool_word c == 1) ≡ c
is_one true = refl
is_one false = refl

tested :
    (k : ℕ) (c : Bool) (flags : ℕ) → flags / 2 ^ k % 2 ≡ bool_word c → (flags / 2 ^ k % 2 == 1) ≡ c
tested k c flags e = ap (λ v. v == 1) e ∙ is_one c

test-compare : (c : Cond) (x y : ℕ) → test c (compare x y) ≡ holds c x y
test-compare c x y = at c
  where
    bits : (d : Cond) → bool_word (holds d x y) < 2
    bits d = bit_lt (holds d x y)

    at : (d : Cond) → test d (compare x y) ≡ holds d x y
    at X86.e = tested 0 _ (compare x y) (omega (arith, bits X86.e))
    at X86.ne = tested 1 _ (compare x y) (omega (arith, bits X86.e, bits X86.ne))
    at X86.l = tested 2 _ (compare x y) (omega (arith, bits X86.e, bits X86.ne, bits X86.l))
    at X86.ge =
        tested 3 _ (compare x y) (omega (arith, bits X86.e, bits X86.ne, bits X86.l, bits X86.ge))
    at X86.b =
        tested 4 _ (compare x y)
          (omega (arith, bits X86.e, bits X86.ne, bits X86.l, bits X86.ge, bits X86.b))
    at X86.ae =
        tested 5 _ (compare x y)
          (omega (arith, bits X86.e, bits X86.ne, bits X86.l, bits X86.ge, bits X86.b, bits X86.ae))
    at X86.g = tested 6 _ (compare x y) (
        omega (
          arith,
          bits X86.e,
          bits X86.ne,
          bits X86.l,
          bits X86.ge,
          bits X86.b,
          bits X86.ae,
          bits X86.g,
        ))
    at X86.a = tested 7 _ (compare x y) (
        omega (
          arith,
          bits X86.e,
          bits X86.ne,
          bits X86.l,
          bits X86.ge,
          bits X86.b,
          bits X86.ae,
          bits X86.g,
          bits X86.a,
        ))

abbrev store_word : {M : Type 0} → Field → ℕ → CpuState M → CpuState M
store_word (reg i) v s = record s { regs = set s.regs i v }
store_word Access.pc v s = record s { pc = v }
store_word Access.icount v s = s

abbrev add_to_field : {M : Type 0} → Field → ℕ → CpuState M → CpuState M
add_to_field (reg i) v s = s
add_to_field Access.pc v s = record s { pc = plus s.pc v }
add_to_field Access.icount v s = record s {
  icount = s.icount / 2 ^ 32 * 2 ^ 32 + (s.icount + v) % 2 ^ 32;
}

abbrev pub x86 : {M : Type 0} → X86 M
x86 = record {
  add = plus;
  and = bit_and;
  or = bit_or;
  xor = bit_xor;
  sub = minus;
  shl = λ x y. to_word (x * 2 ^ bit_and y 31);
  shr = λ x y. x / 2 ^ bit_and y 31;
  sar_by = λ x y. sar x (bit_and y 31);
  cmp = compare;
  cmov = λ c flags old new. if test c flags then new else old;
  setcc = λ c flags old. old / 2 ^ 8 * 2 ^ 8 + bool_word (test c flags);
  movzx8 = λ x. x % 2 ^ 8;
  movsx8 = λ x. sign_extend 32 32 8 x;
  movsx16 = λ x. sign_extend 32 32 16 x;
  cbw = λ x. if ltb x (2 ^ 7) then x else x + 2 ^ 16 - 2 ^ 8;
  cwde = λ x. if ltb x (2 ^ 15) then x else x + 2 ^ 32 - 2 ^ 16;
  returned = λ width x. x;
  load = load_low;
  store = store_word;
  add_to = add_to_field;
  inc64 = λ f s. record s { icount = (s.icount + 1) % 2 ^ 64 };
}

pub x86-IsX86 : {M : Type 0} → IsX86 (x86 {M = M})
x86-IsX86 = record {
  add_law = λ x y. refl;
  and_law = λ x y. refl;
  or_law = λ x y. refl;
  xor_law = λ x y. refl;
  sub_law = λ x y. refl;
  shl_law = λ x y. refl;
  shr_law = λ x y. refl;
  sar_law = λ x y. refl;
  cmov_law = λ c x y old new. ap (λ t. if t then new else old) (test-compare c x y);
  setcc_law = λ c x y old. ap (λ t. old / 2 ^ 8 * 2 ^ 8 + bool_word t) (test-compare c x y);
  movzx8_law = λ x. refl;
  movsx8_law = λ x h. refl;
  movsx16_law = λ x h. refl;
  cbw_cwde_law = λ x h. byte_twice x h ∙ sym (sign_extend_byte x h);
  cwde_law = λ x h. sym (sign_extend_half x h);
  returned_law = λ width x. refl;
  load_reg_law = λ i s. refl;
  load_pc_law = λ s. refl;
  store_reg_law = λ i v s. refl;
  store_pc_law = λ v s. refl;
  add_to_pc_law = λ v s. refl;
  add_to_icount_law = λ v s. refl;
  inc64_law = λ s. refl;
}
  where
    byte_twice :
        (x : ℕ)
        → x < 2 ^ 8
        → (let y : ℕ = if ltb x (2 ^ 7) then x else x + 2 ^ 16 - 2 ^ 8 in
            if ltb y (2 ^ 15) then y else y + 2 ^ 32 - 2 ^ 16)
          ≡ (if ltb x (2 ^ 7) then x else x + 2 ^ 32 - 2 ^ 8)
    byte_twice x h = ground arith
