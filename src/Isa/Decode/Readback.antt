-- ===== src/Isa/Decode/Readback.antt =====
-- The formats of src/isa/isa.cc read back what the manual says to assemble.
use jit_research.Base.{ℕ, ◌+◌, ◌-◌, ◌*◌, ◌/◌, ◌%◌, ◌^◌, ◌<◌, ◌≡◌, ◌∙◌, arith}
use jit_research.Isa.Decode.{
  Instruction, r_type, i_type, shift_type, s_type, b_type, u_type, j_type, s_imm, b_imm,
}
use jit_research.Isa.Decode.Fields.{
  rd_field_lem, rs1_field_lem, rs2_field_lem, i_imm_lem, s_imm_lem, b_imm_lem, u_imm_lem, j_imm_lem,
  shift_imm_lem,
}
use jit_research.Isa.Decode.Format.{Format, encode, Fits, IsSigned, fields}

-- The fields of a word, read back one by one.
pub record Parts (value top rs2 rs1 f3 rd opc : ℕ) : Type 0 where
  pub sign : value / 2 ^ 31 % 2 ≡ top / 2 ^ 6
  pub upper : value / 2 ^ 25 % 2 ^ 6 ≡ top % 2 ^ 6
  pub second : value / 2 ^ 20 % 32 ≡ rs2
  pub first : value / 2 ^ 15 % 32 ≡ rs1
  pub target : value / 2 ^ 7 % 32 ≡ rd
  pub opcode : value % 2 ^ 7 ≡ opc
  pub key3 : value / 2 ^ 12 % 2 ^ 3 * 2 ^ 12 + value % 2 ^ 7 ≡ f3 * 2 ^ 12 + opc
  pub key7 :
      value / 2 ^ 25 % 2 ^ 7 * 2 ^ 25 + (value / 2 ^ 12 % 2 ^ 3 * 2 ^ 12 + value % 2 ^ 7)
      ≡ top * 2 ^ 25 + (f3 * 2 ^ 12 + opc)

pub fields-Parts :
    (top rs2 rs1 f3 rd opc : ℕ)
    → top < 128
    → rs2 < 32
    → rs1 < 32
    → f3 < 8
    → rd < 32
    → opc < 128
    → Parts (fields top rs2 rs1 f3 rd opc) top rs2 rs1 f3 rd opc
fields-Parts top rs2 rs1 f3 rd opc ht h2 h1 hf hd ho = record {
  sign = omega arith;
  upper = omega arith;
  second = omega arith;
  first = omega arith;
  target = omega arith;
  opcode = omega arith;
  key3 = omega arith;
  key7 = omega arith;
}

-- A sign-extended immediate, put together again from the bits that the formats store.
s_parts :
    (imm : ℕ)
    → IsSigned 11 imm
    → imm / 2 ^ 5 % 2 ^ 7 / 2 ^ 6 * (2 ^ 32 - 2 ^ 11)
        + imm / 2 ^ 5 % 2 ^ 7 % 2 ^ 6 * 2 ^ 5
        + imm % 2 ^ 5
      ≡ imm
s_parts imm h = omega arith

b_parts :
    (imm : ℕ)
    → imm % 2 ≡ 0
    → IsSigned 12 imm
    → imm / 2 ^ 12 % 2 * (2 ^ 32 - 2 ^ 12)
        + imm / 2 ^ 11 % 2 * 2 ^ 11
        + imm / 2 ^ 5 % 2 ^ 6 * 2 ^ 5
        + imm / 2 % 2 ^ 4 * 2
      ≡ imm
b_parts imm e h = omega arith

module _ (n : Instruction) where
  open n use {rs1, rs2, rd, imm}

  pub i_type-encode :
      (f3 opc : ℕ)
      → f3 < 8
      → opc < 128
      → Fits (Format.i f3 opc) n
      → i_type n.opcode (encode (Format.i f3 opc) n) ≡ n
  unfolding i_type encode
  i_type-encode f3 opc hf ho (h1, h2, hd, hi) =
      let w = encode (Format.i f3 opc) n in
      ground (arith, rd_field_lem w, rs1_field_lem w, i_imm_lem w)

  pub r_type-encode :
      (f7 f3 opc : ℕ)
      → f7 < 128
      → f3 < 8
      → opc < 128
      → Fits (Format.r f7 f3 opc) n
      → r_type n.opcode (encode (Format.r f7 f3 opc) n) ≡ n
  unfolding r_type encode
  r_type-encode f7 f3 opc h0 h1 h2 h =
      let w = encode (Format.r f7 f3 opc) n in
      ground (arith, rd_field_lem w, rs1_field_lem w, rs2_field_lem w)

  pub shift_type-encode :
      (f7 f3 opc : ℕ)
      → f7 < 128
      → f3 < 8
      → opc < 128
      → Fits (Format.shift f7 f3 opc) n
      → shift_type n.opcode (encode (Format.shift f7 f3 opc) n) ≡ n
  unfolding shift_type encode
  shift_type-encode f7 f3 opc h0 h1 h2 h =
      let w = encode (Format.shift f7 f3 opc) n in
      ground (arith, rd_field_lem w, rs1_field_lem w, shift_imm_lem w)

  pub s_type-encode :
      (f3 opc : ℕ)
      → f3 < 8
      → opc < 128
      → Fits (Format.s f3 opc) n
      → s_type n.opcode (encode (Format.s f3 opc) n) ≡ n
  unfolding s_type encode
  s_type-encode f3 opc hf ho (h1, h2, hd, hi) =
      let w = encode (Format.s f3 opc) n in
      let top = imm / 2 ^ 5 % 2 ^ 7 in
      let p =
        fields-Parts top rs2 rs1 f3 (imm % 2 ^ 5) opc (omega arith) h2 h1 hf (omega arith) ho in
      let e : s_imm w ≡ imm = s_imm_lem w ∙ rw (p.sign, p.upper, p.target) (s_parts imm hi) in
      rw (e, rs1_field_lem w, p.first, rs2_field_lem w, p.second, ← hd)

  pub b_type-encode :
      (f3 opc : ℕ)
      → f3 < 8
      → opc < 128
      → Fits (Format.b f3 opc) n
      → b_type n.opcode (encode (Format.b f3 opc) n) ≡ n
  unfolding b_type encode
  b_type-encode f3 opc hf ho (h1, h2, hd, he, hi) =
      let w = encode (Format.b f3 opc) n in
      let top = imm / 2 ^ 12 % 2 * 2 ^ 6 + imm / 2 ^ 5 % 2 ^ 6 in
      let low = imm / 2 % 2 ^ 4 * 2 + imm / 2 ^ 11 % 2 in
      let p = fields-Parts top rs2 rs1 f3 low opc (omega arith) h2 h1 hf (omega arith) ho in
      let sign : w / 2 ^ 31 % 2 ≡ imm / 2 ^ 12 % 2 = omega (arith, p.sign) in
      let upper : w / 2 ^ 25 % 2 ^ 6 ≡ imm / 2 ^ 5 % 2 ^ 6 = omega (arith, p.upper) in
      let lower : w / 2 ^ 8 % 2 ^ 4 ≡ imm / 2 % 2 ^ 4 = omega (arith, p.target) in
      let eleventh : w / 2 ^ 7 % 2 ≡ imm / 2 ^ 11 % 2 = omega (arith, p.target) in
      let e : b_imm w ≡ imm = b_imm_lem w ∙ rw (sign, upper, lower, eleventh) (b_parts imm he hi) in
      rw (e, rs1_field_lem w, p.first, rs2_field_lem w, p.second, ← hd)

  pub u_type-encode :
      (opc : ℕ) → opc < 128 → Fits (Format.u opc) n → u_type n.opcode (encode (Format.u opc) n) ≡ n
  unfolding u_type encode
  u_type-encode opc h0 h =
      let w = encode (Format.u opc) n in ground (arith, rd_field_lem w, u_imm_lem w)

  pub j_type-encode :
      (opc : ℕ) → opc < 128 → Fits (Format.j opc) n → j_type n.opcode (encode (Format.j opc) n) ≡ n
  unfolding j_type encode
  j_type-encode opc h0 h =
      let w = encode (Format.j opc) n in ground (arith, rd_field_lem w, j_imm_lem w)
