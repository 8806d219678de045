-- ===== src/Isa/Decode/Assemble.antt =====
-- Assembling an instruction by the manual and decoding the word gives the instruction back.
use jit_research.Base.{ℕ, ◌+◌, ◌*◌, ◌/◌, ◌%◌, ◌^◌, ◌<◌, ◌≡◌, ap, ◌∙◌, arith, bit_and, none, some}
use jit_research.Isa.Decode.{
  Instruction, switch, decode, r_type, i_type, shift_type, s_type, b_type, u_type, j_type,
  funct3_cases, funct7_cases, opcode_cases,
}
use jit_research.Isa.Decode.Keys.{funct3_key, funct7_key, opcode_key, Misses, switch-Misses}
use jit_research.Isa.Decode.Format.{Format, encode, Fits}
use jit_research.Isa.Decode.Readback.{
  fields-Parts, i_type-encode, r_type-encode, shift_type-encode, s_type-encode, b_type-encode,
  u_type-encode, j_type-encode,
}

-- Which cases a word reaches, by its keys.
pub decode_by_funct3 :
    (value key : ℕ) (n : Instruction)
    → value / 2 ^ 12 % 2 ^ 3 * 2 ^ 12 + value % 2 ^ 7 ≡ key
    → switch key value funct3_cases ≡ some n
    → decode value ≡ some n
unfolding decode
decode_by_funct3 value key n k hit = rw (funct3_key value, k, hit)

decode_by_funct7 :
    (value key : ℕ) (n : Instruction)
    → value / 2 ^ 25 % 2 ^ 7 * 2 ^ 25 + (value / 2 ^ 12 % 2 ^ 3 * 2 ^ 12 + value % 2 ^ 7) ≡ key
    → switch (key % 2 ^ 25) value funct3_cases ≡ none
    → switch key value funct7_cases ≡ some n
    → decode value ≡ some n
unfolding decode
decode_by_funct7 value key n k miss hit =
    let lower : value / 2 ^ 12 % 2 ^ 3 * 2 ^ 12 + value % 2 ^ 7 ≡ key % 2 ^ 25 = omega arith in
    let upper : bit_and value 0xfe00707f ≡ key = omega (arith, funct7_key value) in
    rw (funct3_key value, lower, miss, upper, hit)

decode_by_opcode :
    (value key : ℕ) (n : Instruction)
    → value % 2 ^ 7 ≡ key
    → Misses key funct3_cases
    → Misses key funct7_cases
    → switch key value opcode_cases ≡ some n
    → decode value ≡ some n
unfolding decode
decode_by_opcode value key n k miss3 miss7 hit =
    let at3 : bit_and value 0x707f % 2 ^ 7 ≡ key = omega (arith, funct3_key value) in
    let at7 : bit_and value 0xfe00707f % 2 ^ 7 ≡ key = omega (arith, funct7_key value) in
    rw (
      switch-Misses (bit_and value 0x707f) value funct3_cases (rw at3 miss3),
      switch-Misses (bit_and value 0xfe00707f) value funct7_cases (rw at7 miss7),
      opcode_key value,
      k,
      hit,
    )

module _ (n : Instruction) where
  open n use {rs1, rs2, rd, imm}

  -- The formats that the first `switch` handles, on `funct3` and the opcode field.
  module _ (f3 opc : ℕ) (h3 : f3 < 8) (ho : opc < 128) where
    pub decode-i :
        ((w : ℕ) → switch (f3 * 2 ^ 12 + opc) w funct3_cases ≡ some (i_type n.opcode w))
        → Fits (Format.i f3 opc) n
        → decode (encode (Format.i f3 opc) n) ≡ some n
    decode-i hit fit =
        let p =
          fields-Parts (imm / 2 ^ 5 % 2 ^ 7) (imm % 2 ^ 5) rs1 f3 rd opc (omega arith) (omega arith)
            fit.0 h3 fit.2 ho in
        unfold encode in
        decode_by_funct3 _ _ n p.key3 (hit _ ∙ ap some (i_type-encode n f3 opc h3 ho fit))

    pub decode-s :
        ((w : ℕ) → switch (f3 * 2 ^ 12 + opc) w funct3_cases ≡ some (s_type n.opcode w))
        → Fits (Format.s f3 opc) n
        → decode (encode (Format.s f3 opc) n) ≡ some n
    decode-s hit fit =
        let p =
          fields-Parts (imm / 2 ^ 5 % 2 ^ 7) rs2 rs1 f3 (imm % 2 ^ 5) opc (omega arith) fit.1 fit.0
            h3 (omega arith) ho in
        unfold encode in
        decode_by_funct3 _ _ n p.key3 (hit _ ∙ ap some (s_type-encode n f3 opc h3 ho fit))

    pub decode-b :
        ((w : ℕ) → switch (f3 * 2 ^ 12 + opc) w funct3_cases ≡ some (b_type n.opcode w))
        → Fits (Format.b f3 opc) n
        → decode (encode (Format.b f3 opc) n) ≡ some n
    decode-b hit fit =
        let p =
          fields-Parts (imm / 2 ^ 12 % 2 * 2 ^ 6 + imm / 2 ^ 5 % 2 ^ 6) rs2 rs1 f3
            (imm / 2 % 2 ^ 4 * 2 + imm / 2 ^ 11 % 2) opc (omega arith) fit.1 fit.0 h3 (omega arith)
            ho in
        unfold encode in
        decode_by_funct3 _ _ n p.key3 (hit _ ∙ ap some (b_type-encode n f3 opc h3 ho fit))

    pub decode-shift :
        ((w : ℕ) → switch (f3 * 2 ^ 12 + opc) w funct3_cases ≡ some (shift_type n.opcode w))
        → Fits (Format.shift 0 f3 opc) n
        → decode (encode (Format.shift 0 f3 opc) n) ≡ some n
    decode-shift hit fit =
        let p = fields-Parts 0 imm rs1 f3 rd opc (omega arith) fit.3 fit.0 h3 fit.2 ho in
        unfold encode in
        decode_by_funct3 _ _ n p.key3
          (hit _ ∙ ap some (shift_type-encode n 0 f3 opc (omega arith) h3 ho fit))

  -- The formats that the second handles, on `funct7` too.
  module _ (f7 f3 opc : ℕ) (h7 : f7 < 128) (h3 : f3 < 8) (ho : opc < 128)
      (miss : (w : ℕ)
        → switch ((f7 * 2 ^ 25 + (f3 * 2 ^ 12 + opc)) % 2 ^ 25) w funct3_cases ≡ none) where
    pub decode-r :
        ((w : ℕ)
          → switch (f7 * 2 ^ 25 + (f3 * 2 ^ 12 + opc)) w funct7_cases ≡ some (r_type n.opcode w))
        → Fits (Format.r f7 f3 opc) n
        → decode (encode (Format.r f7 f3 opc) n) ≡ some n
    decode-r hit fit =
        let p = fields-Parts f7 rs2 rs1 f3 rd opc h7 fit.1 fit.0 h3 fit.2 ho in
        unfold encode in
        decode_by_funct7 _ _ n p.key7 (miss _)
          (hit _ ∙ ap some (r_type-encode n f7 f3 opc h7 h3 ho fit))

    pub decode-shift7 :
        ((w : ℕ)
          → switch (f7 * 2 ^ 25 + (f3 * 2 ^ 12 + opc)) w funct7_cases
            ≡ some (shift_type n.opcode w))
        → Fits (Format.shift f7 f3 opc) n
        → decode (encode (Format.shift f7 f3 opc) n) ≡ some n
    decode-shift7 hit fit =
        let p = fields-Parts f7 imm rs1 f3 rd opc h7 fit.3 fit.0 h3 fit.2 ho in
        unfold encode in
        decode_by_funct7 _ _ n p.key7 (miss _)
          (hit _ ∙ ap some (shift_type-encode n f7 f3 opc h7 h3 ho fit))

  -- The formats that the third handles, on the opcode field alone.
  module _ (opc : ℕ) (ho : opc < 128) (miss3 : Misses opc funct3_cases)
      (miss7 : Misses opc funct7_cases) where
    pub decode-jalr :
        ((w : ℕ) → switch opc w opcode_cases ≡ some (i_type n.opcode w))
        → Fits (Format.i 0 opc) n
        → decode (encode (Format.i 0 opc) n) ≡ some n
    decode-jalr hit fit =
        let p =
          fields-Parts (imm / 2 ^ 5 % 2 ^ 7) (imm % 2 ^ 5) rs1 0 rd opc (omega arith) (omega arith)
            fit.0 (omega arith) fit.2 ho in
        unfold encode in
        decode_by_opcode _ _ n p.opcode miss3 miss7
          (hit _ ∙ ap some (i_type-encode n 0 opc (omega arith) ho fit))

    pub decode-u :
        ((w : ℕ) → switch opc w opcode_cases ≡ some (u_type n.opcode w))
        → Fits (Format.u opc) n
        → decode (encode (Format.u opc) n) ≡ some n
    decode-u hit fit =
        unfold encode in
        decode_by_opcode _ _ n (omega arith) miss3 miss7
          (hit _ ∙ ap some (u_type-encode n opc ho fit))

    pub decode-j :
        ((w : ℕ) → switch opc w opcode_cases ≡ some (j_type n.opcode w))
        → Fits (Format.j opc) n
        → decode (encode (Format.j opc) n) ≡ some n
    decode-j hit fit =
        unfold encode in
        decode_by_opcode _ _ n (omega arith) miss3 miss7
          (hit _ ∙ ap some (j_type-encode n opc ho fit))
