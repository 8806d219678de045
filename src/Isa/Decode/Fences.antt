-- ===== src/Isa/Decode/Fences.antt =====
-- What the decoder makes of a fence that is encoded as the manual says.
use jit_research.Base.{
  ℕ, ◌+◌, ◌*◌, ◌/◌, ◌%◌, ◌^◌, ◌<◌, ◌≡◌, ap, ap₂, ◌∙◌, refl, arith, bit_or, some,
}
use jit_research.Base.Bits.{zero-bit_or}
use jit_research.Isa.Opcode.{Opcode}
use jit_research.Isa.Decode.{Instruction, switch, decode, fence_type, fence_imm, piece}
use jit_research.Isa.Decode.Fields.{rd_field_lem, rs1_field_lem, piece_low}
use jit_research.Isa.Decode.Assemble.{decode_by_funct3}

-- The word of a fence: `fm`, `pred` and `succ` are the immediate, four bits each.
abbrev pub encode_fence : ℕ → ℕ → ℕ → ℕ → ℕ → ℕ
encode_fence fm pred succ rs1 rd =
    fm * 2 ^ 28 + pred * 2 ^ 24 + succ * 2 ^ 20 + rs1 * 2 ^ 15 + rd * 2 ^ 7 + 0xf

-- What the decoder makes of it.
abbrev pub joined_fence : ℕ → ℕ → ℕ → ℕ → ℕ → Instruction
joined_fence fm pred succ rs1 rd = record {
  opcode = Opcode.fence;
  rs1 = rs1;
  rs2 = 0;
  rd = rd;
  imm = bit_or (bit_or fm pred) succ;
}

module _ (fm pred succ rs1 rd : ℕ) (hf : fm < 16) (hp : pred < 16) (hs : succ < 16) (h1 : rs1 < 32)
    (hd : rd < 32) where
  imm-encode_fence : fence_imm (encode_fence fm pred succ rs1 rd) ≡ bit_or (bit_or fm pred) succ
  unfolding fence_imm
  imm-encode_fence =
      let w = encode_fence fm pred succ rs1 rd in
      let mode : piece 31 28 0 0 w ≡ fm = omega (arith, piece_low 31 28 0 w (omega arith)) in
      let before : piece 27 24 0 0 w ≡ pred = omega (arith, piece_low 27 24 0 w (omega arith)) in
      let after : piece 23 20 0 0 w ≡ succ = omega (arith, piece_low 23 20 0 w (omega arith)) in
      ap₂ bit_or (ap₂ bit_or (ap (bit_or 0) mode ∙ zero-bit_or fm) before) after

  fence_type-encode_fence :
      fence_type Opcode.fence (encode_fence fm pred succ rs1 rd) ≡ joined_fence fm pred succ rs1 rd
  unfolding fence_type
  fence_type-encode_fence =
      let w = encode_fence fm pred succ rs1 rd in
      let first : w / 2 ^ 15 % 32 ≡ rs1 = omega arith in
      let target : w / 2 ^ 7 % 32 ≡ rd = omega arith in
      rw (imm-encode_fence, rs1_field_lem w, rd_field_lem w, first, target) refl

  -- With fields and registers in range, a FENCE that is encoded as the manual says decodes to a FENCE with
  -- its registers, whose immediate is the bitwise or of `fm`, `pred` and `succ` all in the same bits.
  pub decode-encode_fence :
      decode (encode_fence fm pred succ rs1 rd) ≡ some (joined_fence fm pred succ rs1 rd)
  unfolding switch
  decode-encode_fence =
      decode_by_funct3 (encode_fence fm pred succ rs1 rd) 0xf (joined_fence fm pred succ rs1 rd)
        (omega arith) (ap some fence_type-encode_fence)
