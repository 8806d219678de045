-- ===== src/Isa/Decode/Bounds/Formats.antt =====
-- What holds of the instructions that the formats of src/isa/isa.cc give.
use jit_research.Base.{ℕ, ◌^◌, ◌<◌, ◌≡◌, arith, Bool, true, false}
use mathlib.Core.Path.{sym, ◌∙◌}
use mathlib.Core.Bool.{true≢false}
use jit_research.Isa.Opcode.{Opcode}
use jit_research.Isa.Decode.{
  Instruction, r_type, i_type, shift_type, s_type, b_type, u_type, j_type, fence_type, system_type,
}
use jit_research.Isa.Decode.Fields.{
  rd_field_lem, rs1_field_lem, rs2_field_lem, i_imm_lem, s_imm_lem, b_imm_lem, u_imm_lem, j_imm_lem,
  shift_imm_lem,
}
use jit_research.Isa.Decode.Bounds.Fence.{fence_imm-lt}

-- The opcodes that the decoder can give: the others are pseudo-instructions and the end marker.
abbrev pub IsDecodable : Opcode → Type 0
IsDecodable Opcode.pause = ⊥
IsDecodable Opcode.sbreak = ⊥
IsDecodable Opcode.scall = ⊥
IsDecodable Opcode.num_opcodes = ⊥
IsDecodable _ = Unit

-- The opcodes whose immediate is a shift amount.
abbrev pub shifts_by_imm : Opcode → Bool
shifts_by_imm Opcode.slli = true
shifts_by_imm Opcode.srai = true
shifts_by_imm Opcode.srli = true
shifts_by_imm _ = false

-- Operands that index the 32 registers, an immediate that is a word, and a shift amount below 32.
pub record IsWellFormed (n : Instruction) : Type 0 where
  pub rs1_lt : n.rs1 < 32
  pub rs2_lt : n.rs2 < 32
  pub rd_lt : n.rd < 32
  pub imm_lt : n.imm < 2 ^ 32
  pub decodable : IsDecodable n.opcode
  pub amount_lt : shifts_by_imm n.opcode ≡ true → n.imm < 32

module _ (op : Opcode) (w : ℕ) (d : IsDecodable op) where
  pub shift_type-IsWellFormed : IsWellFormed (shift_type op w)
  unfolding shift_type
  shift_type-IsWellFormed = record {
    rs1_lt = omega (arith, rs1_field_lem w);
    rs2_lt = omega arith;
    rd_lt = omega (arith, rd_field_lem w);
    imm_lt = omega (arith, shift_imm_lem w);
    decodable = d;
    amount_lt = λ e. omega (arith, shift_imm_lem w);
  }

module _ (op : Opcode) (w : ℕ) (d : IsDecodable op) (plain : shifts_by_imm op ≡ false) where
  not_shift : {A : Type 0} → shifts_by_imm op ≡ true → A
  not_shift e = absurd (true≢false (sym e ∙ plain))

  pub r_type-IsWellFormed : IsWellFormed (r_type op w)
  unfolding r_type
  r_type-IsWellFormed = record {
    rs1_lt = omega (arith, rs1_field_lem w);
    rs2_lt = omega (arith, rs2_field_lem w);
    rd_lt = omega (arith, rd_field_lem w);
    imm_lt = omega arith;
    decodable = d;
    amount_lt = not_shift;
  }

  pub i_type-IsWellFormed : IsWellFormed (i_type op w)
  unfolding i_type
  i_type-IsWellFormed = record {
    rs1_lt = omega (arith, rs1_field_lem w);
    rs2_lt = omega arith;
    rd_lt = omega (arith, rd_field_lem w);
    imm_lt = omega (arith, i_imm_lem w);
    decodable = d;
    amount_lt = not_shift;
  }

  pub s_type-IsWellFormed : IsWellFormed (s_type op w)
  unfolding s_type
  s_type-IsWellFormed = record {
    rs1_lt = omega (arith, rs1_field_lem w);
    rs2_lt = omega (arith, rs2_field_lem w);
    rd_lt = omega arith;
    imm_lt = omega (arith, s_imm_lem w);
    decodable = d;
    amount_lt = not_shift;
  }

  pub b_type-IsWellFormed : IsWellFormed (b_type op w)
  unfolding b_type
  b_type-IsWellFormed = record {
    rs1_lt = omega (arith, rs1_field_lem w);
    rs2_lt = omega (arith, rs2_field_lem w);
    rd_lt = omega arith;
    imm_lt = omega (arith, b_imm_lem w);
    decodable = d;
    amount_lt = not_shift;
  }

  pub u_type-IsWellFormed : IsWellFormed (u_type op w)
  unfolding u_type
  u_type-IsWellFormed = record {
    rs1_lt = omega arith;
    rs2_lt = omega arith;
    rd_lt = omega (arith, rd_field_lem w);
    imm_lt = omega (arith, u_imm_lem w);
    decodable = d;
    amount_lt = not_shift;
  }

  pub j_type-IsWellFormed : IsWellFormed (j_type op w)
  unfolding j_type
  j_type-IsWellFormed = record {
    rs1_lt = omega arith;
    rs2_lt = omega arith;
    rd_lt = omega (arith, rd_field_lem w);
    imm_lt = omega (arith, j_imm_lem w);
    decodable = d;
    amount_lt = not_shift;
  }

  pub fence_type-IsWellFormed : IsWellFormed (fence_type op w)
  unfolding fence_type
  fence_type-IsWellFormed = record {
    rs1_lt = omega (arith, rs1_field_lem w);
    rs2_lt = omega arith;
    rd_lt = omega (arith, rd_field_lem w);
    imm_lt = omega (arith, fence_imm-lt w);
    decodable = d;
    amount_lt = not_shift;
  }

  pub system_type-IsWellFormed : IsWellFormed (system_type op w)
  unfolding system_type
  system_type-IsWellFormed = record {
    rs1_lt = omega arith;
    rs2_lt = omega arith;
    rd_lt = omega arith;
    imm_lt = omega arith;
    decodable = d;
    amount_lt = not_shift;
  }
