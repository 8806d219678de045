-- ===== src/Isa/Decode/Bounds/Fence.antt =====
-- The immediate of a fence.
use jit_research.Base.{ℕ, ◌^◌, ◌<◌, arith}
use jit_research.Base.Bits.{bit_or-lt}
use jit_research.Isa.Decode.{fence_imm}
use jit_research.Isa.Decode.Fields.{piece_low}

-- It has four bits only.
pub fence_imm-lt : (w : ℕ) → fence_imm w < 2 ^ 4
unfolding fence_imm
fence_imm-lt w =
    let a = piece_low 31 28 0 w (omega arith) in
    let b = piece_low 27 24 0 w (omega arith) in
    let c = piece_low 23 20 0 w (omega arith) in
    bit_or-lt 4 _ _ (bit_or-lt 4 _ _ (bit_or-lt 4 0 _ (omega arith) (omega arith)) (omega arith))
      (omega arith)
