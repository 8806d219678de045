-- ===== src/Isa/Word/Longs.antt =====
-- Words in 64-bit registers: how they are extended and compared there, and cut down again.
use jit_research.Base.{
  ℕ, ◌+◌, ◌-◌, ◌*◌, ◌/◌, ◌%◌, ◌^◌, ◌<◌, ◌≡◌, ap, ap₂, ◌∙◌, arith, ltb, leb, ◌==◌, if◌then◌else◌,
  bit_and,
}
use jit_research.Base.Bits.{bit_and-shifted_ones}
use jit_research.Base.Int.{ℤ, pos, negsuc, ltb_ℤ, shr_ℤ}
use jit_research.Isa.Word.{
  word_mod, to_word, signed, unsigned, signed_less, sar, sign_extend, slice,
}
use jit_research.Isa.Word.Slices.{slice_lem}
use jit_research.Isa.Word.Signs.{flip_top}

abbrev pub long_mod : ℕ
long_mod = 2 ^ 64

-- A 64-bit register as an integer, and back.
abbrev pub signed_long : ℕ → ℤ
signed_long x = if ltb x (2 ^ 63) then pos x else negsuc (long_mod - 1 - x)

abbrev pub unsigned_long : ℤ → ℕ
unsigned_long (pos n) = n % long_mod
unsigned_long (negsuc n) = long_mod - 1 - n % long_mod

-- The sign extension of a word to 64 bits.
abbrev pub extended : ℕ → ℕ
extended x = if ltb x (2 ^ 31) then x else x + long_mod - word_mod

pub extended-signed : (x : ℕ) → x < word_mod → signed_long (extended x) ≡ signed x
extended-signed x h = ground arith

pub word-signed : (x : ℕ) → x < word_mod → signed_long x ≡ pos x
word-signed x h = ground arith

pub extended-eq : (x y : ℕ) → x < word_mod → y < word_mod → (extended x == extended y) ≡ (x == y)
extended-eq x y p q = ground arith

pub extended-ltb : (x y : ℕ) → x < word_mod → y < word_mod → ltb (extended x) (extended y) ≡ ltb x y
extended-ltb x y p q = ground arith

-- A shift of an extended word, cut down, is the shift of the word.
pub extended-sar :
    (x k : ℕ)
    → x < word_mod
    → unsigned_long (shr_ℤ (signed_long (extended x)) k) % word_mod ≡ sar x k
unfolding sar
extended-sar x k h =
    ap (λ z. unsigned_long (shr_ℤ z k) % word_mod) (extended-signed x h) ∙ low (shr_ℤ (signed x) k)
  where
    low : (z : ℤ) → unsigned_long z % word_mod ≡ unsigned z
    low (pos n) = omega arith
    low (negsuc n) = omega arith

-- `signExtend<64, 32>` is that extension.
whole_slice64 : (x : ℕ) → slice 64 63 0 x ≡ x % 2 ^ 64
whole_slice64 x = omega (arith, slice_lem 64 63 0 x (omega arith))

pub sign_extend-extended : (val : ℕ) → val < word_mod → sign_extend 64 64 32 val ≡ extended val
unfolding sign_extend
sign_extend-extended val h =
    rw (slice_lem 64 31 0 val (omega arith), whole_slice64)
      (ground (arith, flip_top 31 (val / 2 ^ 31) (val % 2 ^ 31)))

pub even_mask_long : (x : ℕ) → bit_and x 0xfffffffe % word_mod ≡ to_word (x % word_mod / 2 * 2)
even_mask_long x = rw (bit_and-shifted_ones 31 1 x) (omega arith)

pub extended-leb : (x y : ℕ) → x < word_mod → y < word_mod → leb (extended x) (extended y) ≡ leb x y
extended-leb x y p q = ground arith

pub extended-less :
    (x y : ℕ)
    → x < word_mod
    → y < word_mod
    → ltb_ℤ (signed_long (extended x)) (signed_long (extended y)) ≡ signed_less x y
unfolding signed_less
extended-less x y p q = ap₂ ltb_ℤ (extended-signed x p) (extended-signed y q)
