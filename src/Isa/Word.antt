-- ===== src/Isa/Word.antt =====
-- Words and bit slices of src/isa/include/prot/isa.hh. A `T` of `w` bits is a number below
-- `2 ^ w`; each operation of the source that can leave that range is wrapped where it is written.
pub mod Slices
pub mod Amounts
pub mod Longs
pub mod Signs
pub mod Fill
use jit_research.Base.{
  ℕ, ◌+◌, ◌-◌, ◌*◌, ◌/◌, ◌%◌, ◌^◌, Bool, bit_and, bit_xor, ltb, ◌==◌, if◌then◌else◌,
}
use jit_research.Base.Int.{ℤ, pos, negsuc, ltb_ℤ, shr_ℤ}

-- The modulus of an `isa::Word`, and of an `isa::Addr`, which is the same type.
abbrev pub word_mod : ℕ
word_mod = 2 ^ 32

-- `kWordSize`
abbrev pub word_size : ℕ
word_size = 4

abbrev pub to_word : ℕ → ℕ
to_word n = n % word_mod

-- `std::plus<>` and `std::minus<>` on words
abbrev pub plus : ℕ → ℕ → ℕ
plus a b = to_word (a + b)

abbrev pub minus : ℕ → ℕ → ℕ
minus a b = to_word (a + word_mod - b)

-- `ones<T>(Num)`, for `Num` at most the bits of `T`; more is refused at compile time.
unfoldable pub ones : ℕ → ℕ → ℕ
ones w num = if num == w then 2 ^ w - 1 else 2 ^ num - 1

-- `getMask<T>(Msb, Lsb)`, for `Lsb <= Msb`; the shift drops what leaves the word.
unfoldable pub get_mask : ℕ → ℕ → ℕ → ℕ
get_mask w msb lsb = ones w (msb - lsb + 1) * 2 ^ lsb % 2 ^ w

-- `slice<Msb, Lsb>(word)`
unfoldable pub slice : ℕ → ℕ → ℕ → ℕ → ℕ
slice w msb lsb value = bit_and value (get_mask w msb lsb) / 2 ^ lsb

-- `static_cast<int32_t>(x)`: two's complement.
abbrev pub signed : ℕ → ℤ
signed x = if ltb x (2 ^ 31) then pos x else negsuc (word_mod - 1 - x)

-- The conversion back, modulo `2 ^ 32`.
abbrev pub unsigned : ℤ → ℕ
unsigned (pos n) = to_word n
unsigned (negsuc n) = word_mod - 1 - to_word n

-- `signedLess(lhs, rhs)`
unfoldable pub signed_less : ℕ → ℕ → Bool
signed_less lhs rhs = ltb_ℤ (signed lhs) (signed rhs)

-- `static_cast<int32_t>(x) >> k`, taken as a word again
unfoldable pub sar : ℕ → ℕ → ℕ
sar x k = unsigned (shr_ℤ (signed x) k)

-- `signExtend<NewSize, OldSize>(val)` on a `T` of `w` bits
unfoldable pub sign_extend : ℕ → ℕ → ℕ → ℕ → ℕ
sign_extend w new_size old_size val =
    let zeroed = slice w (old_size - 1) 0 val in
    let mask = 2 ^ (old_size - 1) % 2 ^ w in
    let res = (bit_xor zeroed mask + 2 ^ w - mask) % 2 ^ w in
    if new_size == old_size then val else slice w (new_size - 1) 0 res
