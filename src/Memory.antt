-- ===== src/Memory.antt =====
-- `struct Memory` of src/memory/include/prot/memory.hh: the virtual methods as a record of
-- functions over the state `M` of an implementation, and what the base class builds on them.
pub mod Bytes
pub mod Plain
pub mod Inherited
pub mod Paged
use jit_research.Base.{
  Ensures, ◌<◌, ℕ, zero, suc, ◌+◌, ◌*◌, ◌%◌, ◌^◌, List, [], ◌∷◌, Outcome, ok, ◌>>=◌,
}

-- The types at which the program instantiates `read<T>` and `write<T>`.
pub data Width : Type 0 where
  byte half word : Width

-- `sizeof(T)`
abbrev pub size_of : Width → ℕ
size_of byte = 1
size_of half = 2
size_of word = 4

-- `sizeofBits<T>()`, by `toBits`
abbrev pub size_of_bits : Width → ℕ
size_of_bits width = 8 * size_of width

-- The modulus of `T`
abbrev pub width_mod : Width → ℕ
width_mod byte = 2 ^ 8
width_mod half = 2 ^ 16
width_mod word = 2 ^ 32

-- The virtual methods. An address is a word.
pub record MemoryOps (M : Type 0) : Type 0 where
  pub write_block : List ℕ → ℕ → M → Outcome M
  pub read_block : ℕ → ℕ → M → Outcome (List ℕ)
  pub read8 : ℕ → M → Outcome ℕ
  pub read16 : ℕ → M → Outcome ℕ
  pub read32 : ℕ → M → Outcome ℕ
  pub write8 : ℕ → ℕ → M → Outcome M
  pub write16 : ℕ → ℕ → M → Outcome M
  pub write32 : ℕ → ℕ → M → Outcome M

module _ {M : Type 0} (mem : MemoryOps M) where
  -- `read<T>(addr)`
  unfoldable pub read : Width → ℕ → M → Outcome ℕ
  read byte addr m = mem.read8 addr m
  read half addr m = mem.read16 addr m
  read word addr m = mem.read32 addr m

  -- `write<T>(addr, val)`
  unfoldable pub write : Width → ℕ → ℕ → M → Outcome M
  write byte addr val m = mem.write8 addr val m
  write half addr val m = mem.write16 addr val m
  write word addr val m = mem.write32 addr val m

  -- `fillBlock(addr, value, count)`: the rounds left, and the index of the next byte.
  unfoldable pub fill_from : ℕ → ℕ → ℕ → ℕ → M → Outcome M
  fill_from zero i addr value m = ok m
  fill_from (suc left) i addr value m = do
    m' ← mem.write_block (value ∷ []) ((addr + i) % 2 ^ 32) m
    fill_from left (i + 1) addr value m'

  unfoldable pub fill_block : ℕ → ℕ → ℕ → M → Outcome M
  fill_block addr value count m = fill_from count 0 addr value m

-- What the interpreter relies on in a memory whose states satisfy `Inv`: a read gives a value of
-- its width, and a write keeps `Inv`.
pub record KeepsWidths {M : Type 0} (mem : MemoryOps M) (Inv : M → Type 0) : Type 0 where
  pub read_lt :
      (width : Width) (addr : ℕ) (m : M)
      → Inv m
      → Ensures (λ v. v < width_mod width) (read mem width addr m)
  pub write_keeps :
      (width : Width) (addr val : ℕ) (m : M)
      → Inv m
      → val < width_mod width
      → Ensures Inv (write mem width addr val m)
