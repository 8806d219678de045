-- ===== src/Jit/Cache.antt =====
-- `TbCache` of src/jit/base/include/prot/jit/base.hh: a direct-mapped cache of translated blocks.
use jit_research.Base.{
  ℕ, ◌-◌, ◌/◌, ◌^◌, ◌<◌, ◌≡◌, arith, bit_and, Option, none, some, Outcome, ◌==◌, if◌then◌else◌,
}
use jit_research.Base.Bits.{bit_and-ones}
use jit_research.CpuState.{CpuState}

-- `JitFunction`: what calling the pointer does to the CPU state.
abbrev pub Code : Type 0 → Type 0
Code M = CpuState M → Outcome (CpuState M)

-- `kSizeLog2`, `kSize` and `kGpaGranularityLog2`
abbrev pub size_log2 : ℕ
size_log2 = 22

abbrev pub cache_size : ℕ
cache_size = 2 ^ size_log2

abbrev pub granularity_log2 : ℕ
granularity_log2 = 2

-- `Entry`, whose function is a null pointer at first
pub record Entry (M : Type 0) : Type 0 where
  pub func : Option (Code M)
  pub gpa : ℕ

abbrev pub TbCache : Type 0 → Type 0
TbCache M = ℕ → Entry M

-- `getHash(gpa)`
unfoldable pub get_hash : ℕ → ℕ
get_hash gpa = bit_and (gpa / 2 ^ granularity_log2) (cache_size - 1)

module _ {M : Type 0} where
  -- The entries of a new cache.
  unfoldable pub empty : TbCache M
  empty i = record { func = none; gpa = 0 }

  unfoldable pub lookup : ℕ → TbCache M → Option (Code M)
  lookup gpa c = let entry = c (get_hash gpa) in if entry.gpa == gpa then entry.func else none

  unfoldable pub insert : ℕ → Code M → TbCache M → TbCache M
  insert gpa func c i = if get_hash gpa == i then record { func = some func; gpa = gpa } else c i

  -- A new cache holds nothing, not even for address 0, which its entries name.
  pub lookup-empty : (gpa : ℕ) → lookup gpa empty ≡ none
  unfolding lookup empty
  lookup-empty gpa = ground arith

  -- The index stays inside the array, and after an insertion its own address finds the new code,
  -- another address with the same index finds nothing, and all others find what they found.
  pub lookup-insert :
      (g h : ℕ) (func : Code M) (c : TbCache M)
      → (get_hash h < cache_size)
        × (lookup h (insert g func c)
            ≡ (if g == h then some func else if get_hash g == get_hash h then none else lookup h c))
  unfolding lookup insert get_hash
  lookup-insert g h func c = (omega (arith, bit_and-ones 22 (h / 4)), ground arith)
