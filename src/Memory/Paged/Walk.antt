-- ===== src/Memory/Paged/Walk.antt =====
-- The walk over the pages of a range.
use jit_research.Base.{
  ℕ, zero, suc, ◌+◌, ◌-◌, ◌≤◌, ◌<◌, ◌≡◌, refl, min, arith, one-le-pow, mod-lt, ap₂, fun_ext,
  Bool-cases, inl, inr, Outcome, ◌>>=◌, ◌==◌, if◌then◌else◌,
}
use jit_research.Base.Bits.{bit_and-ones}
use jit_research.Memory.Paged.{
  LocInfo, page_size, offset_bits, get_offset, get_page, walk_pages, page_walk,
}

-- A location that stays inside its page.
abbrev pub InPage : ℕ → LocInfo → Type 0
InPage page_bits info = info.offset + info.size ≤ page_size page_bits

get_offset-lt : (page_bits addr : ℕ) → get_offset page_bits addr < page_size page_bits
unfolding get_offset
get_offset-lt page_bits addr =
    rw (bit_and-ones (offset_bits page_bits) addr)
      (mod-lt addr (one-le-pow (offset_bits page_bits) 2 (omega arith)))

-- The location of a page in a walk stays inside it.
location-InPage :
    (page_bits addr page left : ℕ)
    → (if page == get_page page_bits addr then get_offset page_bits addr else 0)
        + min
            (page_size page_bits
              - (if page == get_page page_bits addr then get_offset page_bits addr else 0))
            left
      ≤ page_size page_bits
location-InPage page_bits addr page left =
    let lt = get_offset-lt page_bits addr in
    elim (Bool-cases (page == get_page page_bits addr)) [
      | inl e ↦ rw e (omega arith)
      | inr e ↦ rw e (omega arith)
    ]

module _ {S : Type 0} (op other : LocInfo → S → Outcome S) (page_bits addr : ℕ)
    (agree : (info : LocInfo) (s : S) → InPage page_bits info → op info s ≡ other info s) where
  walk_pages-agree :
      (pages page left : ℕ) (s : S)
      → walk_pages op page_bits addr pages page left s
        ≡ walk_pages other page_bits addr pages page left s
  unfolding walk_pages
  walk_pages-agree zero page left s = refl
  walk_pages-agree (suc pages) page left s =
      ap₂ ◌>>=◌ (agree _ s (location-InPage page_bits addr page left))
        (fun_ext λ s'. walk_pages-agree pages (page + 1) _ s')

  -- Whatever the range, a walk hands its operation only locations that stay inside their page: two
  -- operations that agree on those walk alike.
  pub page_walk-agree :
      (size : ℕ) (s : S)
      → page_walk op page_bits addr size s ≡ page_walk other page_bits addr size s
  unfolding page_walk
  page_walk-agree size s = rw (walk_pages-agree _ _ size s)
