-- ===== src/Memory/Paged.antt =====
-- `PagedMem` of src/memory/simple_page_mem.cc: pages of bytes that exist once they were written.
pub mod Walk
use jit_research.Base.{
  ℕ, zero, suc, ◌+◌, ◌-◌, ◌*◌, ◌/◌, ◌%◌, ◌^◌, min, List, length, take, drop, Bool, true, false,
  ◌&&◌, bit_and, bit_or, Option, none, some, Outcome, ok, fail, Failure, ◌>>=◌, ◌>>◌, ◌==◌, ltb,
  leb, if◌then◌else◌,
}
use jit_research.Isa.Word.{minus, to_word}
use jit_research.Memory.{MemoryOps}
use jit_research.Memory.Bytes.{load, store}
use jit_research.Memory.Inherited.{inherited}

-- `m_pageBits` and `m_storage`: an empty vector is a page that does not exist, and all others hold
-- `pageSize()` bytes.
pub record PagedMem : Type 0 where
  pub page_bits : ℕ
  pub storage : ℕ → Option (ℕ → ℕ)

-- `LocInfo`
pub record LocInfo : Type 0 where
  pub page : ℕ
  pub offset : ℕ
  pub size : ℕ

-- `PagedMemConfig(pageBits)` and `PagedMem(pageBits)`
unfoldable pub make_paged : ℕ → Outcome PagedMem
make_paged page_bits =
    if leb 32 page_bits
    then fail (Failure.too_many_page_bits page_bits)
    else ok (record { page_bits = page_bits; storage = λ page. none })

-- `m_offsetBits`
abbrev pub offset_bits : ℕ → ℕ
offset_bits page_bits = 32 - page_bits

-- `pageMask`, `pageSize` and `numPages`. Shifts by less than 32.
unfoldable pub page_mask : ℕ → ℕ
page_mask page_bits = to_word ((2 ^ page_bits - 1) * 2 ^ offset_bits page_bits)

abbrev pub page_size : ℕ → ℕ
page_size page_bits = 2 ^ offset_bits page_bits

abbrev pub num_pages : ℕ → ℕ
num_pages page_bits = 2 ^ page_bits

unfoldable pub get_offset : ℕ → ℕ → ℕ
get_offset page_bits addr = bit_and addr (page_size page_bits - 1)

unfoldable pub get_page : ℕ → ℕ → ℕ
unfolding page_mask
get_page page_bits addr = bit_and addr (page_mask page_bits) / 2 ^ offset_bits page_bits

abbrev pub assert : Bool → Outcome (Unit {0})
assert b = if b then ok tt else fail Failure.undefined_behaviour

-- `getAddr(page, offset)`, with its assertions, narrowed to an address
unfoldable pub get_addr : ℕ → ℕ → ℕ → Outcome ℕ
get_addr page_bits page offset = do
  assert (ltb page (num_pages page_bits))
  assert (leb offset (page_size page_bits - 1))
  ok (to_word (bit_or (page * 2 ^ offset_bits page_bits) offset))

module _ {S : Type 0} (op : LocInfo → S → Outcome S) where
  -- The loop of `pageWalk`: the pages left, the page, the bytes left.
  unfoldable pub walk_pages : ℕ → ℕ → ℕ → ℕ → ℕ → S → Outcome S
  walk_pages page_bits addr zero page bytes_left s = ok s
  walk_pages page_bits addr (suc pages) page bytes_left s =
      let offset = if page == get_page page_bits addr then get_offset page_bits addr else 0 in
      let size = min (page_size page_bits - offset) bytes_left in
      do
        s' ← op (record { page = page; offset = offset; size = size }) s
        walk_pages page_bits addr pages (page + 1) (bytes_left - size) s'

  -- `pageWalk(self, addr, size, op)`; with no page bits the masks shift by 32, which is undefined.
  unfoldable pub page_walk : ℕ → ℕ → ℕ → S → Outcome S
  page_walk page_bits addr size s = if size == 0 then ok s else do
    assert (ltb (offset_bits page_bits) 32)
    let first = get_page page_bits addr
    let last = get_page page_bits ((addr + size - 1) % 2 ^ 32) + 1
    assert (leb first last)
    walk_pages page_bits addr (last - first) first size s

-- `page.resize(pageSize())` where the page is empty
abbrev pub resized : Option (ℕ → ℕ) → ℕ → ℕ
resized none = λ i. 0
resized (some page) = page

-- The operation that `writeBlock` hands to `pageWalk`.
unfoldable pub write_page : List ℕ → ℕ → LocInfo → PagedMem → Outcome PagedMem
write_page src start info m = do
  assert (leb (info.offset + info.size) (page_size m.page_bits))
  addr ← get_addr m.page_bits info.page info.offset
  let at = minus addr start
  assert (leb (at + info.size) (length src))
  let bytes = store (resized (m.storage info.page)) info.offset (take info.size (drop at src))
  ok (record m { storage = λ p. if info.page == p then some bytes else m.storage p })

-- `readBlock`'s: a page that does not exist is an exception.
unfoldable pub read_page : ℕ → ℕ → PagedMem → LocInfo → (ℕ → ℕ) → Outcome (ℕ → ℕ)
read_page count start m info dest = do
  assert (leb (info.offset + info.size) (page_size m.page_bits))
  addr ← get_addr m.page_bits info.page info.offset
  elim (m.storage info.page) [
    | none ↦ fail (Failure.unallocated addr)
    | some page ↦ do
      let at = minus addr start
      assert (leb (at + info.size) count)
      ok (store dest at (load page info.offset info.size))
  ]

unfoldable pub write_block : List ℕ → ℕ → PagedMem → Outcome PagedMem
write_block src addr m = page_walk (write_page src addr) m.page_bits addr (length src) m

-- `readBlock(addr, dest)`: what `dest` holds afterwards, from zeros.
unfoldable pub read_block : ℕ → ℕ → PagedMem → Outcome (List ℕ)
read_block addr count m = do
  dest ← page_walk (read_page count addr m) m.page_bits addr count (λ i. 0)
  ok (load dest 0 count)

-- `PagedMem` declares no accessors of its own.
abbrev pub paged_ops : ℕ → MemoryOps PagedMem
paged_ops calls = inherited write_block read_block calls
