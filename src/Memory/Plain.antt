-- ===== src/Memory/Plain.antt =====
-- `PlainMemory` of src/memory/plain_memory.cc: one array of bytes from a start address on.
pub mod Laws
use jit_research.Base.{
  ℕ, ◌+◌, ◌-◌, ◌%◌, ◌^◌, ◌<◌, ◌≡◌, List, length, Bool, true, false, ◌&&◌, not, Outcome, ok, fail,
  Failure, ◌>>=◌, ltb, leb, if◌then◌else◌,
}
use jit_research.Memory.{MemoryOps}
use jit_research.Memory.Bytes.{load, store, to_bytes, from_bytes}

-- `m_data` by its size and its bytes, and `m_start`.
pub record PlainMemory : Type 0 where
  pub size : ℕ
  pub start : ℕ
  pub cell : ℕ → ℕ

-- `PlainMemory(size, start)`: `mapped` is whether `mmap` gave the pages, which are then zero. The
-- sum is a `size_t`.
unfoldable pub make_plain : Bool → ℕ → ℕ → Outcome PlainMemory
make_plain mapped size start =
    if not mapped
    then fail (Failure.unallocated size)
    else if ltb ((size + start) % 2 ^ 64) start
    then fail (Failure.range_too_high start)
    else ok (record { size = size; start = start; cell = λ i. 0 })

-- `addrToOffset(addr)`, with its assertion
unfoldable pub addr_to_offset : ℕ → PlainMemory → Outcome ℕ
addr_to_offset addr m =
    if leb m.start addr && leb addr (m.start + m.size)
    then ok (addr - m.start)
    else fail Failure.undefined_behaviour

-- `translateAddr(addr)` as the source uses it, for an access to `count` bytes: outside the array the
-- access is undefined.
unfoldable pub translate_addr : ℕ → ℕ → PlainMemory → Outcome ℕ
unfolding addr_to_offset
translate_addr addr count m = do
  offset ← addr_to_offset addr m
  if leb (offset + count) m.size then ok offset else fail Failure.undefined_behaviour

-- `checkRange(addr, size)`, which nothing calls; the sums are of type `size_t`.
unfoldable pub check_range : ℕ → ℕ → PlainMemory → Outcome (Unit {0})
check_range addr size m =
    if ltb ((addr + size) % 2 ^ 64) addr
    then fail Failure.undefined_behaviour
    else if ltb addr m.start
    then fail Failure.invalid_argument
    else if ltb ((m.size + m.start) % 2 ^ 64) ((addr + size) % 2 ^ 64)
    then fail Failure.invalid_argument
    else ok tt

unfoldable pub read_n : ℕ → ℕ → PlainMemory → Outcome ℕ
read_n count addr m = do
  offset ← translate_addr addr count m
  ok (from_bytes (load m.cell offset count))

unfoldable pub write_n : ℕ → ℕ → ℕ → PlainMemory → Outcome PlainMemory
write_n count addr val m = do
  offset ← translate_addr addr count m
  ok (record m { cell = store m.cell offset (to_bytes count val) })

unfoldable pub write_block : List ℕ → ℕ → PlainMemory → Outcome PlainMemory
write_block src addr m = do
  offset ← translate_addr addr (length src) m
  ok (record m { cell = store m.cell offset src })

unfoldable pub read_block : ℕ → ℕ → PlainMemory → Outcome (List ℕ)
read_block addr count m = do offset ← translate_addr addr count m; ok (load m.cell offset count)

abbrev pub plain_ops : MemoryOps PlainMemory
plain_ops = record {
  write_block = write_block;
  read_block = read_block;
  read8 = read_n 1;
  read16 = read_n 2;
  read32 = read_n 4;
  write8 = write_n 1;
  write16 = write_n 2;
  write32 = write_n 4;
}
