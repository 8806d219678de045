-- ===== src/Loader/Segments.antt =====
-- What loading a segment leaves in a plain memory.
use jit_research.Base.{
  Ensures, >>=-Ensures, if-Ensures, any-Ensures, ℕ, zero, suc, ◌+◌, ◌-◌, ◌%◌, ◌^◌, ◌<◌, ◌≤◌, ◌≡◌,
  refl, sym, ap, ◌∙◌, arith, List, [], ◌∷◌, ◌++◌, length, replicate, ok, ◌==◌,
}
use jit_research.Memory.{fill_from, fill_block}
use jit_research.Memory.Bytes.{store, update, AllBytes, IsBytes, store-IsBytes}
use jit_research.Memory.Plain.{PlainMemory, translate_addr, write_block, plain_ops}
use jit_research.Memory.Plain.Laws.{InRange, translate-InRange}
use jit_research.Loader.{Constants, Segment, load_segment, load_segments}

abbrev with_cell : PlainMemory → (ℕ → ℕ) → PlainMemory
with_cell m cell = record m { cell = cell }

store-++ :
    (cell : ℕ → ℕ) (at : ℕ) (xs ys : List ℕ)
    → store cell at (xs ++ ys) ≡ store (store cell at xs) (at + length xs) ys
unfolding store
store-++ cell at [] ys = let e : at + 0 ≡ at = omega arith in rw e refl
store-++ cell at (x ∷ xs) ys =
    let e : at + suc (length xs) ≡ at + 1 + length xs = omega arith in
    rw e (store-++ (update cell at x) (at + 1) xs ys)

write_block-InRange :
    (src : List ℕ) (addr : ℕ) (m : PlainMemory)
    → InRange addr (length src) m
    → write_block src addr m ≡ ok (with_cell m (store m.cell (addr - m.start) src))
unfolding write_block
write_block-InRange src addr m h = rw (translate-InRange addr (length src) m h)

fill_from-plain :
    (left i addr value : ℕ) (m : PlainMemory)
    → addr + i + left ≤ 2 ^ 32
    → InRange (addr + i) left m
    → fill_from plain_ops left i addr value m
      ≡ ok (with_cell m (store m.cell (addr + i - m.start) (replicate left value)))
unfolding fill_from store
fill_from-plain zero i addr value m w h = refl
fill_from-plain (suc left) i addr value m w h =
    let at = addr + i - m.start in
    let m' = with_cell m (update m.cell at value) in
    let e : (addr + i) % 2 ^ 32 ≡ addr + i = omega arith in
    let next : addr + (i + 1) - m.start ≡ at + 1 = omega arith in
    let one : write_block (value ∷ []) (addr + i) m ≡ ok m' =
      write_block-InRange (value ∷ []) (addr + i) m (h.0, omega arith) in
    rw (e, one)
      (fill_from-plain left (i + 1) addr value m' (omega arith) (omega arith, omega arith)
        ∙ rw next refl)

-- A segment that fits the memory and the address space, with a file no longer than its memory, is
-- loaded: from its address on the memory holds the file's bytes and then zeros up to the memory size,
-- and nothing else has changed.
pub load_segment-plain :
    (seg : Segment) (m : PlainMemory)
    → length seg.get_data ≤ seg.get_memory_size
    → seg.get_virtual_address + seg.get_memory_size < 2 ^ 32
    → InRange seg.get_virtual_address seg.get_memory_size m
    → load_segment plain_ops seg m
      ≡ ok (record m {
        cell =
            store m.cell
              (seg.get_virtual_address - m.start)
              (seg.get_data ++ replicate (seg.get_memory_size - length seg.get_data) 0);
      })
unfolding load_segment fill_block
load_segment-plain seg m fits w h =
    let va = seg.get_virtual_address in
    let n = length seg.get_data in
    let left = seg.get_memory_size - n in
    let m' = with_cell m (store m.cell (va - m.start) seg.get_data) in
    let low : va % 2 ^ 32 ≡ va = omega arith in
    let high : (va + n) % 2 ^ 32 ≡ va + n = omega arith in
    let count : (seg.get_memory_size + 2 ^ 64 - n) % 2 ^ 64 ≡ left = omega arith in
    let from : va + n + 0 - m.start ≡ va - m.start + n = omega arith in
    let wrote = write_block-InRange seg.get_data va m (h.0, omega arith) in
    rw (low, high, count, wrote)
      (fill_from-plain left 0 (va + n) 0 m' (omega arith) (omega arith, omega arith)
        ∙ rw from (
            ap (λ (c : ℕ → ℕ). ok (with_cell m c))
              (sym (store-++ m.cell (va - m.start) seg.get_data (replicate left 0)))))

-- Writing bytes keeps an array of bytes one.
write_block-IsBytes :
    (src : List ℕ) (addr : ℕ) (m : PlainMemory)
    → AllBytes src
    → IsBytes m.cell
    → Ensures (λ m'. IsBytes m'.cell) (write_block src addr m)
unfolding write_block
write_block-IsBytes src addr m b h =
    >>=-Ensures (λ o. Unit {0}) (λ m'. IsBytes m'.cell) (translate_addr addr (length src) m)
      (λ offset. ok (with_cell m (store m.cell offset src))) (any-Ensures _)
      λ offset _. store-IsBytes m.cell offset src h b

fill_from-IsBytes :
    (left i addr value : ℕ) (m : PlainMemory)
    → value < 256
    → IsBytes m.cell
    → Ensures (λ m'. IsBytes m'.cell) (fill_from plain_ops left i addr value m)
unfolding fill_from
fill_from-IsBytes zero i addr value m v h = h
fill_from-IsBytes (suc left) i addr value m v h =
    >>=-Ensures (λ m'. IsBytes m'.cell) (λ m'. IsBytes m'.cell) _ _
      (write_block-IsBytes (value ∷ []) ((addr + i) % 2 ^ 32) m (v, tt) h)
      λ m' h'. fill_from-IsBytes left (i + 1) addr value m' v h'

-- The bytes of every segment are bytes.
abbrev pub AllSegments : List Segment → Type 0
AllSegments [] = Unit
AllSegments (seg ∷ segs) = AllBytes seg.get_data × AllSegments segs

load_segment-IsBytes :
    (seg : Segment) (m : PlainMemory)
    → AllBytes seg.get_data
    → IsBytes m.cell
    → Ensures (λ m'. IsBytes m'.cell) (load_segment plain_ops seg m)
unfolding load_segment fill_block
load_segment-IsBytes seg m b h =
    >>=-Ensures (λ m'. IsBytes m'.cell) (λ m'. IsBytes m'.cell) _ _
      (write_block-IsBytes seg.get_data (seg.get_virtual_address % 2 ^ 32) m b h)
      λ m' h'. fill_from-IsBytes _ 0 _ 0 m' (omega arith) h'

-- Loading a file keeps the memory an array of bytes, if it returns.
pub load_segments-IsBytes :
    (k : Constants) (segs : List Segment) (m : PlainMemory)
    → AllSegments segs
    → IsBytes m.cell
    → Ensures (λ m'. IsBytes m'.cell) (load_segments plain_ops k segs m)
unfolding load_segments
load_segments-IsBytes k [] m b h = h
load_segments-IsBytes k (seg ∷ segs) m b h =
    >>=-Ensures (λ m'. IsBytes m'.cell) (λ m'. IsBytes m'.cell) _ _
      (if-Ensures (λ m'. IsBytes m'.cell) (seg.get_type == k.pt_load) (load_segment plain_ops seg m)
        (ok m) (load_segment-IsBytes seg m b.0 h) h)
      λ m' h'. load_segments-IsBytes k segs m' b.1 h'
