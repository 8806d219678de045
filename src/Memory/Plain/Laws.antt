-- ===== src/Memory/Plain/Laws.antt =====
-- What the plain memory promises: reads after writes, at every width.
use mathlib.Core.Path.{subst}
use jit_research.Base.{
  Ensures, >>=-Ensures, any-Ensures, ℕ, ◌+◌, ◌-◌, ◌^◌, ◌<◌, ◌≤◌, ◌≡◌, inl, inr, refl, sym, ap, ◌∙◌,
  arith, List, Outcome, ok,
}
use jit_research.Memory.{KeepsWidths, Width, byte, half, word, size_of, width_mod, read, write}
use jit_research.Memory.Bytes.{
  load, store, to_bytes, from_bytes, IsBytes, Apart, load-store-Apart, length-to_bytes,
  to_bytes-AllBytes, from_bytes-to_bytes, from_bytes-load-lt, load-store, store-IsBytes,
}
use jit_research.Memory.Plain.{PlainMemory, translate_addr, read_n, write_n, plain_ops}

-- The addresses at which `count` bytes can be accessed.
abbrev pub InRange : ℕ → ℕ → PlainMemory → Type 0
InRange addr count m = (m.start ≤ addr) × (addr + count ≤ m.start + m.size)

pub translate-InRange :
    (addr count : ℕ) (m : PlainMemory)
    → InRange addr count m
    → translate_addr addr count m ≡ ok (addr - m.start)
unfolding translate_addr
translate-InRange addr count m h = ground arith

translate-eq-ok :
    (addr count offset : ℕ) (m : PlainMemory)
    → translate_addr addr count m ≡ ok offset
    → InRange addr count m × (offset ≡ addr - m.start)
unfolding translate_addr
translate-eq-ok addr count offset m e = ground arith

count_mod : (width : Width) → 256 ^ size_of width ≡ width_mod width
count_mod byte = refl
count_mod half = refl
count_mod word = refl

read_n-InRange :
    (count addr : ℕ) (m : PlainMemory)
    → InRange addr count m
    → read_n count addr m ≡ ok (from_bytes (load m.cell (addr - m.start) count))
unfolding read_n
read_n-InRange count addr m h = rw (translate-InRange addr count m h)

write_n-InRange :
    (count addr val : ℕ) (m : PlainMemory)
    → InRange addr count m
    → write_n count addr val m
      ≡ ok (record m { cell = store m.cell (addr - m.start) (to_bytes count val) })
unfolding write_n
write_n-InRange count addr val m h = rw (translate-InRange addr count m h)

-- `read` and `write` at a width are those at its number of bytes.
read-plain : (width : Width) → read plain_ops width ≡ read_n (size_of width)
unfolding read
read-plain byte = refl
read-plain half = refl
read-plain word = refl

write-plain : (width : Width) → write plain_ops width ≡ write_n (size_of width)
unfolding write
write-plain byte = refl
write-plain half = refl
write-plain word = refl

Apart-offsets :
    (m : PlainMemory) (a b n k : ℕ)
    → InRange a n m
    → InRange b k m
    → Apart a n b k
    → Apart (a - m.start) n (b - m.start) k
Apart-offsets m a b n k ha hb (inl h) = inl (omega arith)
Apart-offsets m a b n k ha hb (inr h) = inr (omega arith)

-- A write of a value of its width in range succeeds; reading there again gives the value, and every
-- read in range that does not meet the written bytes gives what it gave before.
pub read-write :
    (w v : Width) (addr other val : ℕ) (m : PlainMemory)
    → InRange addr (size_of w) m
    → val < width_mod w
    → (m' : PlainMemory) × (write plain_ops w addr val m ≡ ok m')
      × (read plain_ops w addr m' ≡ ok val)
      × (InRange other (size_of v) m
          → Apart other (size_of v) addr (size_of w)
          → read plain_ops v other m' ≡ read plain_ops v other m)
read-write w v addr other val m h lt =
    let bs = to_bytes (size_of w) val in
    let at = addr - m.start in
    let m' : PlainMemory = record m { cell = store m.cell at bs } in
    let same : load (store m.cell at bs) at (size_of w) ≡ bs =
      rw (ap (load (store m.cell at bs) at) (sym (length-to_bytes (size_of w) val)))
        (load-store m.cell at bs) in
    (
      m',
      ap (λ (f : ℕ → ℕ → PlainMemory → Outcome PlainMemory). f addr val m) (write-plain w)
          ∙ write_n-InRange (size_of w) addr val m h,
      ap (λ (f : ℕ → PlainMemory → Outcome ℕ). f addr m') (read-plain w)
          ∙ read_n-InRange (size_of w) addr m' h
          ∙ ap ok (ap from_bytes same ∙ from_bytes-to_bytes (size_of w) val (rw (count_mod w) lt)),
      λ ho apart.
          ap (λ (f : ℕ → PlainMemory → Outcome ℕ). f other m') (read-plain v)
          ∙ read_n-InRange (size_of v) other m' ho
          ∙ ap (λ (xs : List ℕ). ok (from_bytes xs))
              (load-store-Apart m.cell (other - m.start) at (size_of v) bs (
                rw (length-to_bytes (size_of w) val)
                  (Apart-offsets m other addr (size_of v) (size_of w) ho h apart)))
          ∙ sym (
              ap (λ (f : ℕ → PlainMemory → Outcome ℕ). f other m) (read-plain v)
              ∙ read_n-InRange (size_of v) other m ho),
    )

read_n-lt :
    (width : Width) (addr : ℕ) (m : PlainMemory)
    → IsBytes m.cell
    → Ensures (λ v. v < width_mod width) (read_n (size_of width) addr m)
unfolding read_n
read_n-lt width addr m h =
    >>=-Ensures (λ o. Unit {0}) (λ v. v < width_mod width) (translate_addr addr (size_of width) m)
      (λ offset. ok (from_bytes (load m.cell offset (size_of width)))) (any-Ensures _)
      λ offset _.
        subst (λ k. from_bytes (load m.cell offset (size_of width)) < k) (count_mod width)
          (from_bytes-load-lt m.cell offset (size_of width) h)

write_n-IsBytes :
    (count addr val : ℕ) (m : PlainMemory)
    → IsBytes m.cell
    → Ensures (λ m'. IsBytes m'.cell) (write_n count addr val m)
unfolding write_n
write_n-IsBytes count addr val m h =
    >>=-Ensures (λ o. Unit {0}) (λ m'. IsBytes m'.cell) (translate_addr addr count m)
      (λ offset. ok (record m { cell = store m.cell offset (to_bytes count val) })) (any-Ensures _)
      λ offset _. store-IsBytes m.cell offset (to_bytes count val) h (to_bytes-AllBytes count val)

-- The plain memory meets what the interpreter relies on, while its array holds bytes.
pub plain-KeepsWidths : KeepsWidths plain_ops (λ m. IsBytes m.cell)
plain-KeepsWidths = record {
  read_lt = λ width addr m h.
      rw (ap (λ (f : ℕ → PlainMemory → Outcome ℕ). f addr m) (read-plain width))
        (read_n-lt width addr m h);
  write_keeps = λ width addr val m h lt.
      rw (ap (λ (f : ℕ → ℕ → PlainMemory → Outcome PlainMemory). f addr val m) (write-plain width))
        (write_n-IsBytes (size_of width) addr val m h);
}
