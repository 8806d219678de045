-- ===== src/Translators/Lightning/Results.antt =====
-- The low half of a result in a 64-bit register, which is what a store of 32 bits writes.
use jit_research.Base.{ℕ, ◌+◌, ◌*◌, ◌/◌, ◌%◌, ◌^◌, ◌<◌, ◌≡◌, ap, ◌∙◌, arith, Bool, true, false}
use jit_research.Isa.Word.{plus, to_word, word_mod}
use jit_research.Isa.Word.Signs.{div-le}
use jit_research.Isa.Word.Longs.{long_mod}
use jit_research.Interpreter.Handlers.{bool_word}

pub low_add :
    (op : ℕ → ℕ → ℕ)
    → ((x y : ℕ) → op x y ≡ (x + y) % long_mod)
    → (x y : ℕ) → op x y % word_mod ≡ plus x y
low_add op law x y = rw (law x y) (omega arith)

pub low_bits :
    (op f : ℕ → ℕ → ℕ)
    → ((x y : ℕ) → op x y ≡ f x y)
    → ((x y : ℕ) → x < word_mod → y < word_mod → f x y < word_mod)
    → (x y : ℕ) → x < word_mod
    → y < word_mod
    → op x y % word_mod ≡ f x y
low_bits op f law lt x y p q = rw (law x y) (omega (arith, lt x y p q))

pub low_left :
    (op : ℕ → ℕ → ℕ)
    → ((x y : ℕ) → y < 64 → op x y ≡ x * 2 ^ y % long_mod)
    → (x y : ℕ) → y < 32
    → op x y % word_mod ≡ to_word (x * 2 ^ y)
low_left op law x y lt =
    let low : x * 2 ^ y % long_mod % word_mod ≡ to_word (x * 2 ^ y) = omega arith in
    ap (λ v. v % word_mod) (law x y (omega (arith, lt))) ∙ low

pub low_right :
    (op : ℕ → ℕ → ℕ)
    → ((x y : ℕ) → y < 64 → op x y ≡ x / 2 ^ y)
    → (x y : ℕ) → x < word_mod
    → y < 32
    → op x y % word_mod ≡ x / 2 ^ y
low_right op law x y p lt =
    let low : x / 2 ^ y % word_mod ≡ x / 2 ^ y = omega (arith, p, div-le x (2 ^ y)) in
    ap (λ v. v % word_mod) (law x y (omega (arith, lt))) ∙ low

pub low_bit : (v : ℕ) (c : Bool) → v ≡ bool_word c → v % word_mod ≡ bool_word c
low_bit v true e = omega (arith, e)
low_bit v false e = omega (arith, e)
