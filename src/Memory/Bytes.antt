-- ===== src/Memory/Bytes.antt =====
-- Little-endian bytes, and the copies between a list of bytes and an array. The program refuses to
-- compile for a big-endian machine, so that a word in memory is its bytes, lowest first.
use jit_research.Base.{
  ℕ, zero, suc, ◌+◌, ◌-◌, ◌*◌, ◌/◌, ◌%◌, ◌^◌, ◌<◌, ◌≤◌, ◌≡◌, ◌⊎◌, refl, ap, ap₂, ◌∙◌, inl, inr,
  Bool-cases, arith, pow-suc, List, [], ◌∷◌, length, get_or, ◌==◌, if◌then◌else◌,
}

-- The bytes of a number, and the number of some bytes.
pub to_bytes : ℕ → ℕ → List ℕ
to_bytes zero v = []
to_bytes (suc k) v = v % 256 ∷ to_bytes k (v / 256)

unfoldable pub from_bytes : List ℕ → ℕ
from_bytes [] = 0
from_bytes (b ∷ bs) = b + 256 * from_bytes bs

-- An array of bytes as a function of the index; `memcpy` out of it and into it.
unfoldable pub load : (ℕ → ℕ) → ℕ → ℕ → List ℕ
load cell at zero = []
load cell at (suc k) = cell at ∷ load cell (at + 1) k

abbrev pub update : (ℕ → ℕ) → ℕ → ℕ → ℕ → ℕ
update cell at b i = if at == i then b else cell i

unfoldable pub store : (ℕ → ℕ) → ℕ → List ℕ → ℕ → ℕ
store cell at [] = cell
store cell at (b ∷ bs) = store (update cell at b) (at + 1) bs

abbrev pub IsBytes : (ℕ → ℕ) → Type 0
IsBytes cell = (i : ℕ) → cell i < 256

abbrev pub AllBytes : List ℕ → Type 0
AllBytes [] = Unit
AllBytes (b ∷ bs) = (b < 256) × AllBytes bs

pub length-to_bytes : (k v : ℕ) → length (to_bytes k v) ≡ k
unfolding to_bytes
length-to_bytes zero v = refl
length-to_bytes (suc k) v = ap suc (length-to_bytes k (v / 256))

pub to_bytes-AllBytes : (k v : ℕ) → AllBytes (to_bytes k v)
unfolding to_bytes
to_bytes-AllBytes zero v = tt
to_bytes-AllBytes (suc k) v = (omega arith, to_bytes-AllBytes k (v / 256))

pub from_bytes-to_bytes : (k v : ℕ) → v < 256 ^ k → from_bytes (to_bytes k v) ≡ v
unfolding to_bytes from_bytes
from_bytes-to_bytes zero v h = omega arith
from_bytes-to_bytes (suc k) v h =
    omega (arith, pow-suc 256 k, from_bytes-to_bytes k (v / 256) (omega (arith, pow-suc 256 k)))

pub from_bytes-load-lt :
    (cell : ℕ → ℕ) (at k : ℕ) → IsBytes cell → from_bytes (load cell at k) < 256 ^ k
unfolding load from_bytes
from_bytes-load-lt cell at zero h = omega arith
from_bytes-load-lt cell at (suc k) h =
    omega (arith, pow-suc 256 k, h at, from_bytes-load-lt cell (at + 1) k h)

get_or-cons :
    (bs : List ℕ) (b i at : ℕ) → at < i → get_or bs (i - (at + 1)) 0 ≡ get_or (b ∷ bs) (i - at) 0
get_or-cons bs b i at h = let e : i - at ≡ suc (i - (at + 1)) = omega arith in rw e

-- What an index holds after a copy: the new byte inside the range, the old one outside.
pub store_lem :
    (cell : ℕ → ℕ) (at : ℕ) (bs : List ℕ) (i : ℕ)
    → ((i < at) ⊎ (at + length bs ≤ i) → store cell at bs i ≡ cell i)
      × (at ≤ i → i < at + length bs → store cell at bs i ≡ get_or bs (i - at) 0)
unfolding store
store_lem cell at [] i = (λ h. refl, λ p q. absurd (omega arith))
store_lem cell at (b ∷ bs) i =
    let rest = store_lem (update cell at b) (at + 1) bs i in
    (
      λ h. elim h [
        | inl p ↦ rest.0 (inl (omega arith)) ∙ ground arith
        | inr p ↦ rest.0 (inr (omega arith)) ∙ ground arith
      ],
      λ p q. elim (Bool-cases (at == i)) [
        | inl e ↦ rest.0 (inl (ground arith)) ∙ ground arith
        | inr e ↦ rest.1 (ground arith) (omega arith) ∙ get_or-cons bs b i at (ground arith)
      ],
    )

pub load-store : (cell : ℕ → ℕ) (at : ℕ) (bs : List ℕ) → load (store cell at bs) at (length bs) ≡ bs
unfolding load store
load-store cell at [] = refl
load-store cell at (b ∷ bs) =
    ap₂ ◌∷◌ ((store_lem (update cell at b) (at + 1) bs at).0 (inl (omega arith)) ∙ ground arith)
      (load-store (update cell at b) (at + 1) bs)

pub store-IsBytes :
    (cell : ℕ → ℕ) (at : ℕ) (bs : List ℕ) → IsBytes cell → AllBytes bs → IsBytes (store cell at bs)
unfolding store
store-IsBytes cell at [] h a = h
store-IsBytes cell at (b ∷ bs) h a =
    store-IsBytes (update cell at b) (at + 1) bs (λ i. ground (arith, h i)) a.1

-- Two stretches that do not meet.
abbrev pub Apart : ℕ → ℕ → ℕ → ℕ → Type 0
Apart a n b k = (a + n ≤ b) ⊎ (b + k ≤ a)

pub load-store-Apart :
    (cell : ℕ → ℕ) (a b k : ℕ) (bs : List ℕ)
    → Apart a k b (length bs)
    → load (store cell b bs) a k ≡ load cell a k
unfolding load
load-store-Apart cell a b zero bs h = refl
load-store-Apart cell a b (suc k) bs (inl h) =
    ap₂ ◌∷◌ ((store_lem cell b bs a).0 (inl (omega arith)))
      (load-store-Apart cell (a + 1) b k bs (inl (omega arith)))
load-store-Apart cell a b (suc k) bs (inr h) =
    ap₂ ◌∷◌ ((store_lem cell b bs a).0 (inr h))
      (load-store-Apart cell (a + 1) b k bs (inr (omega arith)))
