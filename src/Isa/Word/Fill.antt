-- ===== src/Isa/Word/Fill.antt =====
-- The arithmetic shift of a word as the logical one, filled with the sign from the left.
use jit_research.Base.{
  ℕ, zero, suc, ◌+◌, ◌-◌, ◌*◌, ◌/◌, ◌%◌, ◌^◌, ◌<◌, ◌≡◌, sym, ap, ◌∙◌, arith, pow-suc, one-le-pow,
  ltb, if◌then◌else◌,
}
use native.Mathlib.Nat.{add-mul, div-eq_of_lt-le, div-lt_iff_lt-mul, mod-lt, mod-add-div'}
use jit_research.Isa.Word.{word_mod, sar}
use jit_research.Isa.Word.Signs.{div-le}

pow-add : (a b : ℕ) → 2 ^ a * 2 ^ b ≡ 2 ^ (a + b)
pow-add a zero =
    let same : a ≡ a + 0 = omega arith in
    let one : 2 ^ a * 2 ^ 0 ≡ 2 ^ a = omega arith in one ∙ ap (λ (t : ℕ). 2 ^ t) same
pow-add a (suc b) =
    let next : a + suc b ≡ suc (a + b) = omega arith in
    let right : 2 ^ (a + suc b) ≡ 2 ^ (a + b) * 2 =
      ap (λ (t : ℕ). 2 ^ t) next ∙ pow-suc 2 (a + b) in
    omega (arith, right, pow-add a b, ap (λ (t : ℕ). 2 ^ a * t) (pow-suc 2 b))

-- The quotient of the complement is the complement of the quotient.
div-complement : (x d e : ℕ) → 0 < d → x < e * d → (e * d - 1 - x) / d ≡ e - 1 - x / d
div-complement x d e hd h =
    let q = x / d in
    let c = e - 1 - q in
    let below : q < e = (div-lt_iff_lt-mul hd).1 h in
    let parts : x % d + q * d ≡ x = mod-add-div' x d in
    let rest : x % d < d = mod-lt x hd in
    let whole : (c + q + 1) * d ≡ e * d = ap (λ t. t * d) (omega arith) in
    let split : (c + q + 1) * d ≡ c * d + q * d + 1 * d =
      add-mul (c + q) 1 d ∙ ap (λ t. t + 1 * d) (add-mul c q d) in
    let next : (c + 1) * d ≡ c * d + 1 * d = add-mul c 1 d in
    div-eq_of_lt-le d (omega arith) (omega arith)

pub sar-fill :
    (x k : ℕ)
    → x < word_mod
    → k < 32
    → sar x k ≡ x / 2 ^ k + (if ltb x (2 ^ 31) then 0 else word_mod - 2 ^ (32 - k))
unfolding sar
sar-fill x k hx hk =
    let e = 2 ^ (32 - k) in
    let sum : 32 - k + k ≡ 32 = omega arith in
    let whole : e * 2 ^ k ≡ word_mod = pow-add (32 - k) k ∙ ap (λ (t : ℕ). 2 ^ t) sum in
    let below : x < e * 2 ^ k = omega (arith, whole) in
    let flipped : (word_mod - 1 - x) / 2 ^ k ≡ e - 1 - x / 2 ^ k =
      ap (λ t. (t - 1 - x) / 2 ^ k) (sym whole)
      ∙ div-complement x (2 ^ k) e (one-le-pow k 2 (omega arith)) below in
    let small : x / 2 ^ k < e = (div-lt_iff_lt-mul (one-le-pow k 2 (omega arith))).1 below in
    ground (arith, flipped, small, div-le x (2 ^ k), div-le (word_mod - 1 - x) (2 ^ k))
