-- ===== src/Base/Fault.antt =====
-- How a C++ call ends: with a value, with an exception that was thrown, or in behaviour that the
-- language leaves undefined. A `do` block stops at the first call that does not end with a value.
use mathlib.Core.Path.{◌≡◌, refl, ap}
use mathlib.Core.Logic.{◌⊎◌, inl, inr}
use Prim.Native.Nat.{ℕ}

-- The exceptions, by what is thrown and where.
pub data Failure : Type 0 where
  -- `Misaligned PC detected`, `Undefined instruction on decode` and `Cannot decode bytes`
  misaligned_pc undefined_instruction cannot_decode : ℕ → Failure
  -- `Unknown syscall w/ num` and `Too high sys call arg number`
  unknown_syscall bad_syscall_arg : ℕ → Failure
  -- a read of a page that was never written, and a page configuration that is refused
  unallocated : ℕ → Failure
  too_many_page_bits : ℕ → Failure
  range_too_high : ℕ → Failure
  -- `Failed to translate BB on pc`
  translation_failed : ℕ → Failure
  -- `Failed to change protection`
  not_protected : Failure
  -- `throw std::invalid_argument{"Unexpected opcode"}` and its like
  invalid_argument : Failure
  -- no exception: a failed `assert`, an access out of range, or another undefined operation
  undefined_behaviour : Failure
  -- no exception: a call that never returns, cut off by the model's fuel
  out_of_fuel : Failure

pub data Outcome {ℓ} (A : Type ℓ) : Type ℓ where
  ok : A → Outcome A
  fail : Failure → Outcome A

infixl 5 ◌>>=◌ ◌>>◌
abbrev pub ◌>>=◌ {ℓ κ} : {A : Type ℓ} {B : Type κ} → Outcome A → (A → Outcome B) → Outcome B
ok a >>= f = f a
fail e >>= f = fail e

abbrev pub ◌>>◌ {ℓ} : {B : Type ℓ} → Outcome (Unit {0}) → Outcome B → Outcome B
m >> k = m >>= λ _. k

-- A successful chain, taken apart.
pub >>=-eq-ok {ℓ κ} :
    {A : Type ℓ} {B : Type κ} (call : Outcome A) (next : A → Outcome B) {last : B}
    → (call >>= next) ≡ ok last
    → (first : A) × (call ≡ ok first) × (next first ≡ ok last)
>>=-eq-ok (ok first) next e = (first, refl, e)
>>=-eq-ok (fail problem) next e = cc

abbrev ok_or {ℓ} : {A : Type ℓ} → A → Outcome A → A
ok_or d (ok a) = a
ok_or d (fail e) = d

pub ok-injective {ℓ} : {A : Type ℓ} {a b : A} → ok a ≡ ok b → a ≡ b
ok-injective {a} e = ap (ok_or a) e

pub Outcome-cases {ℓ} :
    {A : Type ℓ} (m : Outcome A) → ((a : A) × (m ≡ ok a)) ⊎ ((f : Failure) × (m ≡ fail f))
Outcome-cases (ok a) = inl (a, refl)
Outcome-cases (fail f) = inr (f, refl)

pub >>=_assoc {ℓ κ μ} :
    {A : Type ℓ} {B : Type κ} {C : Type μ} (m : Outcome A) (f : A → Outcome B) (g : B → Outcome C)
    → ((m >>= f) >>= g) ≡ (m >>= λ a. (f a >>= g))
>>=_assoc (ok a) f g = refl
>>=_assoc (fail e) f g = refl

-- Two chains whose first calls are equal, and whose rests are equal after every value.
pub >>=-congr {ℓ κ} :
    {A : Type ℓ} {B : Type κ} (m : Outcome A) (f g : A → Outcome B)
    → ((a : A) → f a ≡ g a)
    → (m >>= f) ≡ (m >>= g)
>>=-congr (ok a) f g h = h a
>>=-congr (fail e) f g h = refl

pub >>=_ok {ℓ} : {A : Type ℓ} (m : Outcome A) → (m >>= λ a. ok a) ≡ m
>>=_ok (ok a) = refl
>>=_ok (fail e) = refl
