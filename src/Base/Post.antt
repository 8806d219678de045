-- ===== src/Base/Post.antt =====
-- A property of what a call leaves, and the rules for chains of calls.
use mathlib.Core.Path.{◌≡◌, refl, subst}
use mathlib.Core.Bool.{Bool, true, false}
use jit_research.Base.Tests.{if◌then◌else◌}
use jit_research.Base.Fault.{Outcome, ok, fail, ◌>>=◌}

-- What a call leaves when it ends with a value.
abbrev pub Ensures {ℓ κ} : {A : Type ℓ} → (A → Type κ) → Outcome A → Type κ
Ensures P (ok a) = P a
Ensures P (fail e) = Unit

pub if-Ensures {ℓ κ} :
    {A : Type ℓ} (P : A → Type κ) (b : Bool) (x y : Outcome A)
    → Ensures P x
    → Ensures P y
    → Ensures P (if b then x else y)
if-Ensures P true x y h k = h
if-Ensures P false x y h k = k

-- A chain ends in `Q` if its first call ends in `P`, and the rest leads from there to `Q`.
pub >>=-Ensures {ℓ κ μ ν} :
    {A : Type ℓ} {B : Type μ} (P : A → Type κ) (Q : B → Type ν) (m : Outcome A) (f : A → Outcome B)
    → Ensures P m
    → ((a : A) → P a → Ensures Q (f a))
    → Ensures Q (m >>= f)
>>=-Ensures P Q (ok a) f h k = k a h
>>=-Ensures P Q (fail e) f h k = tt

pub Ensures-ok {ℓ κ} :
    {A : Type ℓ} (P : A → Type κ) {m : Outcome A} {a : A} → m ≡ ok a → Ensures P m → P a
Ensures-ok P e h = subst (Ensures P) e h

pub any-Ensures {ℓ} : {A : Type ℓ} (m : Outcome A) → Ensures (λ a. Unit {0}) m
any-Ensures (ok a) = tt
any-Ensures (fail e) = tt

-- After a call that ensures `P`, rests are equal where they are equal on `P`.
pub >>=-congr-Ensures {ℓ κ μ} :
    {A : Type ℓ} {B : Type μ} (P : A → Type κ) (m : Outcome A) (f g : A → Outcome B)
    → Ensures P m
    → ((a : A) → P a → f a ≡ g a)
    → (m >>= f) ≡ (m >>= g)
>>=-congr-Ensures P (ok a) f g h k = k a h
>>=-congr-Ensures P (fail e) f g h k = refl

-- A call that ends with a value, and what it leaves.
abbrev pub Yields {ℓ} : {A : Type ℓ} → (A → Type 0) → Outcome A → Type 0
Yields P (ok a) = P a
Yields P (fail e) = ⊥

pub >>=-Yields {ℓ μ} :
    {A : Type ℓ} {B : Type μ} (P : A → Type 0) (Q : B → Type 0) (m : Outcome A) (f : A → Outcome B)
    → Yields P m
    → ((a : A) → P a → Yields Q (f a))
    → Yields Q (m >>= f)
>>=-Yields P Q (ok a) f h k = k a h
>>=-Yields P Q (fail e) f h k = absurd h

pub Yields-ok {ℓ} :
    {A : Type ℓ} (P : A → Type 0) {m : Outcome A} {a : A} → m ≡ ok a → Yields P m → P a
Yields-ok P e h = subst (Yields P) e h

pub Yields-value {ℓ} :
    {A : Type ℓ} (P : A → Type 0) (m : Outcome A) → Yields P m → (a : A) × (m ≡ ok a) × P a
Yields-value P (ok a) h = (a, refl, h)
Yields-value P (fail e) h = absurd h

-- What the image of a value satisfies, the value satisfies through the map.
pub Ensures-image {ℓ κ μ} :
    {A : Type ℓ} {B : Type μ} (P : B → Type κ) (f : A → B) (m : Outcome A)
    → Ensures P (m >>= λ a. ok (f a))
    → Ensures (λ a. P (f a)) m
Ensures-image P f (ok a) h = h
Ensures-image P f (fail e) h = h

pub Yields-map {ℓ} :
    {A : Type ℓ} {P Q : A → Type 0} (m : Outcome A)
    → ((a : A) → P a → Q a)
    → Yields P m
    → Yields Q m
Yields-map (ok a) f h = f a h
Yields-map (fail e) f h = absurd h
