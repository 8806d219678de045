-- ===== src/Jit/Factory.antt =====
-- `JitFactory` of src/jit/factory/factory.cc. What makes a translator is third-party code for all
-- backends but one, and a parameter: a call that may throw. A null pointer is `none`.
use jit_research.Base.{
  ◌≡◌, ◌≢◌, ◌↔◌, refl, sym, ap, ◌∙◌, inl, inr, Option-cases, List, [], ◌∷◌, map, Bool, true, false,
  Option, none, some, Outcome, ok, fail, Failure,
}
use mathlib.Core.Option.{some-injective}
use mathlib.Core.Path.{subst}
use mathlib.Core.Bool.{false≢true}
use Prim.Native.String.{String}
use jit_research.Jit.{Translator}

-- The keys of `kFactories`
pub data Backend : Type 0 where
  xbyak asmjit cached_interp llvm lightning mir tpde ir : Backend

-- The functions of `kFactories` that call a backend.
pub record Makers (M : Type 0) : Type 0 where
  pub make_xbyak : Outcome (Option (Translator M))
  pub make_asm_jit : Outcome (Option (Translator M))
  pub make_llvm_based_jit : Outcome (Option (Translator M))
  pub make_lightning : Outcome (Option (Translator M))
  pub make_mir_jit : Outcome (Option (Translator M))
  pub make_tpde : Outcome (Option (Translator M))
  pub make_ir_jit : Outcome (Option (Translator M))

-- `kFactories`
abbrev pub factories : {M : Type 0} → Makers M → Backend → Outcome (Option (Translator M))
factories k xbyak = k.make_xbyak
factories k asmjit = k.make_asm_jit
factories k cached_interp = ok none
factories k llvm = k.make_llvm_based_jit
factories k lightning = k.make_lightning
factories k mir = k.make_mir_jit
factories k tpde = k.make_tpde
factories k ir = k.make_ir_jit

-- The key that a name is, if any.
abbrev pub key_name : Backend → String
key_name xbyak = "xbyak"
key_name asmjit = "asmjit"
key_name cached_interp = "cached-interp"
key_name llvm = "llvm"
key_name lightning = "lightning"
key_name mir = "mir"
key_name tpde = "tpde"
key_name ir = "ir"

-- The keys of the table, whose order C++ leaves open.
abbrev pub keys : List Backend
keys = xbyak ∷ asmjit ∷ cached_interp ∷ llvm ∷ lightning ∷ mir ∷ tpde ∷ ir ∷ []

-- `backends()`
abbrev pub backends : List String
backends = map key_name keys

-- `kFactories.find(backend)`
unfoldable pub find_key : (String → String → Bool) → String → List Backend → Option Backend
find_key same name [] = none
find_key same name (b ∷ bs) =
    let rest = find_key same name bs in
    elim (same (key_name b) name) [ true ↦ some b | false ↦ rest ]

-- `createTranslator(backend)`, over the equality of strings
unfoldable pub create_translator :
    {M : Type 0} → (String → String → Bool) → Makers M → String → Outcome (Option (Translator M))
unfolding find_key
create_translator same k name = elim (find_key same name keys) [
  | some b ↦ factories k b
  | none ↦ fail Failure.invalid_argument
]

-- `exist(backend)`
unfoldable pub exist : (String → String → Bool) → String → Bool
unfolding find_key
exist same name = elim (find_key same name keys) [ some b ↦ true | none ↦ false ]

-- What the factory promises, by name: whether the name exists, and which function makes its translator.
pub data Wired {M : Type 0} (k : Makers M)
    : String → Bool → Outcome (Option (Translator M)) → Type 0 where
  wired_xbyak : Wired k "xbyak" true k.make_xbyak
  wired_asmjit : Wired k "asmjit" true k.make_asm_jit
  wired_cached_interp : Wired k "cached-interp" true (ok none)
  wired_llvm : Wired k "llvm" true k.make_llvm_based_jit
  wired_lightning : Wired k "lightning" true k.make_lightning
  wired_mir : Wired k "mir" true k.make_mir_jit
  wired_tpde : Wired k "tpde" true k.make_tpde
  wired_ir : Wired k "ir" true k.make_ir_jit
  unknown :
      {name : String}
      → name ≢ "xbyak"
      → name ≢ "asmjit"
      → name ≢ "cached-interp"
      → name ≢ "llvm"
      → name ≢ "lightning"
      → name ≢ "mir"
      → name ≢ "tpde"
      → name ≢ "ir"
      → Wired k name false (fail Failure.invalid_argument)

-- A name that no key of a list has.
abbrev NotIn : String → List Backend → Type 0
NotIn name [] = Unit
NotIn name (b ∷ bs) = (name ≢ key_name b) × NotIn name bs

module _ (same : String → String → Bool)
    (decides : (a b : String) → (same a b ≡ true) ↔ (a ≡ b)) where
  -- Looking a name up gives the key that it is, or the name differs from all keys.
  find_key-some :
      (name : String) (bs : List Backend) (found : Backend)
      → find_key same name bs ≡ some found
      → key_name found ≡ name
  unfolding find_key
  find_key-some name [] found e = cc
  find_key-some name (b ∷ bs) found e =
      at (same (key_name b) name) refl e (find_key-some name bs found)
    where
      at :
          (q : Bool)
          → same (key_name b) name ≡ q
          → elim q [ true ↦ some b | false ↦ find_key same name bs ] ≡ some found
          → (find_key same name bs ≡ some found → key_name found ≡ name)
          → key_name found ≡ name
      at true q g rest =
          ap key_name (sym (some-injective b found g)) ∙ (decides (key_name b) name).0 q
      at false q g rest = rest g

  find_key-none : (name : String) (bs : List Backend) → find_key same name bs ≡ none → NotIn name bs
  unfolding find_key
  find_key-none name [] e = tt
  find_key-none name (b ∷ bs) e = at (same (key_name b) name) refl e (find_key-none name bs)
    where
      at :
          (q : Bool)
          → same (key_name b) name ≡ q
          → elim q [ true ↦ some b | false ↦ find_key same name bs ] ≡ none
          → (find_key same name bs ≡ none → NotIn name bs)
          → NotIn name (b ∷ bs)
      at true q g rest = cc
      at false q g rest =
          (λ same_name. false≢true (sym q ∙ (decides (key_name b) name).1 (sym same_name)), rest g)

  module _ {M : Type 0} (k : Makers M) where
    key_name-Wired : (b : Backend) → Wired k (key_name b) true (factories k b)
    key_name-Wired xbyak = Wired.wired_xbyak
    key_name-Wired asmjit = Wired.wired_asmjit
    key_name-Wired cached_interp = Wired.wired_cached_interp
    key_name-Wired llvm = Wired.wired_llvm
    key_name-Wired lightning = Wired.wired_lightning
    key_name-Wired mir = Wired.wired_mir
    key_name-Wired tpde = Wired.wired_tpde
    key_name-Wired ir = Wired.wired_ir

    invalid-Wired :
        (name : String) → NotIn name keys → Wired k name false (fail Failure.invalid_argument)
    invalid-Wired name (a, (b, (c, (d, (e, (f, (g, (h, _)))))))) = Wired.unknown a b c d e f g h

    -- Over an equality of strings, `exist` and `createTranslator` agree for every name with the table of
    -- the backends: a name of the table exists and its own function makes the translator, and a name
    -- that is none of the eight does not exist and is an invalid argument.
    pub create_translator-Wired :
        (name : String) → Wired k name (exist same name) (create_translator same k name)
    unfolding exist create_translator
    create_translator-Wired name = elim (Option-cases (find_key same name keys)) [
      | inl e ↦ rw e (invalid-Wired name (find_key-none name keys e))
      | inr (b, e) ↦ rw e (
          subst (λ n. Wired k n true (factories k b)) (find_key-some name keys b e)
            (key_name-Wired b))
    ]
