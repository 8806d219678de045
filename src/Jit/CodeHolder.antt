-- ===== src/Jit/CodeHolder.antt =====
-- `CodeHolder` of src/jit/base/base.cc: pages that hold the bytes of a translated function. Running
-- them is up to the machine.
use jit_research.Base.{ℕ, List, length, Bool, true, not, Outcome, ok, fail, Failure, if◌then◌else◌}

pub record CodeHolder : Type 0 where
  pub code : List ℕ
  pub size : ℕ
  pub executable : Bool

-- `CodeHolder(src)`, by whether `mmap` and `mprotect` succeed.
unfoldable pub make_code_holder : Bool → Bool → List ℕ → Outcome CodeHolder
make_code_holder mapped is_protected src =
    if not mapped
    then fail (Failure.unallocated (length src))
    else if not is_protected
    then fail Failure.not_protected
    else ok (record { code = src; size = length src; executable = true })
