-- ===== src/Memory/Inherited.antt =====
-- The accessors that src/memory/include/prot/memory.hh gives an implementation with no accessors of
-- its own, as `PagedMem` is: `read8` calls `read<uint8_t>`, which calls `read8`, and so on.
use jit_research.Base.{ℕ, zero, suc, ◌≡◌, refl, List, Outcome, fail, Failure}
use jit_research.Memory.{Width, byte, half, word, MemoryOps, read, write}

module _ {M : Type 0} (write_block : List ℕ → ℕ → M → Outcome M)
    (read_block : ℕ → ℕ → M → Outcome (List ℕ)) where
  -- The methods of the base class, cut off after a number of calls.
  unfoldable pub inherited : ℕ → MemoryOps M
  unfolding read write
  inherited zero = record {
    write_block = write_block;
    read_block = read_block;
    read8 = λ addr m. fail Failure.out_of_fuel;
    read16 = λ addr m. fail Failure.out_of_fuel;
    read32 = λ addr m. fail Failure.out_of_fuel;
    write8 = λ addr val m. fail Failure.out_of_fuel;
    write16 = λ addr val m. fail Failure.out_of_fuel;
    write32 = λ addr val m. fail Failure.out_of_fuel;
  }
  inherited (suc calls) =
      let mem = inherited calls in
      record {
        write_block = write_block;
        read_block = read_block;
        read8 = read mem byte;
        read16 = read mem half;
        read32 = read mem word;
        write8 = write mem byte;
        write16 = write mem half;
        write32 = write mem word;
      }

  -- Whatever its block operations do, no number of calls lets an inherited accessor return, at any
  -- width: it calls itself for ever.
  pub inherited-diverges :
      (calls : ℕ) (width : Width) (addr val : ℕ) (m : M)
      → (read (inherited calls) width addr m ≡ fail Failure.out_of_fuel)
        × (write (inherited calls) width addr val m ≡ fail Failure.out_of_fuel)
  unfolding inherited read write
  inherited-diverges zero byte addr val m = (refl, refl)
  inherited-diverges zero half addr val m = (refl, refl)
  inherited-diverges zero word addr val m = (refl, refl)
  inherited-diverges (suc calls) byte addr val m = inherited-diverges calls byte addr val m
  inherited-diverges (suc calls) half addr val m = inherited-diverges calls half addr val m
  inherited-diverges (suc calls) word addr val m = inherited-diverges calls word addr val m
