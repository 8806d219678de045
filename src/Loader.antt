-- ===== src/Loader.antt =====
-- `ElfLoader` of src/elf_loader/elf_loader.cc. The ELFIO library is a parameter: what its accessors
-- return for the file, and its constants.
pub mod Segments
use jit_research.Base.{
  ℕ, ◌+◌, ◌-◌, ◌%◌, ◌^◌, List, [], ◌∷◌, length, Bool, true, false, not, Outcome, ok, fail, Failure,
  ◌>>=◌, ◌>>◌, ◌==◌, if◌then◌else◌,
}
use jit_research.Memory.{MemoryOps, fill_block}

-- `ELFIO::ET_EXEC` and the like
pub record Constants : Type 0 where
  pub et_exec : ℕ
  pub elfdata2lsb : ℕ
  pub elfclass32 : ℕ
  pub em_riscv : ℕ
  pub pt_load : ℕ

-- `ELFIO::segment`: `get_data` is the `get_file_size()` bytes at `get_data()`.
pub record Segment : Type 0 where
  pub get_type : ℕ
  pub get_data : List ℕ
  pub get_virtual_address : ℕ
  pub get_memory_size : ℕ

-- `ELFIO::elfio`
pub record Elf : Type 0 where
  pub get_type : ℕ
  pub get_encoding : ℕ
  pub get_class : ℕ
  pub get_machine : ℕ
  pub get_entry : ℕ
  pub segments : List Segment

abbrev require : Bool → Outcome (Unit {0})
require b = if b then ok tt else fail Failure.invalid_argument

-- `validate`
unfoldable pub validate : Constants → Elf → Outcome (Unit {0})
validate k elf = do
  require (elf.get_type == k.et_exec)
  require (elf.get_encoding == k.elfdata2lsb)
  require (elf.get_class == k.elfclass32)
  require (elf.get_machine == k.em_riscv)

-- `ElfLoader(stream)`, by whether and as what ELFIO loads the file
unfoldable pub open_elf : Constants → Outcome Elf → Outcome Elf
open_elf k loaded = do elf ← loaded; validate k elf; ok elf

-- `getEntryPoint`, narrowed to an address
unfoldable pub get_entry_point : Elf → ℕ
get_entry_point elf = elf.get_entry % 2 ^ 32

module _ {M : Type 0} (mem : MemoryOps M) where
  -- The body of the loop of `loadMemory`; the difference of the sizes is a 64-bit number.
  unfoldable pub load_segment : Segment → M → Outcome M
  load_segment seg m = do
    m' ← mem.write_block seg.get_data (seg.get_virtual_address % 2 ^ 32) m
    fill_block mem ((seg.get_virtual_address + length seg.get_data) % 2 ^ 32) 0
        ((seg.get_memory_size + 2 ^ 64 - length seg.get_data) % 2 ^ 64) m'

  unfoldable pub load_segments : Constants → List Segment → M → Outcome M
  load_segments k [] m = ok m
  load_segments k (seg ∷ segs) m = do
    m' ← if seg.get_type == k.pt_load then load_segment seg m else ok m
    load_segments k segs m'

  -- `loadMemory`
  unfoldable pub load_memory : Constants → Elf → M → Outcome M
  load_memory k elf m = load_segments k elf.segments m
