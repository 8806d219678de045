-- ===== src/Tests/Laws.antt =====
-- The theorems on the instruction set, the memories, the cache and the loader at concrete inputs.
use jit_research.Base.{
  ℕ, ◌+◌, ◌-◌, ◌/◌, ◌%◌, ◌^◌, ◌<◌, bit_and, ◌≡◌, ◌↔◌, true, refl, arith, true, [], ◌∷◌, ◌++◌,
  replicate, none, some, Outcome, ok, fail, Failure, inr, ltb, leb, if◌then◌else◌, ◌==◌, Ensures,
}
use jit_research.Base.Int.{◌<ℤ◌}
use jit_research.Isa.Opcode
use jit_research.Isa.Word.{signed, signed_less, sign_extend, slice, word_mod}
use jit_research.Isa.Word.Slices.{slice_lem}
use jit_research.Isa.Word.Signs.{signed_less_lem, sign_extend_byte}
use jit_research.Isa.Decode.{Instruction, decode}
use jit_research.Isa.Decode.Bounds.{IsWellFormed, decode-IsWellFormed}
use jit_research.Isa.Decode.Fences.{encode_fence, joined_fence, decode-encode_fence}
use jit_research.Isa.Decode.Format.{assemble}
use jit_research.Isa.Decode.RoundTrip.{decode-assemble}
use jit_research.Memory.{half, word, size_of, read, write}
use jit_research.Memory.Bytes.{store, Apart, IsBytes}
use jit_research.Memory.Inherited.{inherited, inherited-diverges}
use jit_research.Memory.Plain.{PlainMemory, plain_ops}
use jit_research.Memory.Plain.Laws.{InRange, read-write, plain-KeepsWidths}
use jit_research.Memory.Paged.{LocInfo, page_size, page_walk}
use jit_research.Memory.Paged.Walk.{InPage, page_walk-agree}
use jit_research.CpuState.{new, get_reg, set_reg}
use jit_research.CpuState.Valid.{new-IsValid, get_reg-set_reg}
use jit_research.Interpreter.{execute}
use jit_research.Interpreter.Handlers.{sra_helper, srl_helper}
use jit_research.Interpreter.Shifts.{sra_helper-srl_helper}
use jit_research.Interpreter.Valid.{IsSound, execute-IsSound}
use jit_research.Interpreter.Frame.{IsFrame, execute-IsFrame}
use jit_research.Jit.Cache.{Code, get_hash, empty, lookup, insert, lookup-insert, cache_size}
use text.Mathlib.Text.{◌==◌ as same_text}
use text.Mathlib.TextEquality.{eq_iff}
use jit_research.Jit.Factory.{Makers, Wired, exist, create_translator, create_translator-Wired}
use jit_research.Loader.{Segment, load_segment}
use jit_research.Loader.Segments.{load_segment-plain}
use jit_research.Tests.Machine.{start, li, decode-li}

abbrev ram : PlainMemory
ram = record { size = 64; start = 16; cell = λ i. 0 }

ram-IsBytes : IsBytes ram.cell
ram-IsBytes i = omega arith

slice_lem_example : slice 32 11 7 0x05d00893 ≡ 0x05d00893 / 2 ^ 7 % 2 ^ (11 - 7 + 1)
slice_lem_example = slice_lem 32 11 7 0x05d00893 (omega arith)

signed_less_lem_example :
    ((signed_less 0xffffffff 1 ≡ true) ↔ (signed 0xffffffff <ℤ signed 1))
    × (signed_less 0xffffffff 1 ≡ ltb ((0xffffffff + 2 ^ 31) % word_mod) ((1 + 2 ^ 31) % word_mod))
signed_less_lem_example = signed_less_lem 0xffffffff 1 (omega arith) (omega arith)

sra_helper-srl_helper_example :
    sra_helper 0xfffffff9 33
    ≡ srl_helper 0xfffffff9 33
      + (if ltb 0xfffffff9 (2 ^ 31) then 0 else word_mod - 2 ^ (32 - bit_and 33 31))
sra_helper-srl_helper_example = sra_helper-srl_helper 0xfffffff9 33 (omega arith)

sign_extend_byte_example :
    sign_extend 32 32 8 0x80 ≡ (if ltb 0x80 (2 ^ 7) then 0x80 else 0x80 + 2 ^ 32 - 2 ^ 8)
sign_extend_byte_example = sign_extend_byte 0x80 (omega arith)

decode-IsWellFormed_example : IsWellFormed li
decode-IsWellFormed_example = decode-IsWellFormed 0x05d00893 li decode-li

-- The usual fence, of all accesses before and after: `fm` is 0, `pred` and `succ` are 15.
decode-encode_fence_example : decode (encode_fence 0 15 15 0 0) ≡ some (joined_fence 0 15 15 0 0)
decode-encode_fence_example =
    decode-encode_fence 0 15 15 0 0 (omega arith) (omega arith) (omega arith) (omega arith)
      (omega arith)

get_reg-set_reg_example :
    get_reg 5 (set_reg 5 9 start)
    ≡ (if 5 == 0 then get_reg 5 start else if 5 == 5 then 9 else get_reg 5 start)
get_reg-set_reg_example = get_reg-set_reg 5 5 9 start (omega arith)

read-write_example :
    (m' : PlainMemory) × (write plain_ops word 20 0xdeadbeef ram ≡ ok m')
    × (read plain_ops word 20 m' ≡ ok 0xdeadbeef)
    × (InRange 24 (size_of half) ram
        → Apart 24 (size_of half) 20 (size_of word)
        → read plain_ops half 24 m' ≡ read plain_ops half 24 ram)
read-write_example =
    read-write word half 20 24 0xdeadbeef ram (omega arith, omega arith) (omega arith)

inherited-diverges_example :
    (read (inherited plain_ops.write_block plain_ops.read_block 9) word 20 ram
      ≡ fail Failure.out_of_fuel)
    × (write (inherited plain_ops.write_block plain_ops.read_block 9) word 20 5 ram
        ≡ fail Failure.out_of_fuel)
inherited-diverges_example =
    inherited-diverges plain_ops.write_block plain_ops.read_block 9 word 20 5 ram

abbrev count_bytes : LocInfo → ℕ → Outcome ℕ
count_bytes info seen = ok (seen + info.size)

abbrev count_checked : LocInfo → ℕ → Outcome ℕ
count_checked info seen =
    if leb (info.offset + info.size) (page_size 20)
    then ok (seen + info.size)
    else fail Failure.undefined_behaviour

counts-agree : (info : LocInfo) (s : ℕ) → InPage 20 info → count_bytes info s ≡ count_checked info s
counts-agree info s h = ground arith

page_walk-agree_example :
    page_walk count_bytes 20 4090 5000 0 ≡ page_walk count_checked 20 4090 5000 0
page_walk-agree_example = page_walk-agree count_bytes count_checked 20 4090 counts-agree 5000 0

abbrev stop : Code (Unit {0})
stop s = ok s

lookup-insert_example :
    (get_hash 0x1000004 < cache_size)
    × (lookup 0x1000004 (insert 4 stop empty) ≡ (
        if 4 == 0x1000004
        then some stop
        else if get_hash 4 == get_hash 0x1000004
        then none
        else lookup 0x1000004 empty))
lookup-insert_example = lookup-insert 4 0x1000004 stop empty

abbrev segment : Segment
segment = record {
  get_type = 1;
  get_data = 0x73 ∷ 0 ∷ [];
  get_virtual_address = 20;
  get_memory_size = 5;
}

load_segment-plain_example :
    load_segment plain_ops segment ram
    ≡ ok (record ram { cell = store ram.cell (20 - 16) (0x73 ∷ 0 ∷ [] ++ replicate (5 - 2) 0) })
load_segment-plain_example =
    load_segment-plain segment ram (omega arith) (omega arith) (omega arith, omega arith)

boot-IsSound : IsSound (λ m. IsBytes m.cell) (new ram)
unfolding new
boot-IsSound = (new-IsValid ram, ram-IsBytes)

execute-IsSound_example : Ensures (IsSound (λ m. IsBytes m.cell)) (execute plain_ops li (new ram))
execute-IsSound_example =
    execute-IsSound (λ m. IsBytes m.cell) li (decode-IsWellFormed 0x05d00893 li decode-li) (new ram)
      boot-IsSound plain_ops plain-KeepsWidths

execute-IsFrame_example :
    Ensures (IsFrame Opcode.addi 17 (new ram)) (execute plain_ops li (new ram))
execute-IsFrame_example = execute-IsFrame plain_ops li (new ram)

abbrev back : Instruction
back = record { opcode = Opcode.jal; rs1 = 0; rs2 = 0; rd = 1; imm = 0xfffffff0 }

decode-assemble_example : decode (assemble back) ≡ some back
decode-assemble_example =
    decode-assemble back (refl, refl, omega arith, refl, inr (omega arith, omega arith))

abbrev no_makers : Makers (Unit {0})
no_makers = record {
  make_xbyak = ok none;
  make_asm_jit = ok none;
  make_llvm_based_jit = ok none;
  make_lightning = ok none;
  make_mir_jit = ok none;
  make_tpde = ok none;
  make_ir_jit = ok none;
}

create_translator-Wired_example :
    Wired no_makers "mir" (exist same_text "mir") (create_translator same_text no_makers "mir")
create_translator-Wired_example = create_translator-Wired same_text eq_iff no_makers "mir"
