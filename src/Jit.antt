-- ===== src/Jit.antt =====
-- `JitEngine` of src/jit/base/include/prot/jit/base.hh and src/jit/base/base.cc: basic blocks are
-- collected, interpreted until they are hot, and then run as the code of a translator.
pub mod Cache
pub mod Blocks
pub mod Lines
pub mod Counted
pub mod Factory
pub mod CodeHolder
pub mod Refines
pub mod Runs
use jit_research.Base.{
  ℕ, zero, suc, ◌+◌, ◌%◌, ◌^◌, ◌≡◌, List, [], ◌∷◌, ◌++◌, Bool, true, false, ◌||◌, Option, none,
  some, Outcome, ok, fail, Failure, ◌>>=◌, ◌==◌, leb, if◌then◌else◌,
}
use jit_research.Isa.Word.{plus, word_size}
use jit_research.Isa.Opcode.{is_terminator}
use jit_research.Isa.Decode.{Instruction, decode}
use jit_research.Memory.{MemoryOps, read, word}
use jit_research.CpuState.{CpuState}
use jit_research.Interpreter.{execute}
use jit_research.Engine.{count_one}
use Cache.{Code, TbCache, lookup, insert}

-- `BBInfo`
pub record BbInfo : Type 0 where
  pub insns : List Instruction
  pub num_exec : ℕ

-- `Translator`: a virtual method that may throw and may return a null pointer.
pub record Translator (M : Type 0) : Type 0 where
  pub translate : BbInfo → Outcome (Option (Code M))

-- `Config`, less `enableDump`, which only prints.
pub record Config : Type 0 where
  pub exec_threshold : ℕ
  pub single_step : Bool

-- `m_tbCache` and `m_cacheBB`
pub record JitState (M : Type 0) : Type 0 where
  pub tb_cache : TbCache M
  pub cache_bb : ℕ → Option BbInfo

-- `m_cacheBB[pc] = info`
abbrev pub put_bb : {M : Type 0} → ℕ → BbInfo → JitState M → JitState M
put_bb pc info j = record j { cache_bb = λ a. if pc == a then some info else j.cache_bb a }

-- `if (!inst.has_value()) throw`
abbrev pub fetched : ℕ → Option Instruction → Outcome Instruction
fetched bytes none = fail (Failure.cannot_decode bytes)
fetched bytes (some n) = ok n

module _ {M : Type 0} (mem : MemoryOps M) where
  -- The loop that fills a new block, a round of fuel for each instruction.
  unfoldable pub collect : ℕ → Config → ℕ → M → Outcome (List Instruction)
  collect zero config addr m = fail Failure.out_of_fuel
  collect (suc fuel) config addr m = do
    bytes ← read mem word addr m
    n ← fetched bytes (decode bytes)
    ends ← is_terminator n.opcode
    elim (config.single_step || ends) [
      | true ↦ ok (n ∷ [])
      | false ↦ do rest ← collect fuel config (plus addr word_size) m; ok (n ∷ rest)
    ]

  -- The loop of `interpret`.
  unfoldable pub interpret_insns : List Instruction → CpuState M → Outcome (CpuState M)
  interpret_insns [] s = ok s
  interpret_insns (n ∷ ns) s = do s' ← execute mem n s; interpret_insns ns (count_one s')

  -- `interpret(cpu, info)`; `num_exec` is a `size_t`.
  unfoldable pub interpret : BbInfo → CpuState M → Outcome (BbInfo × CpuState M)
  interpret info s = do
    s' ← interpret_insns info.insns s
    ok (record info { num_exec = (info.num_exec + 1) % 2 ^ 64 }, s')

  -- `m_cacheBB.try_emplace(pc)`, and the block collected where it is new.
  unfoldable pub find_block : ℕ → Config → CpuState M → JitState M → Outcome BbInfo
  find_block fuel config s j = elim (j.cache_bb s.pc) [
    | some info ↦ ok info
    | none ↦ do
      insns ← collect fuel config s.pc s.memory
      ok (record { insns = insns; num_exec = 0 })
  ]

  -- `interpret` at the end of a round, on the block in the map.
  unfoldable pub interpret_block :
      BbInfo → CpuState M → JitState M → Outcome (JitState M × CpuState M)
  interpret_block info s j = do (info', s') ← interpret info s; ok (put_bb s.pc info' j, s')

  -- `if (code == nullptr) throw`
  abbrev pub translated : ℕ → Option (Code M) → Outcome (Code M)
  translated pc none = fail (Failure.translation_failed pc)
  translated pc (some code) = ok code

  -- The translation of a hot block: the code runs, and is then put into the cache.
  unfoldable pub run_translated :
      Translator M → BbInfo → CpuState M → JitState M → Outcome (JitState M × CpuState M)
  run_translated t info s j = do
    result ← t.translate info
    code ← translated s.pc result
    s' ← code s
    let j' = put_bb s.pc info j
    ok (record j' { tb_cache = insert s.pc code j.tb_cache }, s')

  -- What `m_tbCache.lookup(pc)` gives, if there is a translator at all.
  unfoldable pub cached_code : Option (Translator M) → ℕ → JitState M → Option (Code M)
  cached_code none pc j = none
  cached_code (some t) pc j = lookup pc j.tb_cache

  -- The block's turn: translated if there is a translator and the block is hot, else interpreted.
  unfoldable pub run_block :
      Config
      → Option (Translator M)
      → BbInfo
      → CpuState M
      → JitState M
      → Outcome (JitState M × CpuState M)
  run_block config none info s j = interpret_block info s j
  run_block config (some t) info s j =
      if leb config.exec_threshold info.num_exec
      then run_translated t info s j
      else interpret_block info s j

  -- One round of the loop of `JitEngine::step`.
  unfoldable pub round :
      ℕ
      → Config
      → Option (Translator M)
      → CpuState M
      → JitState M
      → Outcome (JitState M × CpuState M)
  round fuel config t s j = elim (cached_code t s.pc j) [
    | some code ↦ do s' ← code s; ok (j, s')
    | none ↦ do info ← find_block fuel config s j; run_block config t info s j
  ]

  -- `JitEngine::step(cpu)`, which returns when the program has finished.
  unfoldable pub step :
      ℕ
      → ℕ
      → Config
      → Option (Translator M)
      → CpuState M
      → JitState M
      → Outcome (JitState M × CpuState M)
  step zero fuel config t s j = fail Failure.out_of_fuel
  step (suc rounds) fuel config t s j = elim s.finished [
    | true ↦ ok (j, s)
    | false ↦ do (j', s') ← round fuel config t s j; step rounds fuel config t s' j'
  ]

  -- `getBBInfo(pc)`: a block that is hot.
  unfoldable pub get_bb_info : Config → ℕ → JitState M → Option BbInfo
  get_bb_info config pc j = elim (j.cache_bb pc) [
    | some info ↦ if leb config.exec_threshold info.num_exec then some info else none
    | none ↦ none
  ]
