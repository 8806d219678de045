-- ===== src/Interpreter/Frame.antt =====
-- What an instruction leaves alone.
use jit_research.Base.{
  Ensures, >>=-Ensures, any-Ensures, if-Ensures, ℕ, ◌≡◌, refl, ◌∙◌, zero, suc, arith, Bool, true,
  false, List, [], ◌∷◌, get_or, set, Bool-cases, inl, inr, ok, ltb, leb, ◌==◌, not,
}
use jit_research.Isa.Word.{signed_less}
use jit_research.Isa.Opcode.{Opcode, changes_pc}
use jit_research.Isa.Decode.{Instruction}
use jit_research.Memory.{MemoryOps, Width, byte, half, word, read, write}
use jit_research.CpuState.{CpuState, set_reg, set_pc, emulate_sys_call}
use jit_research.Interpreter.{handler, execute}
use jit_research.Interpreter.Handlers.{
  register_register_op, register_imm_op, br_helper, do_add, do_addi, do_and, do_andi, do_auipc,
  do_beq, do_bge, do_bgeu, do_blt, do_bltu, do_bne, do_ebreak, do_ecall, do_fence, do_jal, do_jalr,
  do_lui, do_or, do_ori, do_pause, do_sbreak, do_scall, do_sll, do_slli, do_slt, do_slti, do_sltiu,
  do_sltu, do_sra, do_srai, do_srl, do_srli, do_sub, do_xor, do_xori,
}
use jit_research.Interpreter.Accesses.{
  load_helper, store_helper, do_lb, do_lbu, do_lh, do_lhu, do_lw, do_sb, do_sh, do_sw,
}

abbrev pub is_store : Opcode → Bool
is_store Opcode.sb = true
is_store Opcode.sh = true
is_store Opcode.sw = true
is_store op = false

abbrev pub is_call : Opcode → Bool
is_call Opcode.ecall = true
is_call op = false

-- What every instruction leaves alone: the registers but its destination, the memory unless it is a
-- store, whether the program has finished and its exit code unless it is a call, and the count.
pub record IsFrame {M : Type 0} (op : Opcode) (rd : ℕ) (s t : CpuState M) : Type 0 where
  pub others : (r : ℕ) → (rd == r) ≡ false → get_or t.regs r 0 ≡ get_or s.regs r 0
  pub memory_same : is_store op ≡ false → t.memory ≡ s.memory
  pub running : is_call op ≡ false → (t.finished ≡ s.finished) × (t.exit_code ≡ s.exit_code)
  pub icount_same : t.icount ≡ s.icount

pub get_or-set_other :
    (xs : List ℕ) (i r v : ℕ) → (i == r) ≡ false → get_or (set xs i v) r 0 ≡ get_or xs r 0
get_or-set_other [] i r v h = refl
get_or-set_other (x ∷ xs) zero zero v h = absurd (ground arith)
get_or-set_other (x ∷ xs) zero (suc r) v h = refl
get_or-set_other (x ∷ xs) (suc i) zero v h = refl
get_or-set_other (x ∷ xs) (suc i) (suc r) v h = get_or-set_other xs i r v (ground arith)

module _ {M : Type 0} where
  same-IsFrame : (op : Opcode) (rd : ℕ) (s : CpuState M) → IsFrame op rd s s
  same-IsFrame op rd s = record {
    others = λ r h. refl;
    memory_same = λ h. refl;
    running = λ h. (refl, refl);
    icount_same = refl;
  }

  set_pc-IsFrame :
      (op : Opcode) (rd pc : ℕ) (s t : CpuState M)
      → IsFrame op rd s t
      → IsFrame op rd s (set_pc pc t)
  unfolding set_pc
  set_pc-IsFrame op rd pc s t h = record {
    others = h.others;
    memory_same = h.memory_same;
    running = h.running;
    icount_same = h.icount_same;
  }

  set_reg-IsFrame :
      (op : Opcode) (rd val : ℕ) (s t : CpuState M)
      → IsFrame op rd s t
      → IsFrame op rd s (set_reg rd val t)
  unfolding set_reg
  set_reg-IsFrame op rd val s t h = elim (Bool-cases (rd == 0)) [
    | inl e ↦ rw e h
    | inr e ↦ rw e (record {
      others = λ r n. get_or-set_other t.regs rd r val n ∙ h.others r n;
      memory_same = h.memory_same;
      running = h.running;
      icount_same = h.icount_same;
    })
  ]

module _ {M : Type 0} (mem : MemoryOps M) (n : Instruction) (s : CpuState M) where
  abbrev Frame : Opcode → CpuState M → Type 0
  Frame op t = IsFrame op n.rd s t

  same-Frame : (op : Opcode) → Frame op s
  same-Frame op = same-IsFrame op n.rd s

  set-Frame : (op : Opcode) (val : ℕ) → Frame op (set_reg n.rd val s)
  set-Frame op val = set_reg-IsFrame op n.rd val s s (same-Frame op)

  br-Frame : (op : Opcode) (cond : ℕ → ℕ → Bool) → Ensures (Frame op) (br_helper cond n s)
  unfolding br_helper
  br-Frame op cond = set_pc-IsFrame op n.rd _ s s (same-Frame op)

  auipc-Frame : Ensures (Frame Opcode.auipc) (do_auipc n s)
  unfolding do_auipc
  auipc-Frame = set_reg-IsFrame Opcode.auipc n.rd _ s s (same-Frame Opcode.auipc)

  lui-Frame : Ensures (Frame Opcode.lui) (do_lui n s)
  unfolding do_lui
  lui-Frame = set_reg-IsFrame Opcode.lui n.rd _ s s (same-Frame Opcode.lui)

  jal-Frame : Ensures (Frame Opcode.jal) (do_jal n s)
  unfolding do_jal
  jal-Frame =
      set_pc-IsFrame Opcode.jal n.rd _ s _
        (set_reg-IsFrame Opcode.jal n.rd _ s s (same-Frame Opcode.jal))

  jalr-Frame : Ensures (Frame Opcode.jalr) (do_jalr n s)
  unfolding do_jalr
  jalr-Frame =
      set_reg-IsFrame Opcode.jalr n.rd _ s _
        (set_pc-IsFrame Opcode.jalr n.rd _ s s (same-Frame Opcode.jalr))

  ecall-Frame : Ensures (Frame Opcode.ecall) (do_ecall n s)
  unfolding do_ecall emulate_sys_call
  ecall-Frame =
      if-Ensures (Frame Opcode.ecall) (get_or s.regs 17 0 == 93) (ok _) _
        (record {
          others = λ r h. refl;
          memory_same = λ h. refl;
          running = λ h. cc;
          icount_same = refl;
        })
        tt

  load-Frame :
      (op : Opcode) (width : Width) (is_signed : Bool)
      → Ensures (Frame op) (load_helper mem width is_signed n s)
  unfolding load_helper
  load-Frame op width is_signed =
      >>=-Ensures (λ v. Unit {0}) (Frame op) (read mem width _ s.memory) _ (any-Ensures _)
        λ v _. set_reg-IsFrame op n.rd _ s s (same-Frame op)

  store-Frame :
      (op : Opcode) (width : Width)
      → is_store op ≡ true
      → Ensures (Frame op) (store_helper mem width n s)
  unfolding store_helper
  store-Frame op width st =
      >>=-Ensures (λ m. Unit {0}) (Frame op) (write mem width _ _ s.memory) _ (any-Ensures _)
        λ m _. record {
          others = λ r h. refl;
          memory_same = λ h. cc;
          running = λ h. (refl, refl);
          icount_same = refl;
        }

  handler-Frame : (op : Opcode) → Ensures (Frame op) (handler mem op n s)
  unfolding handler register_register_op register_imm_op do_add do_addi do_and do_andi do_beq do_bge
      do_bgeu do_blt do_bltu do_bne do_ebreak do_fence do_lb do_lbu do_lh do_lhu do_lw do_or do_ori
      do_pause do_sb do_sbreak do_scall do_sh do_sll do_slli do_slt do_slti do_sltiu do_sltu do_sra
      do_srai do_srl do_srli do_sub do_sw do_xor do_xori
  handler-Frame Opcode.add = set-Frame Opcode.add _
  handler-Frame Opcode.addi = set-Frame Opcode.addi _
  handler-Frame Opcode.and = set-Frame Opcode.and _
  handler-Frame Opcode.andi = set-Frame Opcode.andi _
  handler-Frame Opcode.auipc = auipc-Frame
  handler-Frame Opcode.beq = br-Frame Opcode.beq ◌==◌
  handler-Frame Opcode.bge = br-Frame Opcode.bge (λ a b. not (signed_less a b))
  handler-Frame Opcode.bgeu = br-Frame Opcode.bgeu (λ a b. leb b a)
  handler-Frame Opcode.blt = br-Frame Opcode.blt (signed_less)
  handler-Frame Opcode.bltu = br-Frame Opcode.bltu (ltb)
  handler-Frame Opcode.bne = br-Frame Opcode.bne (λ a b. not (a == b))
  handler-Frame Opcode.ebreak = same-Frame Opcode.ebreak
  handler-Frame Opcode.ecall = ecall-Frame
  handler-Frame Opcode.fence = same-Frame Opcode.fence
  handler-Frame Opcode.jal = jal-Frame
  handler-Frame Opcode.jalr = jalr-Frame
  handler-Frame Opcode.lb = load-Frame Opcode.lb byte true
  handler-Frame Opcode.lbu = load-Frame Opcode.lbu byte false
  handler-Frame Opcode.lh = load-Frame Opcode.lh half true
  handler-Frame Opcode.lhu = load-Frame Opcode.lhu half false
  handler-Frame Opcode.lui = lui-Frame
  handler-Frame Opcode.lw = load-Frame Opcode.lw word false
  handler-Frame Opcode.or = set-Frame Opcode.or _
  handler-Frame Opcode.ori = set-Frame Opcode.ori _
  handler-Frame Opcode.pause = same-Frame Opcode.pause
  handler-Frame Opcode.sb = store-Frame Opcode.sb byte refl
  handler-Frame Opcode.sbreak = same-Frame Opcode.sbreak
  handler-Frame Opcode.scall = same-Frame Opcode.scall
  handler-Frame Opcode.sh = store-Frame Opcode.sh half refl
  handler-Frame Opcode.sll = set-Frame Opcode.sll _
  handler-Frame Opcode.slli = set-Frame Opcode.slli _
  handler-Frame Opcode.slt = set-Frame Opcode.slt _
  handler-Frame Opcode.slti = set-Frame Opcode.slti _
  handler-Frame Opcode.sltiu = set-Frame Opcode.sltiu _
  handler-Frame Opcode.sltu = set-Frame Opcode.sltu _
  handler-Frame Opcode.sra = set-Frame Opcode.sra _
  handler-Frame Opcode.srai = set-Frame Opcode.srai _
  handler-Frame Opcode.srl = set-Frame Opcode.srl _
  handler-Frame Opcode.srli = set-Frame Opcode.srli _
  handler-Frame Opcode.sub = set-Frame Opcode.sub _
  handler-Frame Opcode.sw = store-Frame Opcode.sw word refl
  handler-Frame Opcode.xor = set-Frame Opcode.xor _
  handler-Frame Opcode.xori = set-Frame Opcode.xori _
  handler-Frame Opcode.num_opcodes = tt

  -- An instruction that is executed to its end leaves alone all registers but its destination, the
  -- memory if it is no store, the end flag and the exit code if it is no call, and the count of
  -- instructions.
  pub execute-IsFrame : Ensures (IsFrame n.opcode n.rd s) (execute mem n s)
  unfolding execute
  execute-IsFrame =
      >>=-Ensures (Frame n.opcode) (Frame n.opcode) _ _ (handler-Frame n.opcode) λ s' h'.
        >>=-Ensures (λ b. Unit {0}) (Frame n.opcode) (changes_pc n.opcode) _ (any-Ensures _)
          (elim [ true ↦ λ _. h' | false ↦ λ _. set_pc-IsFrame n.opcode n.rd _ s s' h' ])
