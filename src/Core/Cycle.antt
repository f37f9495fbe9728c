-- ===== src/Core/Cycle.antt =====
-- That the whole of `exec` in difftest/src/rv_core.hpp keeps the size of the register file, x0, and words
-- and bytes.
use hdu_riscv_lab.Prelude.{
  ℕ, ◌%◌, ◌<◌, ◌^◌, ◌≡◌, arith, Bool, true, false, not, ◌&&◌, leb, ◌==◌, if◌then◌else◌, Outcome, ok,
  exits, aborts, faults, ◌∙◌, length, subst,
}
use hdu_riscv_lab.Word.{add64}
use hdu_riscv_lab.Bytes.{of_bytes}
use hdu_riscv_lab.Bytes.Reads.{of_bytes-IsRead}
use hdu_riscv_lab.Csr.{exc_instr_misalign, exc_illegal_instr, exc_custom_ok}
use hdu_riscv_lab.Priv.{Priv}
use hdu_riscv_lab.Priv.Trap.{pre_exec, check_and_raise_int, post_exec}
use hdu_riscv_lab.Priv.Typed as Csrs
use hdu_riscv_lab.Priv.Typed.{
  csr_read-IsTyped, csr_write-IsTyped, ecall-IsTyped, ebreak-IsTyped, mret-IsTyped, sret-IsTyped,
  sfence_vma-IsTyped, pre_exec-IsTyped, check_and_raise_int-IsTyped, post_exec-IsTyped, trap_pc-lt,
}
use hdu_riscv_lab.Priv.Access.{va_if}
use hdu_riscv_lab.Priv.AccessTyped.{HasFetched, va_if-HasFetched}
use hdu_riscv_lab.Instr.{rd, rs1, u_imm, j_imm, jalr_imm, opcode}
use hdu_riscv_lab.Core.{Core, Done, reg}
use hdu_riscv_lab.Core.Typed.{IsTyped}
use hdu_riscv_lab.Core.Control.{lui, auipc, jal, jalr}
use hdu_riscv_lab.Core.Exec.{
  exec_opcode, is_rvc, decode_exec, finish_exec, exception, fetch_exec, debug_cleared, exec,
}
use hdu_riscv_lab.Core.Operations.{
  Preserves, link_to-Keeps, branch-Preserves, opimm-Preserves, opimm32-Preserves, op-Preserves,
  op32-Preserves,
}
use hdu_riscv_lab.Core.Preservation.{load-Preserves, store-Preserves, amo-Preserves}
use hdu_riscv_lab.Core.Registers.{
  Kept, Keeps, self, after, unchanged, priv-Kept, pc-Kept, Keeps->>=, Keeps-after, Keeps-if,
  writes-Keeps, trapped-Keeps,
}
use hdu_riscv_lab.Core.Privileged.{system-Preserves}

module _ (run_test only_m : Bool) where
  exec_opcode-Preserves : Preserves (exec_opcode run_test only_m)
  unfolding exec_opcode lui auipc jal jalr
  exec_opcode-Preserves c inst =
      Keeps-if c after (opcode inst == 0x37) _ _
        (writes-Keeps c c (rd inst) (u_imm inst) (unchanged c) (λ t. omega arith))
        (Keeps-if c after (opcode inst == 0x17) _ _
          (writes-Keeps c c (rd inst) (add64 (u_imm inst) c.pc) (unchanged c) (λ t. omega arith))
          (Keeps-if c after (opcode inst == 0x6f) _ _
            (link_to-Keeps c inst (add64 c.pc (j_imm inst)) (omega arith))
            (Keeps-if c after (opcode inst == 0x67) _ _
              (link_to-Keeps c inst (add64 (reg c (rs1 inst)) (jalr_imm inst)) (omega arith))
              (Keeps-if c after (opcode inst == 0x63) _ _ (branch-Preserves c inst) (
                Keeps-if c after (opcode inst == 0x03) _ _ (load-Preserves c inst) (
                  Keeps-if c after (opcode inst == 0x23) _ _ (store-Preserves run_test c inst) (
                    Keeps-if c after (opcode inst == 0x13) _ _ (opimm-Preserves c inst) (
                      Keeps-if c after (opcode inst == 0x1b) _ _ (opimm32-Preserves c inst) (
                        Keeps-if c after (opcode inst == 0x33) _ _ (op-Preserves c inst) (
                          Keeps-if c after (opcode inst == 0x3b) _ _ (op32-Preserves c inst) (
                            Keeps-if c after (opcode inst == 0x2f) _ _ (amo-Preserves c inst) (
                              Keeps-if c after (opcode inst == 0x0f) _ _ (unchanged c) (
                                Keeps-if c after (opcode inst == 0x73) _ _
                                  (system-Preserves run_test only_m c inst)
                                  (unchanged c))))))))))))))

-- The pc of the next instruction.
next-lt :
    (c : Core) (trapped new_pc rvc : Bool)
    → IsTyped c
    → (if trapped
        then c.priv.trap_pc
        else if new_pc
        then c.pc
        else add64 c.pc (if rvc then 2 else 4))
      < 2 ^ 64
next-lt c true new_pc rvc (words, at, csrs, held) = trap_pc-lt c.priv csrs
next-lt c false true rvc (words, at, csrs, held) = at
next-lt c false false rvc t = omega arith

finish_exec-Keeps :
    (c0 c : Core) (new_pc rvc : Bool) → Kept c0 c → Keeps c0 self (finish_exec c new_pc rvc)
unfolding finish_exec
finish_exec-Keeps c0 c new_pc rvc h =
    let next =
      if c.priv.cur_need_trap
      then c.priv.trap_pc
      else if new_pc
      then c.pc
      else add64 c.pc (if rvc then 2 else 4) in
    let moved = pc-Kept c0 c h next (λ t. next-lt c c.priv.cur_need_trap new_pc rvc (h.2 t)) in
    Keeps-after c0 self Csrs.IsTyped (post_exec c.priv) _
      (λ t. post_exec-IsTyped c.priv ((h.2 t).2))
      (λ p new. priv-Kept c0 (record c { pc = next }) moved p new)

exception-Keeps :
    (c0 : Core) (d : Done) (inst : ℕ)
    → Kept c0 d.core
    → (IsTyped c0 → inst < 2 ^ 64)
    → Keeps c0 self (exception d inst)
unfolding exception
exception-Keeps c0 d inst h word =
    Keeps-if c0 self d.ri _ _
      (trapped-Keeps c0 d.core self exc_illegal_instr inst _ h word
        (λ c kept. finish_exec-Keeps c0 c d.new_pc (is_rvc inst) kept))
      (finish_exec-Keeps c0 d.core d.new_pc (is_rvc inst) h)

module _ (run_test only_m : Bool) where
  decode_exec-Preserves : Preserves (decode_exec run_test only_m)
  unfolding decode_exec
  decode_exec-Preserves c inst =
      Keeps-if c after (not (is_rvc inst)) _ _ (exec_opcode-Preserves run_test only_m c inst)
        (unchanged c)

  -- The same, of a core that follows another.
  decode_exec-Keeps :
      (c0 c : Core) (inst : ℕ) → Kept c0 c → Keeps c0 after (decode_exec run_test only_m c inst)
  decode_exec-Keeps c0 c inst (len, zero_reg, typed) =
      from (decode_exec run_test only_m c inst) (decode_exec-Preserves c inst)
    where
      from : (m : Outcome Done) → Keeps c after m → Keeps c0 after m
      from (ok d) (len', zero', typed') = (len' ∙ len, zero' ∙ zero_reg, λ t. typed' (typed t))
      from (exits n) h = tt
      from aborts h = tt
      from faults h = tt

  fetch_exec-Keeps : (c0 c : Core) → Kept c0 c → Keeps c0 self (fetch_exec run_test only_m c)
  unfolding fetch_exec
  fetch_exec-Keeps c0 c h =
      Keeps-if c0 self c.priv.cur_need_trap _ _ (finish_exec-Keeps c0 c false false h) (
        Keeps-if c0 self (not (c.pc % 4 == 0)) _ _
          (trapped-Keeps c0 c self exc_instr_misalign c.pc _ h (λ t. (h.2 t).1)
            (λ c' kept. finish_exec-Keeps c0 c' false false kept))
          (Keeps-after c0 self HasFetched (va_if c.priv c.bus c.pc 4) _
            (λ t.
              let (words, at, csrs, held) = h.2 t in
              va_if-HasFetched c.priv c.bus c.pc csrs held at)
            (λ (p, if_exc, bytes, bad_va) fetched.
              let inst = of_bytes bytes in
              let c' = record c { priv = p } in
              let kept = priv-Kept c0 c h p (λ t. (fetched t).0) in
              Keeps-if c0 self (not (if_exc == exc_custom_ok)) _ _
                (trapped-Keeps c0 c' self if_exc bad_va _ kept (λ t. (fetched t).2)
                  (λ c'' kept'. finish_exec-Keeps c0 c'' false false kept'))
                (Keeps->>= c0 self after
                  (decode_exec run_test only_m (record c' { debug_inst = inst }) inst) _
                  (decode_exec-Keeps c0 (record c' { debug_inst = inst }) inst kept)
                  (λ d kept'.
                    exception-Keeps c0 d inst kept'
                      (λ t. of_bytes-IsRead 4 bytes (omega arith) (fetched t).1))))))

  exec-Keeps :
      (c : Core) (meip msip mtip seip : Bool)
      → Keeps c self (exec run_test only_m c meip msip mtip seip)
  unfolding exec
  exec-Keeps c meip msip mtip seip =
      let begin = λ (p : Priv) (new : IsTyped c → Csrs.IsTyped p).
        fetch_exec-Keeps c (record (debug_cleared c) { priv = p })
          (priv-Kept c (debug_cleared c) (unchanged c) p new) in
      Keeps-if c self (run_test && leb 2000000 c.priv.mcycle) _ _ tt (
        Keeps-if c self (not c.difftest_mode) _ _
          (Keeps-after c self Csrs.IsTyped (pre_exec c.priv c.pc meip msip mtip seip) _
            (λ (words, at, csrs, held). pre_exec-IsTyped c.priv c.pc meip msip mtip seip at csrs)
            begin)
          (Keeps-if c self c.int_allow _ _
            (Keeps-after c self Csrs.IsTyped (check_and_raise_int c.priv c.pc) _
              (λ (words, at, csrs, held). check_and_raise_int-IsTyped c.priv c.pc at csrs) begin)
            (fetch_exec-Keeps c (debug_cleared c) (unchanged c))))

  -- A cycle that returns, whatever instruction it runs and whatever traps it takes, leaves the number of
  -- registers and the value of x0 as they were.
  pub exec-Kept :
      (c c' : Core) (meip msip mtip seip : Bool)
      → exec run_test only_m c meip msip mtip seip ≡ ok c'
      → (length c'.gpr ≡ length c.gpr) × (reg c' 0 ≡ reg c 0)
  exec-Kept c c' meip msip mtip seip e =
      let (len, zero_reg, typed) = subst (Keeps c self) e (exec-Keeps c meip msip mtip seip) in
      (len, zero_reg)

  -- The words and bytes that the other theorems ask for are kept over a cycle.
  exec-IsTyped :
      (c c' : Core) (meip msip mtip seip : Bool)
      → IsTyped c
      → exec run_test only_m c meip msip mtip seip ≡ ok c'
      → IsTyped c'
  exec-IsTyped c c' meip msip mtip seip t e =
      (subst (Keeps c self) e (exec-Keeps c meip msip mtip seip)).2 t
