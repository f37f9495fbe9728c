-- ===== src/Core/Exec.antt =====
-- `exec` and `step` of difftest/src/rv_core.hpp: fetch, dispatch on the opcode, and the end that all
-- instructions share.
use hdu_riscv_lab.Prelude.{
  ℕ, ◌%◌, Bool, false, not, ◌&&◌, leb, ◌==◌, if◌then◌else◌, Outcome, ok, exits, ◌>>=◌,
}
use hdu_riscv_lab.Word.{add64}
use hdu_riscv_lab.Bytes.{of_bytes}
use hdu_riscv_lab.Csr.{exc_custom_ok, exc_instr_misalign, exc_illegal_instr}
use hdu_riscv_lab.Priv.Trap.{pre_exec, check_and_raise_int, post_exec, difftest_preexec}
use hdu_riscv_lab.Priv.Access.{va_if}
use hdu_riscv_lab.Instr.Codes.{
  opcode_lui, opcode_auipc, opcode_jal, opcode_jalr, opcode_branch, opcode_load, opcode_store,
  opcode_opimm, opcode_opimm32, opcode_op, opcode_op32, opcode_amo, opcode_fence, opcode_system,
}
use hdu_riscv_lab.Instr.{opcode}
use hdu_riscv_lab.Core.{Core, Done, executed, illegal, trap}
use hdu_riscv_lab.Core.Control.{lui, auipc, jal, jalr, branch}
use hdu_riscv_lab.Core.Compute.{opimm, opimm32, op, op32}
use hdu_riscv_lab.Core.Access.{load, store, amo}
use hdu_riscv_lab.Core.System.{system}
use hdu_riscv_lab.Core.Rvc.Dispatch.{rvc}

unfoldable pub import_diff_test_info : Core → ℕ → ℕ → ℕ → Bool → Core
import_diff_test_info c mcycle minstret mip interrupt_on = record c {
  priv = difftest_preexec c.priv mcycle minstret mip;
  int_allow = interrupt_on;
}

unfoldable pub jump : Core → ℕ → Core
jump c new_pc = record c { pc = new_pc }

unfoldable pub set_difftest_mode : Core → Bool → Core
set_difftest_mode c value = record c { difftest_mode = value }

-- `hasCExt`: without it a compressed instruction is illegal.
abbrev pub has_c_ext : Bool
has_c_ext = false

abbrev pub is_rvc : ℕ → Bool
is_rvc inst = not (inst % 4 == 3)

-- The part behind the label `exception`, but for the illegal instruction.
unfoldable pub finish_exec : Core → Bool → Bool → Outcome Core
finish_exec c new_pc rvc =
    let next = if new_pc then c.pc else add64 c.pc (if rvc then 2 else 4) in
    let c' = record c { pc = if c.priv.cur_need_trap then c.priv.trap_pc else next } in
    post_exec c'.priv >>= λ p. ok (record c' { priv = p })

unfoldable pub exception : Done → ℕ → Outcome Core
exception d inst =
    if d.ri
    then (trap d.core exc_illegal_instr inst >>= λ c. finish_exec c d.new_pc (is_rvc inst))
    else finish_exec d.core d.new_pc (is_rvc inst)

abbrev pub debug_cleared : Core → Core
debug_cleared c = record c {
  debug_pc = c.pc;
  debug_is_branch = false;
  debug_reg_num = 0;
  debug_reg_wdata = 0;
}

module _ (run_riscv_test only_modeM : Bool) where
  -- The `switch` on the opcode.
  unfoldable pub exec_opcode : Core → ℕ → Outcome Done
  exec_opcode c inst =
      if opcode inst == opcode_lui
      then lui c inst
      else if opcode inst == opcode_auipc
      then auipc c inst
      else if opcode inst == opcode_jal
      then jal c inst
      else if opcode inst == opcode_jalr
      then jalr c inst
      else if opcode inst == opcode_branch
      then branch c inst
      else if opcode inst == opcode_load
      then load c inst
      else if opcode inst == opcode_store
      then store run_riscv_test c inst
      else if opcode inst == opcode_opimm
      then opimm c inst
      else if opcode inst == opcode_opimm32
      then opimm32 c inst
      else if opcode inst == opcode_op
      then op c inst
      else if opcode inst == opcode_op32
      then op32 c inst
      else if opcode inst == opcode_amo
      then amo c inst
      else if opcode inst == opcode_fence
      then ok (executed c)
      else if opcode inst == opcode_system
      then system run_riscv_test only_modeM c inst
      else ok (illegal c)

  unfoldable pub decode_exec : Core → ℕ → Outcome Done
  decode_exec c inst =
      if not (is_rvc inst)
      then exec_opcode c inst
      else if not has_c_ext
      then ok (illegal c)
      else rvc run_riscv_test c inst

  -- From the fetch on. A trap before the decoding leaves `is_rvc` false.
  unfoldable pub fetch_exec : Core → Outcome Core
  fetch_exec c =
      if c.priv.cur_need_trap
      then finish_exec c false false
      else if not (c.pc % 4 == 0)
      then (trap c exc_instr_misalign c.pc >>= λ c'. finish_exec c' false false)
      else (va_if c.priv c.bus c.pc 4 >>= λ (p, if_exc, bytes, pc_bad_va).
          let c' = record c { priv = p } in
          let inst = of_bytes bytes in
          if not (if_exc == exc_custom_ok)
          then (trap c' if_exc pc_bad_va >>= λ c''. finish_exec c'' false false)
          else (decode_exec (record c' { debug_inst = inst }) inst >>= λ d. exception d inst))

  -- `exec`; `step` calls it. A test that runs for 2000000 cycles is stopped.
  unfoldable pub exec : Core → Bool → Bool → Bool → Bool → Outcome Core
  exec c meip msip mtip seip =
      let c' = debug_cleared c in
      if run_riscv_test && leb 2000000 c.priv.mcycle
      then exits 1
      else if not c.difftest_mode
      then (pre_exec c'.priv c.pc meip msip mtip seip >>= λ p. fetch_exec (record c' { priv = p }))
      else if c.int_allow
      then (check_and_raise_int c'.priv c.pc >>= λ p. fetch_exec (record c' { priv = p }))
      else fetch_exec c'
