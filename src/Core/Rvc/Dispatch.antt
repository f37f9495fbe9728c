-- ===== src/Core/Rvc/Dispatch.antt =====
-- The `switch` on the compressed opcode in `exec` of difftest/src/rv_core.hpp.
use hdu_riscv_lab.Prelude.{ℕ, Bool, not, ◌==◌, if◌then◌else◌, Outcome, ok}
use hdu_riscv_lab.Word.{add64}
use hdu_riscv_lab.Core.{Core, Done, illegal, reg}
use hdu_riscv_lab.Core.Rvc.{
  rvc_opcode, full_rd, full_rs2, short_rs1, short_rs2, word_imm, double_imm, lwsp_imm, ldsp_imm,
  swsp_imm, sdsp_imm, opcode_c_addi4spn, opcode_c_lw, opcode_c_ld, opcode_c_sw, opcode_c_sd,
  opcode_c_addi, opcode_c_addiw, opcode_c_li, opcode_c_addi16spn_lui, opcode_c_alu, opcode_c_j,
  opcode_c_beqz, opcode_c_bnez, opcode_c_slli, opcode_c_lwsp, opcode_c_ldsp,
  opcode_c_jr_mv_eb_jalr_add, opcode_c_swsp, opcode_c_sdsp,
}
use hdu_riscv_lab.Core.Rvc.Cases.{
  c_addi4spn, loads, stores, c_addi, c_addiw, c_li, c_addi16spn_lui, c_alu, c_j, c_branch, c_slli,
  c_jr_mv_eb_jalr_add,
}

-- The address of a load or store by a register of 3 bits.
abbrev pub short_address : Core → ℕ → ℕ → ℕ
short_address c inst imm = add64 (reg c (short_rs1 inst)) imm

module _ (run_riscv_test : Bool) where
  -- The `switch` on `rvc_opcode`.
  unfoldable pub rvc : Core → ℕ → Outcome Done
  rvc c inst =
      let code = rvc_opcode inst in
      if code == opcode_c_addi4spn
      then c_addi4spn c inst
      else if code == opcode_c_lw
      then loads c (short_address c inst (word_imm inst)) 4 (short_rs2 inst)
      else if code == opcode_c_ld
      then loads c (short_address c inst (double_imm inst)) 8 (short_rs2 inst)
      else if code == opcode_c_sw
      then stores run_riscv_test c (short_address c inst (word_imm inst)) 4 (short_rs2 inst)
      else if code == opcode_c_sd
      then stores run_riscv_test c (short_address c inst (double_imm inst)) 8 (short_rs2 inst)
      else if code == opcode_c_addi
      then c_addi c inst
      else if code == opcode_c_addiw
      then c_addiw c inst
      else if code == opcode_c_li
      then c_li c inst
      else if code == opcode_c_addi16spn_lui
      then c_addi16spn_lui c inst
      else if code == opcode_c_alu
      then c_alu c inst
      else if code == opcode_c_j
      then c_j c inst
      else if code == opcode_c_beqz
      then c_branch c inst (reg c (short_rs1 inst) == 0)
      else if code == opcode_c_bnez
      then c_branch c inst (not (reg c (short_rs1 inst) == 0))
      else if code == opcode_c_slli
      then c_slli c inst
      else if code == opcode_c_lwsp
      then loads c (add64 (reg c 2) (lwsp_imm inst)) 4 (full_rd inst)
      else if code == opcode_c_ldsp
      then loads c (add64 (reg c 2) (ldsp_imm inst)) 8 (full_rd inst)
      else if code == opcode_c_jr_mv_eb_jalr_add
      then c_jr_mv_eb_jalr_add c inst
      else if code == opcode_c_swsp
      then stores run_riscv_test c (add64 (reg c 2) (swsp_imm inst)) 4 (full_rs2 inst)
      else if code == opcode_c_sdsp
      then stores run_riscv_test c (add64 (reg c 2) (sdsp_imm inst)) 8 (full_rs2 inst)
      else ok (illegal c)
