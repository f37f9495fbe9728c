-- ===== src/Core/Rvc/Alu.antt =====
-- The compressed operations of difftest/src/rv_core.hpp in the groups of the ALU and of the moves.
use hdu_riscv_lab.Prelude.{ℕ, ◌^◌, ◌<◌, ◌≡◌, ◌≢◌, refl, ap, arith, Bool, true, false, ◌==◌, some}
use hdu_riscv_lab.Word.{add64, sext, get_bits}
use hdu_riscv_lab.Alu.{AluOp, alu_add, alu_srl, alu_sra, alu_and, alu_exec, alu_switch}
use hdu_riscv_lab.Csr.{nonzero}
use hdu_riscv_lab.Core.{Core, reg}
use hdu_riscv_lab.Core.Rvc.{binary_concat, imm6, short_rs1, full_rd, full_rs2}
use hdu_riscv_lab.Core.Rvc.Cases.{computes, c_alu, c_alu_table, c_jr_mv_eb_jalr_add}
use hdu_riscv_lab.Core.Rvc.Expansion.{
  signed_field, reg_full, reg_full2, reg_short, reg_short2, bits6,
}
use hdu_riscv_lab.Core.Rvc.Immediates.{
  imm6_same, imm6-extended, short1_same, short2_same, full_same, full2_same,
}
use hdu_riscv_lab.Core.Rvc.Immediate.{computes_same}

module _ (c : Core) (inst : ℕ) where
  pub srli_lem :
      get_bits 10 2 inst ≡ 0
      → bits6 inst ≢ 0
      → c_alu c inst
        ≡ computes c (reg_short inst) (reg c (reg_short inst)) (bits6 inst) alu_srl false
  unfolding c_alu
  srli_lem k h =
      let taken : nonzero (imm6 inst) ≡ true = ground (arith, imm6_same inst) in
      let high : nonzero (binary_concat inst 11 11 0) ≡ false = ground arith in
      let low : nonzero (binary_concat inst 10 10 0) ≡ false = ground arith in
      rw (high, low, taken)
        (computes_same c (short_rs1 inst) (reg_short inst) _ _ alu_srl false (short1_same inst)
          (imm6_same inst))

  pub srai_lem :
      get_bits 10 2 inst ≡ 1
      → bits6 inst ≢ 0
      → c_alu c inst
        ≡ computes c (reg_short inst) (reg c (reg_short inst)) (bits6 inst) alu_sra false
  unfolding c_alu
  srai_lem k h =
      let taken : nonzero (imm6 inst) ≡ true = ground (arith, imm6_same inst) in
      let high : nonzero (binary_concat inst 11 11 0) ≡ false = ground arith in
      let low : nonzero (binary_concat inst 10 10 0) ≡ true = ground arith in
      rw (high, low, taken)
        (computes_same c (short_rs1 inst) (reg_short inst) _ _ alu_sra false (short1_same inst)
          (imm6_same inst))

  pub andi_lem :
      get_bits 10 2 inst ≡ 2
      → c_alu c inst
        ≡ computes c
            (reg_short inst)
            (reg c (reg_short inst))
            (sext 12 (signed_field 6 12 (bits6 inst)))
            alu_and
            false
  unfolding c_alu
  andi_lem k =
      let high : nonzero (binary_concat inst 11 11 0) ≡ true = ground arith in
      let low : nonzero (binary_concat inst 10 10 0) ≡ false = ground arith in
      rw (high, low)
        (computes_same c (short_rs1 inst) (reg_short inst) _ _ alu_and false (short1_same inst)
          (imm6-extended inst))

  pub arithmetic_lem :
      (o : AluOp) (op_32 : Bool)
      → get_bits 10 2 inst ≡ 3
      → c_alu_table (get_bits 5 2 inst) (nonzero (get_bits 12 1 inst)) ≡ some (o, op_32)
      → c_alu c inst
        ≡ computes c (reg_short inst) (reg c (reg_short inst)) (reg c (reg_short2 inst)) o op_32
  unfolding c_alu
  arithmetic_lem o op_32 k found =
      let high : nonzero (binary_concat inst 11 11 0) ≡ true = ground arith in
      let low : nonzero (binary_concat inst 10 10 0) ≡ true = ground arith in
      let funct2 : binary_concat inst 6 5 0 ≡ get_bits 5 2 inst = omega arith in
      let instr_12 : binary_concat inst 12 12 0 ≡ get_bits 12 1 inst = omega arith in
      rw (high, low)
        (rw (funct2, instr_12, found)
          (computes_same c (short_rs1 inst) (reg_short inst) _ _ o op_32 (short1_same inst)
            (ap (reg c) (short2_same inst))))

  pub mv_lem :
      reg c 0 ≡ 0
      → reg c (reg_full2 inst) < 2 ^ 64
      → get_bits 12 1 inst ≡ 0
      → reg_full2 inst ≢ 0
      → c_jr_mv_eb_jalr_add c inst
        ≡ computes c (reg_full inst) (reg c 0) (reg c (reg_full2 inst)) alu_add false
  unfolding c_jr_mv_eb_jalr_add alu_exec alu_switch
  mv_lem zero_reg fits k h =
      let bit : nonzero (binary_concat inst 12 12 0) ≡ false = ground arith in
      let no_jr : (full_rs2 inst == 0) ≡ false = ground arith in
      let sum : add64 0 (reg c (reg_full2 inst)) ≡ reg c (reg_full2 inst) = omega arith in
      rw (bit, no_jr) (rw (zero_reg, full_same inst, full2_same inst, sum) refl)

  pub add_lem :
      get_bits 12 1 inst ≡ 1
      → reg_full2 inst ≢ 0
      → c_jr_mv_eb_jalr_add c inst
        ≡ computes c (reg_full inst) (reg c (reg_full inst)) (reg c (reg_full2 inst)) alu_add false
  unfolding c_jr_mv_eb_jalr_add
  add_lem k h =
      let bit : nonzero (binary_concat inst 12 12 0) ≡ true = ground arith in
      let no_jr : (full_rs2 inst == 0) ≡ false = ground arith in
      rw (bit, no_jr)
        (computes_same c (full_rd inst) (reg_full inst) _ _ alu_add false (full_same inst)
          (ap (reg c) (full2_same inst)))
