-- ===== src/Core/Rvc/Computes.antt =====
-- The compressed operations of difftest/src/rv_core.hpp do what their expansions do.
use hdu_riscv_lab.Prelude.{
  ℕ, ◌+◌, ◌/◌, ◌^◌, ◌<◌, ◌≡◌, refl, ap, ◌∙◌, arith, Bool, true, false, some,
}
use hdu_riscv_lab.Word.{sext}
use hdu_riscv_lab.Alu.{AluOp, alu_add, alu_sub, alu_sll, alu_xor, alu_srl, alu_sra, alu_or, alu_and}
use hdu_riscv_lab.Csr.{nonzero}
use hdu_riscv_lab.Instr.Formats.{i_type, r_type}
use hdu_riscv_lab.Core.{Core, reg}
use hdu_riscv_lab.Core.Compute.{opimm_table, opimm32_table, op_table, op32_table, base_op}
use hdu_riscv_lab.Core.Exec.{exec_opcode}
use hdu_riscv_lab.Core.Decoded.{computed, computed_regs}
use hdu_riscv_lab.Core.Words.{exec-opimm, exec-opimm32, exec-op, exec-op32}
use hdu_riscv_lab.Core.Rvc.Cases.{computes, c_alu_table}
use hdu_riscv_lab.Core.Rvc.Expansion.{Arithmetic, as_sub, as_xor, as_or, as_and, as_subw, as_addw}

module _ (rt om : Bool) (c : Core) (d s1 : ℕ) (d_fits : d < 32) (s1_fits : s1 < 32) where
  module _ (imm : ℕ) (imm_fits : imm < 4096) where
    -- The instructions with an immediate, as calls of the ALU.
    pub exec-addi :
        exec_opcode rt om c (i_type 0x13 d 0 s1 imm)
        ≡ computes c d (reg c s1) (sext 12 imm) alu_add false
    unfolding computed opimm_table base_op
    exec-addi = exec-opimm rt om c d 0 s1 imm d_fits (omega arith) s1_fits imm_fits

    pub exec-andi :
        exec_opcode rt om c (i_type 0x13 d 7 s1 imm)
        ≡ computes c d (reg c s1) (sext 12 imm) alu_and false
    unfolding computed opimm_table base_op
    exec-andi = exec-opimm rt om c d 7 s1 imm d_fits (omega arith) s1_fits imm_fits

    pub exec-addiw :
        exec_opcode rt om c (i_type 0x1b d 0 s1 imm)
        ≡ computes c d (reg c s1) (sext 12 imm) alu_add true
    unfolding computed opimm32_table
    exec-addiw = exec-opimm32 rt om c d 0 s1 imm d_fits (omega arith) s1_fits imm_fits

  module _ (shamt : ℕ) (shamt_fits : shamt < 64) where
    shift_table :
        (opimm_table (shamt / 2 ^ 5 / 2) 1 (sext 12 shamt) ≡ some (alu_sll, shamt))
        × (opimm_table (shamt / 2 ^ 5 / 2) 5 (sext 12 shamt) ≡ some (alu_srl, shamt))
        × (opimm_table ((0x400 + shamt) / 2 ^ 5 / 2) 5 (sext 12 (0x400 + shamt))
            ≡ some (alu_sra, shamt))
    unfolding opimm_table
    shift_table = (ground arith, ground arith, ground arith)

    pub exec-slli :
        exec_opcode rt om c (i_type 0x13 d 1 s1 shamt) ≡ computes c d (reg c s1) shamt alu_sll false
    unfolding computed
    exec-slli =
        exec-opimm rt om c d 1 s1 shamt d_fits (omega arith) s1_fits (omega arith)
        ∙ ap (λ o. computed c d (reg c s1) o false) shift_table.0

    pub exec-srli :
        exec_opcode rt om c (i_type 0x13 d 5 s1 shamt) ≡ computes c d (reg c s1) shamt alu_srl false
    unfolding computed
    exec-srli =
        exec-opimm rt om c d 5 s1 shamt d_fits (omega arith) s1_fits (omega arith)
        ∙ ap (λ o. computed c d (reg c s1) o false) shift_table.1

    pub exec-srai :
        exec_opcode rt om c (i_type 0x13 d 5 s1 (0x400 + shamt))
        ≡ computes c d (reg c s1) shamt alu_sra false
    unfolding computed
    exec-srai =
        exec-opimm rt om c d 5 s1 (0x400 + shamt) d_fits (omega arith) s1_fits (omega arith)
        ∙ ap (λ o. computed c d (reg c s1) o false) shift_table.2

  -- The operations on two registers that have a compressed form.
  pub exec-Arithmetic :
      (s2 b12 b65 op f3 f7 : ℕ)
      → s2 < 32
      → Arithmetic b12 b65 op f3 f7
      → (o : AluOp) × (op_32 : Bool) × (c_alu_table b65 (nonzero b12) ≡ some (o, op_32))
        × (exec_opcode rt om c (r_type op d f3 s1 s2 f7)
            ≡ computes c d (reg c s1) (reg c s2) o op_32)
  unfolding c_alu_table computed_regs op_table op32_table base_op
  exec-Arithmetic s2 b12 b65 op f3 f7 h as_sub = (
    alu_sub,
    false,
    refl,
    exec-op rt om c d 0 s1 s2 0x20 d_fits (omega arith) s1_fits h (omega arith),
  )
  exec-Arithmetic s2 b12 b65 op f3 f7 h as_xor = (
    alu_xor,
    false,
    refl,
    exec-op rt om c d 4 s1 s2 0 d_fits (omega arith) s1_fits h (omega arith),
  )
  exec-Arithmetic s2 b12 b65 op f3 f7 h as_or = (
    alu_or,
    false,
    refl,
    exec-op rt om c d 6 s1 s2 0 d_fits (omega arith) s1_fits h (omega arith),
  )
  exec-Arithmetic s2 b12 b65 op f3 f7 h as_and = (
    alu_and,
    false,
    refl,
    exec-op rt om c d 7 s1 s2 0 d_fits (omega arith) s1_fits h (omega arith),
  )
  exec-Arithmetic s2 b12 b65 op f3 f7 h as_subw = (
    alu_sub,
    true,
    refl,
    exec-op32 rt om c d 0 s1 s2 0x20 d_fits (omega arith) s1_fits h (omega arith),
  )
  exec-Arithmetic s2 b12 b65 op f3 f7 h as_addw = (
    alu_add,
    true,
    refl,
    exec-op32 rt om c d 0 s1 s2 0 d_fits (omega arith) s1_fits h (omega arith),
  )

  pub exec-add :
      (s2 : ℕ)
      → s2 < 32
      → exec_opcode rt om c (r_type 0x33 d 0 s1 s2 0)
        ≡ computes c d (reg c s1) (reg c s2) alu_add false
  unfolding computed_regs op_table base_op
  exec-add s2 h = exec-op rt om c d 0 s1 s2 0 d_fits (omega arith) s1_fits h (omega arith)
