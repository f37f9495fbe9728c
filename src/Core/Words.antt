-- ===== src/Core/Words.antt =====
-- What `exec` of difftest/src/rv_core.hpp does with the words of the 32-bit encoding, by their format.
use hdu_riscv_lab.Prelude.{ℕ, ◌/◌, ◌%◌, ◌^◌, ◌<◌, ◌≡◌, ap, ◌∙◌, arith, Bool, true, false}
use hdu_riscv_lab.Word.{add64, sext, shl64}
use hdu_riscv_lab.Instr.{u_imm}
use hdu_riscv_lab.Instr.Formats.{
  r_type, i_type, s_type, u_type, r_type-Fields, imm12_lem, s_imm_lem, u_type-fields,
}
use hdu_riscv_lab.Core.{Core, reg, writes}
use hdu_riscv_lab.Core.Compute.{opimm_table, opimm32_table, op_table, op32_table}
use hdu_riscv_lab.Core.Rvc.Cases.{loads, stores}
use hdu_riscv_lab.Core.Exec.{exec_opcode}
use hdu_riscv_lab.Core.Decoded.{
  computed, computed_regs, i_type-Fields, opimm-Fields, opimm32-Fields, op-Fields, op32-Fields,
  load_as-Fields, store_as-Fields, is_opimm, is_opimm32, is_op, is_op32, is_lui, is_lw, is_ld,
  is_sw, is_sd,
}

module _ (rt om : Bool) (c : Core) where
  module _ (d f3 s1 imm : ℕ) (d_fits : d < 32) (f3_fits : f3 < 8) (s1_fits : s1 < 32)
      (imm_fits : imm < 4096) where
    pub exec-opimm :
        exec_opcode rt om c (i_type 0x13 d f3 s1 imm)
        ≡ computed c d (reg c s1) (opimm_table (imm / 2 ^ 5 / 2) f3 (sext 12 imm)) false
    exec-opimm =
        let f = i_type-Fields 0x13 d f3 s1 imm (omega arith) d_fits f3_fits s1_fits imm_fits in
        is_opimm rt om c (i_type 0x13 d f3 s1 imm) f.opcode_is
        ∙ opimm-Fields c (i_type 0x13 d f3 s1 imm) d f3 s1 _ _ (sext 12 imm) 0x13 f
            (imm12_lem 0x13 d f3 s1 imm (omega arith) d_fits f3_fits s1_fits imm_fits)

    pub exec-opimm32 :
        exec_opcode rt om c (i_type 0x1b d f3 s1 imm)
        ≡ computed c d (reg c s1) (opimm32_table (imm / 2 ^ 5) f3 (sext 12 imm)) true
    exec-opimm32 =
        let f = i_type-Fields 0x1b d f3 s1 imm (omega arith) d_fits f3_fits s1_fits imm_fits in
        is_opimm32 rt om c (i_type 0x1b d f3 s1 imm) f.opcode_is
        ∙ opimm32-Fields c (i_type 0x1b d f3 s1 imm) d f3 s1 _ _ (sext 12 imm) 0x1b f
            (imm12_lem 0x1b d f3 s1 imm (omega arith) d_fits f3_fits s1_fits imm_fits)

  module _ (d s1 imm : ℕ) (d_fits : d < 32) (s1_fits : s1 < 32) (imm_fits : imm < 4096) where
    pub exec-lw :
        exec_opcode rt om c (i_type 3 d 2 s1 imm) ≡ loads c (add64 (reg c s1) (sext 12 imm)) 4 d
    exec-lw =
        let f = i_type-Fields 3 d 2 s1 imm (omega arith) d_fits (omega arith) s1_fits imm_fits in
        is_lw rt om c (i_type 3 d 2 s1 imm) f.opcode_is f.funct3_is
        ∙ load_as-Fields c (i_type 3 d 2 s1 imm) d 2 s1 _ _ (sext 12 imm) 3 f 4
            (imm12_lem 3 d 2 s1 imm (omega arith) d_fits (omega arith) s1_fits imm_fits)

    pub exec-ld :
        exec_opcode rt om c (i_type 3 d 3 s1 imm) ≡ loads c (add64 (reg c s1) (sext 12 imm)) 8 d
    exec-ld =
        let f = i_type-Fields 3 d 3 s1 imm (omega arith) d_fits (omega arith) s1_fits imm_fits in
        is_ld rt om c (i_type 3 d 3 s1 imm) f.opcode_is f.funct3_is
        ∙ load_as-Fields c (i_type 3 d 3 s1 imm) d 3 s1 _ _ (sext 12 imm) 3 f 8
            (imm12_lem 3 d 3 s1 imm (omega arith) d_fits (omega arith) s1_fits imm_fits)

  module _ (s1 s2 imm : ℕ) (s1_fits : s1 < 32) (s2_fits : s2 < 32) (imm_fits : imm < 4096) where
    pub exec-sw :
        exec_opcode rt om c (s_type 0x23 2 s1 s2 imm)
        ≡ stores rt c (add64 (reg c s1) (sext 12 imm)) 4 s2
    exec-sw =
        let f =
          r_type-Fields 0x23 (imm % 2 ^ 5) 2 s1 s2 (imm / 2 ^ 5) (omega arith) (omega arith)
            (omega arith) s1_fits s2_fits (omega arith) in
        is_sw rt om c (s_type 0x23 2 s1 s2 imm) f.opcode_is f.funct3_is
        ∙ store_as-Fields c (s_type 0x23 2 s1 s2 imm) _ 2 s1 s2 _ (sext 12 imm) 0x23 f rt 4
            (s_imm_lem 0x23 2 s1 s2 imm (omega arith) (omega arith) s1_fits s2_fits imm_fits)

    pub exec-sd :
        exec_opcode rt om c (s_type 0x23 3 s1 s2 imm)
        ≡ stores rt c (add64 (reg c s1) (sext 12 imm)) 8 s2
    exec-sd =
        let f =
          r_type-Fields 0x23 (imm % 2 ^ 5) 3 s1 s2 (imm / 2 ^ 5) (omega arith) (omega arith)
            (omega arith) s1_fits s2_fits (omega arith) in
        is_sd rt om c (s_type 0x23 3 s1 s2 imm) f.opcode_is f.funct3_is
        ∙ store_as-Fields c (s_type 0x23 3 s1 s2 imm) _ 3 s1 s2 _ (sext 12 imm) 0x23 f rt 8
            (s_imm_lem 0x23 3 s1 s2 imm (omega arith) (omega arith) s1_fits s2_fits imm_fits)

  module _ (d f3 s1 s2 f7 : ℕ) (d_fits : d < 32) (f3_fits : f3 < 8) (s1_fits : s1 < 32)
      (s2_fits : s2 < 32) (f7_fits : f7 < 128) where
    pub exec-op :
        exec_opcode rt om c (r_type 0x33 d f3 s1 s2 f7)
        ≡ computed_regs c d (reg c s1) (reg c s2) (op_table f7 f3) false
    exec-op =
        let f =
          r_type-Fields 0x33 d f3 s1 s2 f7 (omega arith) d_fits f3_fits s1_fits s2_fits f7_fits in
        is_op rt om c (r_type 0x33 d f3 s1 s2 f7) f.opcode_is
        ∙ op-Fields c (r_type 0x33 d f3 s1 s2 f7) d f3 s1 s2 f7 0 0x33 f

    pub exec-op32 :
        exec_opcode rt om c (r_type 0x3b d f3 s1 s2 f7)
        ≡ computed_regs c d (reg c s1) (reg c s2) (op32_table f7 f3) true
    exec-op32 =
        let f =
          r_type-Fields 0x3b d f3 s1 s2 f7 (omega arith) d_fits f3_fits s1_fits s2_fits f7_fits in
        is_op32 rt om c (r_type 0x3b d f3 s1 s2 f7) f.opcode_is
        ∙ op32-Fields c (r_type 0x3b d f3 s1 s2 f7) d f3 s1 s2 f7 0 0x3b f

  pub exec-lui :
      (d imm : ℕ)
      → d < 32
      → exec_opcode rt om c (u_type 0x37 d imm) ≡ writes c d (shl64 (sext 20 imm) 12)
  exec-lui d imm d_fits =
      let (e, r, i) = u_type-fields 0x37 d imm (omega arith) d_fits in
      is_lui rt om c (u_type 0x37 d imm) e
      ∙ ap (λ v. writes c v (u_imm (u_type 0x37 d imm))) r
      ∙ ap (writes c d) i
