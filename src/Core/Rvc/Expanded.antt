-- ===== src/Core/Rvc/Expanded.antt =====
-- Each compressed instruction of difftest/src/rv_core.hpp that computes, loads or stores does what its
-- 32-bit expansion does.
use hdu_riscv_lab.Prelude.{ℕ, ◌^◌, ◌<◌, ◌≡◌, refl, ◌∙◌, sym, arith, Bool}
use hdu_riscv_lab.Core.{Core, reg}
use hdu_riscv_lab.Core.Exec.{exec_opcode}
use hdu_riscv_lab.Core.Words.{exec-lui}
use hdu_riscv_lab.Core.Rvc.Dispatch.{rvc}
use hdu_riscv_lab.Core.Rvc.Expansion.{
  Expands, as_addi4spn, as_lw, as_ld, as_sw, as_sd, as_addi, as_addiw, as_li, as_addi16sp, as_lui,
  as_srli, as_srai, as_andi, as_arithmetic, as_slli, as_lwsp, as_ldsp, as_mv, as_add, as_swsp,
  as_sdsp, reg_full, reg_full2, reg_short, reg_short2, addi4spn_bits, bits6,
}
use hdu_riscv_lab.Core.Rvc.Immediates.{
  word_same, double_same, lwsp_same, ldsp_same, swsp_same, sdsp_same, short1_same, short2_same,
  full_same, full2_same, bits6-lt,
}
use hdu_riscv_lab.Core.Rvc.Groups.{
  group_00, group_02, group_03, group_06, group_07, group_10, group_11, group_12, group_13,
  group_14, group_20, group_22, group_23, group_24, group_26, group_27,
}
use hdu_riscv_lab.Core.Rvc.Accesses.{loads-lw, loads-ld, stores-sw, stores-sd}
use hdu_riscv_lab.Core.Rvc.Computes.{
  exec-addi, exec-andi, exec-addiw, exec-slli, exec-srli, exec-srai, exec-Arithmetic, exec-add,
}
use hdu_riscv_lab.Core.Rvc.Immediate.{
  addi4spn_lem, addi_lem, addiw_lem, li_lem, addi16sp_lem, lui_lem, slli_lem,
}
use hdu_riscv_lab.Core.Rvc.Alu.{srli_lem, srai_lem, andi_lem, arithmetic_lem, mv_lem, add_lem}

-- A compressed instruction that computes, loads or stores, with operands that are neither reserved nor
-- hints, does exactly what its expansion does, whatever it loads,
-- stores or traps with, on a core whose x0 is 0 and whose registers are 64-bit patterns. It does not
-- speak of c.nop, c.ebreak, the branches and the jumps.
pub rvc-Expands :
    (rt om : Bool) (c : Core) (inst w : ℕ)
    → Expands inst w
    → reg c 0 ≡ 0
    → ((i : ℕ) → reg c i < 2 ^ 64)
    → rvc rt c inst ≡ exec_opcode rt om c w
rvc-Expands rt om c inst _ (as_addi4spn g h) z fits =
    group_00 rt c inst g
    ∙ addi4spn_lem c inst h
    ∙ sym (
        exec-addi rt om c (reg_short2 inst) 2 (omega arith) (omega arith) (addi4spn_bits inst)
          (omega arith))
rvc-Expands rt om c inst _ (as_lw g) z fits =
    group_02 rt c inst g
    ∙ loads-lw c _ _ _ _ _ _ (short1_same inst) (short2_same inst) (word_same inst) (omega arith) rt
        om (omega arith) (omega arith)
rvc-Expands rt om c inst _ (as_ld g) z fits =
    group_03 rt c inst g
    ∙ loads-ld c _ _ _ _ _ _ (short1_same inst) (short2_same inst) (double_same inst) (omega arith)
        rt om (omega arith) (omega arith)
rvc-Expands rt om c inst _ (as_sw g) z fits =
    group_06 rt c inst g
    ∙ stores-sw c _ _ _ _ _ _ (short1_same inst) (short2_same inst) (word_same inst) (omega arith)
        rt om (omega arith) (omega arith)
rvc-Expands rt om c inst _ (as_sd g) z fits =
    group_07 rt c inst g
    ∙ stores-sd c _ _ _ _ _ _ (short1_same inst) (short2_same inst) (double_same inst) (omega arith)
        rt om (omega arith) (omega arith)
rvc-Expands rt om c inst _ (as_addi g h) z fits =
    group_10 rt c inst g
    ∙ addi_lem c inst h
    ∙ sym (
        exec-addi rt om c (reg_full inst) (reg_full inst) (omega arith) (omega arith) _
          (ground (arith, bits6-lt inst)))
rvc-Expands rt om c inst _ (as_addiw g) z fits =
    group_11 rt c inst g
    ∙ addiw_lem c inst
    ∙ sym (
        exec-addiw rt om c (reg_full inst) (reg_full inst) (omega arith) (omega arith) _
          (ground (arith, bits6-lt inst)))
rvc-Expands rt om c inst _ (as_li g) z fits =
    group_12 rt c inst g
    ∙ li_lem c inst z
    ∙ sym (
        exec-addi rt om c (reg_full inst) 0 (omega arith) (omega arith) _
          (ground (arith, bits6-lt inst)))
rvc-Expands rt om c inst _ (as_addi16sp g sp h) z fits =
    group_13 rt c inst g
    ∙ addi16sp_lem c inst sp h
    ∙ sym (exec-addi rt om c 2 2 (omega arith) (omega arith) _ (ground arith))
rvc-Expands rt om c inst _ (as_lui g no_sp h) z fits =
    group_13 rt c inst g
    ∙ lui_lem c inst no_sp h
    ∙ sym (exec-lui rt om c (reg_full inst) _ (omega arith))
rvc-Expands rt om c inst _ (as_srli g k h) z fits =
    group_14 rt c inst g
    ∙ srli_lem c inst k h
    ∙ sym (
        exec-srli rt om c (reg_short inst) (reg_short inst) (omega arith) (omega arith) (bits6 inst)
          (bits6-lt inst))
rvc-Expands rt om c inst _ (as_srai g k h) z fits =
    group_14 rt c inst g
    ∙ srai_lem c inst k h
    ∙ sym (
        exec-srai rt om c (reg_short inst) (reg_short inst) (omega arith) (omega arith) (bits6 inst)
          (bits6-lt inst))
rvc-Expands rt om c inst _ (as_andi g k) z fits =
    group_14 rt c inst g
    ∙ andi_lem c inst k
    ∙ sym (
        exec-andi rt om c (reg_short inst) (reg_short inst) (omega arith) (omega arith) _
          (ground (arith, bits6-lt inst)))
rvc-Expands rt om c inst _ (as_arithmetic op f3 f7 g k a) z fits =
    let (o, op_32, found, done) =
      exec-Arithmetic rt om c (reg_short inst) (reg_short inst) (omega arith) (omega arith)
        (reg_short2 inst) _ _ op f3 f7 (omega arith) a in
    group_14 rt c inst g ∙ arithmetic_lem c inst o op_32 k found ∙ sym done
rvc-Expands rt om c inst _ (as_slli g h) z fits =
    group_20 rt c inst g
    ∙ slli_lem c inst h
    ∙ sym (
        exec-slli rt om c (reg_full inst) (reg_full inst) (omega arith) (omega arith) (bits6 inst)
          (bits6-lt inst))
rvc-Expands rt om c inst _ (as_lwsp g) z fits =
    group_22 rt c inst g
    ∙ loads-lw c 2 2 _ _ _ _ refl (full_same inst) (lwsp_same inst) (omega arith) rt om
        (omega arith) (omega arith)
rvc-Expands rt om c inst _ (as_ldsp g) z fits =
    group_23 rt c inst g
    ∙ loads-ld c 2 2 _ _ _ _ refl (full_same inst) (ldsp_same inst) (omega arith) rt om
        (omega arith) (omega arith)
rvc-Expands rt om c inst _ (as_mv g k h) z fits =
    group_24 rt c inst g
    ∙ mv_lem c inst z (fits (reg_full2 inst)) k h
    ∙ sym (
        exec-add rt om c (reg_full inst) 0 (omega arith) (omega arith) (reg_full2 inst)
          (omega arith))
rvc-Expands rt om c inst _ (as_add g k h) z fits =
    group_24 rt c inst g
    ∙ add_lem c inst k h
    ∙ sym (
        exec-add rt om c (reg_full inst) (reg_full inst) (omega arith) (omega arith)
          (reg_full2 inst) (omega arith))
rvc-Expands rt om c inst _ (as_swsp g) z fits =
    group_26 rt c inst g
    ∙ stores-sw c 2 2 _ _ _ _ refl (full2_same inst) (swsp_same inst) (omega arith) rt om
        (omega arith) (omega arith)
rvc-Expands rt om c inst _ (as_sdsp g) z fits =
    group_27 rt c inst g
    ∙ stores-sd c 2 2 _ _ _ _ refl (full2_same inst) (sdsp_same inst) (omega arith) rt om
        (omega arith) (omega arith)
