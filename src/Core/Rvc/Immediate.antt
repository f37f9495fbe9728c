-- ===== src/Core/Rvc/Immediate.antt =====
-- The compressed instructions of difftest/src/rv_core.hpp with an immediate: the operation, and its
-- operands as the manual gives them.
use hdu_riscv_lab.Prelude.{ℕ, ◌≡◌, ◌≢◌, refl, ap, ◌∙◌, arith, Bool, true, false, ◌==◌}
use hdu_riscv_lab.Word.{add64, sext, shl64}
use hdu_riscv_lab.Alu.{AluOp, alu_add, alu_sll, alu_exec, alu_switch}
use hdu_riscv_lab.Csr.{nonzero}
use hdu_riscv_lab.Core.{Core, reg, writes}
use hdu_riscv_lab.Core.Rvc.{extended, imm6, addi4spn_imm, addi16spn_imm, lui_imm, full_rd}
use hdu_riscv_lab.Core.Rvc.Cases.{
  computes, c_addi4spn, c_addi, c_addiw, c_li, c_addi16spn_lui, c_slli,
}
use hdu_riscv_lab.Core.Rvc.Expansion.{
  signed_field, reg_full, reg_short2, addi4spn_bits, bits6, addi16spn_bits,
}
use hdu_riscv_lab.Core.Rvc.Immediates.{
  addi4spn_same, imm6_same, imm6-extended, bits6-lt, addi16spn_same, lui_same, extended_10,
  extended_18, sext_positive, short2_same, full_same,
}

-- The same operation on the same register, immediate and destination.
pub computes_same :
    (c : Core) (d d' imm imm' : ℕ) (o : AluOp) (op_32 : Bool)
    → d ≡ d'
    → imm ≡ imm'
    → computes c d (reg c d) imm o op_32 ≡ computes c d' (reg c d') imm' o op_32
computes_same c d d' imm imm' o op_32 e f = rw (e, f) refl

module _ (c : Core) (inst : ℕ) where
  pub addi4spn_lem :
      addi4spn_bits inst ≢ 0
      → c_addi4spn c inst
        ≡ computes c (reg_short2 inst) (reg c 2) (sext 12 (addi4spn_bits inst)) alu_add false
  unfolding c_addi4spn alu_exec alu_switch
  addi4spn_lem h =
      let taken : nonzero (addi4spn_imm inst) ≡ true = ground (arith, addi4spn_same inst) in
      rw taken (
        rw (addi4spn_same inst, short2_same inst, sext_positive (addi4spn_bits inst) (omega arith))
          refl)

  pub addi_lem :
      bits6 inst ≢ 0
      → c_addi c inst
        ≡ computes c
            (reg_full inst)
            (reg c (reg_full inst))
            (sext 12 (signed_field 6 12 (bits6 inst)))
            alu_add
            false
  unfolding c_addi
  addi_lem h =
      let taken : nonzero (extended 5 (imm6 inst)) ≡ true = ground (arith, imm6_same inst) in
      rw taken (
        computes_same c (full_rd inst) (reg_full inst) _ _ alu_add false (full_same inst)
          (imm6-extended inst))

  pub addiw_lem :
      c_addiw c inst
      ≡ computes c
          (reg_full inst)
          (reg c (reg_full inst))
          (sext 12 (signed_field 6 12 (bits6 inst)))
          alu_add
          true
  unfolding c_addiw
  addiw_lem =
      computes_same c (full_rd inst) (reg_full inst) _ _ alu_add true (full_same inst)
        (imm6-extended inst)

  pub li_lem :
      reg c 0 ≡ 0
      → c_li c inst
        ≡ computes c
            (reg_full inst)
            (reg c 0)
            (sext 12 (signed_field 6 12 (bits6 inst)))
            alu_add
            false
  unfolding c_li alu_exec alu_switch
  li_lem zero_reg =
      let v = sext 12 (signed_field 6 12 (bits6 inst)) in
      let sum : add64 0 v ≡ v = ground arith in
      rw (zero_reg, full_same inst, imm6-extended inst, sum) refl

  pub addi16sp_lem :
      reg_full inst ≡ 2
      → addi16spn_bits inst ≢ 0
      → c_addi16spn_lui c inst
        ≡ computes c 2 (reg c 2) (sext 12 (signed_field 10 12 (addi16spn_bits inst))) alu_add false
  unfolding c_addi16spn_lui alu_exec alu_switch
  addi16sp_lem sp h =
      let imm = extended 9 (addi16spn_imm inst) in
      let same : imm ≡ sext 12 (signed_field 10 12 (addi16spn_bits inst)) =
        ap (extended 9) (addi16spn_same inst) ∙ extended_10 (addi16spn_bits inst) (omega arith) in
      let taken : nonzero imm ≡ true = ground (arith, addi16spn_same inst) in
      rw (full_same inst ∙ sp, taken, same) refl

  pub lui_lem :
      reg_full inst ≢ 2
      → bits6 inst ≢ 0
      → c_addi16spn_lui c inst
        ≡ writes c (reg_full inst) (shl64 (sext 20 (signed_field 6 20 (bits6 inst))) 12)
  unfolding c_addi16spn_lui
  lui_lem no_sp h =
      let imm = extended 17 (lui_imm inst) in
      let same : imm ≡ shl64 (sext 20 (signed_field 6 20 (bits6 inst))) 12 =
        ap (extended 17) (lui_same inst) ∙ extended_18 (bits6 inst) (bits6-lt inst) in
      let taken : nonzero imm ≡ true = ground (arith, lui_same inst) in
      let other : (full_rd inst == 2) ≡ false = ground arith in
      rw (other, taken) (rw (same, full_same inst) refl)

  pub slli_lem :
      bits6 inst ≢ 0
      → c_slli c inst
        ≡ computes c (reg_full inst) (reg c (reg_full inst)) (bits6 inst) alu_sll false
  unfolding c_slli
  slli_lem h =
      let taken : nonzero (imm6 inst) ≡ true = ground (arith, imm6_same inst) in
      rw taken (
        computes_same c (full_rd inst) (reg_full inst) _ _ alu_sll false (full_same inst)
          (imm6_same inst))
