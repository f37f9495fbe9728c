-- ===== src/Core/Rvc/Immediates.antt =====
-- The immediates of the compressed instructions in difftest/src/rv_core.hpp are those of the manual.
use hdu_riscv_lab.Prelude.{ℕ, ◌*◌, ◌^◌, ◌<◌, ◌≡◌, ap, ◌∙◌, arith}
use hdu_riscv_lab.Word.{sext, shl64}
use hdu_riscv_lab.Core.Rvc.{
  extended, addi4spn_imm, word_imm, double_imm, imm6, addi16spn_imm, lui_imm, c_j_imm, c_b_imm,
  lwsp_imm, ldsp_imm, swsp_imm, sdsp_imm, short_rs1, short_rs2, full_rd, full_rs2,
}
use hdu_riscv_lab.Core.Rvc.Expansion.{
  signed_field, addi4spn_bits, word_bits, double_bits, bits6, addi16spn_bits, lwsp_bits, ldsp_bits,
  swsp_bits, sdsp_bits, j_bits, b_bits, reg_short, reg_short2, reg_full, reg_full2,
}

module _ (inst : ℕ) where
  pub addi4spn_same : addi4spn_imm inst ≡ addi4spn_bits inst
  addi4spn_same = omega arith

  pub word_same : word_imm inst ≡ word_bits inst
  word_same = omega arith

  pub double_same : double_imm inst ≡ double_bits inst
  double_same = omega arith

  pub imm6_same : imm6 inst ≡ bits6 inst
  imm6_same = omega arith

  pub addi16spn_same : addi16spn_imm inst ≡ addi16spn_bits inst
  addi16spn_same = omega arith

  pub lui_same : lui_imm inst ≡ bits6 inst * 2 ^ 12
  lui_same = omega arith

  pub lwsp_same : lwsp_imm inst ≡ lwsp_bits inst
  lwsp_same = omega arith

  pub ldsp_same : ldsp_imm inst ≡ ldsp_bits inst
  ldsp_same = omega arith

  pub swsp_same : swsp_imm inst ≡ swsp_bits inst
  swsp_same = omega arith

  pub sdsp_same : sdsp_imm inst ≡ sdsp_bits inst
  sdsp_same = omega arith

  pub c_j_same : c_j_imm inst ≡ j_bits inst
  c_j_same = omega arith

  pub c_b_same : c_b_imm inst ≡ b_bits inst
  c_b_same = omega arith

-- The sign is extended in one step, or in two.
pub extended_6 : (v : ℕ) → v < 64 → extended 5 v ≡ sext 12 (signed_field 6 12 v)
extended_6 v h = ground arith

pub extended_10 : (v : ℕ) → v < 1024 → extended 9 v ≡ sext 12 (signed_field 10 12 v)
extended_10 v h = ground arith

pub extended_18 :
    (v : ℕ) → v < 64 → extended 17 (v * 2 ^ 12) ≡ shl64 (sext 20 (signed_field 6 20 v)) 12
extended_18 v h = ground arith

pub sext_positive : (v : ℕ) → v < 2048 → sext 12 v ≡ v
sext_positive v h = ground arith

module _ (inst : ℕ) where
  pub bits6-lt : bits6 inst < 64
  bits6-lt = omega arith

  pub imm6-extended : extended 5 (imm6 inst) ≡ sext 12 (signed_field 6 12 (bits6 inst))
  imm6-extended = ap (extended 5) (imm6_same inst) ∙ extended_6 (bits6 inst) bits6-lt

  -- The fields that name a register.
  pub short1_same : short_rs1 inst ≡ reg_short inst
  short1_same = omega arith

  pub short2_same : short_rs2 inst ≡ reg_short2 inst
  short2_same = omega arith

  pub full_same : full_rd inst ≡ reg_full inst
  full_same = omega arith

  pub full2_same : full_rs2 inst ≡ reg_full2 inst
  full2_same = omega arith
