-- ===== src/Instr/Formats.antt =====
-- The instruction formats of the 32-bit encoding, and the fields of `rv_instr`
-- (difftest/src/rv_common.hpp) in a word that is put together by them.
use hdu_riscv_lab.Prelude.{ℕ, ◌+◌, ◌*◌, ◌/◌, ◌%◌, ◌^◌, ◌<◌, ◌≡◌, ◌∙◌, ap, arith}
use hdu_riscv_lab.Word.{sext, get_bits, shl64}
use hdu_riscv_lab.Instr.{opcode, rd, rs1, rs2, funct3, funct7, imm12, s_imm, b_imm, j_imm, u_imm}
use hdu_riscv_lab.Instr.Immediates.{s_field, b_field, j_field, immediates-sext}

abbrev pub r_type : ℕ → ℕ → ℕ → ℕ → ℕ → ℕ → ℕ
r_type op d f3 s1 s2 f7 = op + d * 2 ^ 7 + f3 * 2 ^ 12 + s1 * 2 ^ 15 + s2 * 2 ^ 20 + f7 * 2 ^ 25

abbrev pub i_type : ℕ → ℕ → ℕ → ℕ → ℕ → ℕ
i_type op d f3 s1 imm = op + d * 2 ^ 7 + f3 * 2 ^ 12 + s1 * 2 ^ 15 + imm * 2 ^ 20

abbrev pub s_type : ℕ → ℕ → ℕ → ℕ → ℕ → ℕ
s_type op f3 s1 s2 imm = r_type op (imm % 2 ^ 5) f3 s1 s2 (imm / 2 ^ 5)

-- The immediate is the offset of 13 bits, whose lowest is 0.
abbrev pub b_type : ℕ → ℕ → ℕ → ℕ → ℕ → ℕ
b_type op f3 s1 s2 offset =
    r_type op (get_bits 1 4 offset * 2 + get_bits 11 1 offset) f3 s1 s2
      (get_bits 12 1 offset * 2 ^ 6 + get_bits 5 6 offset)

abbrev pub u_type : ℕ → ℕ → ℕ → ℕ
u_type op d imm = op + d * 2 ^ 7 + imm * 2 ^ 12

-- The immediate is the offset of 21 bits, whose lowest is 0.
abbrev pub j_type : ℕ → ℕ → ℕ → ℕ
j_type op d offset =
    op
    + d * 2 ^ 7
    + (get_bits 12 8 offset
        + get_bits 11 1 offset * 2 ^ 8
        + get_bits 1 10 offset * 2 ^ 9
        + get_bits 20 1 offset * 2 ^ 19)
      * 2 ^ 12

-- The fields of a word of the R format.
pub record Fields (w op d f3 s1 s2 f7 : ℕ) : Type 0 where
  pub opcode_is : opcode w ≡ op
  pub rd_is : rd w ≡ d
  pub funct3_is : funct3 w ≡ f3
  pub rs1_is : rs1 w ≡ s1
  pub rs2_is : rs2 w ≡ s2
  pub funct7_is : funct7 w ≡ f7

pub r_type-Fields :
    (op d f3 s1 s2 f7 : ℕ)
    → op < 128
    → d < 32
    → f3 < 8
    → s1 < 32
    → s2 < 32
    → f7 < 128
    → Fields (r_type op d f3 s1 s2 f7) op d f3 s1 s2 f7
r_type-Fields op d f3 s1 s2 f7 a b c e f g = record {
  opcode_is = omega arith;
  rd_is = omega arith;
  funct3_is = omega arith;
  rs1_is = omega arith;
  rs2_is = omega arith;
  funct7_is = omega arith;
}

pub i_type-r_type :
    (op d f3 s1 imm : ℕ) → i_type op d f3 s1 imm ≡ r_type op d f3 s1 (imm % 2 ^ 5) (imm / 2 ^ 5)
i_type-r_type op d f3 s1 imm = omega arith

pub imm12_lem :
    (op d f3 s1 imm : ℕ)
    → op < 128
    → d < 32
    → f3 < 8
    → s1 < 32
    → imm < 4096
    → imm12 (i_type op d f3 s1 imm) ≡ sext 12 imm
imm12_lem op d f3 s1 imm a b c e f = ap (sext 12) (omega arith)

module _ (op f3 s1 s2 imm : ℕ) (op_fits : op < 128) (f3_fits : f3 < 8) (s1_fits : s1 < 32) where
  pub s_imm_lem : s2 < 32 → imm < 4096 → s_imm (s_type op f3 s1 s2 imm) ≡ sext 12 imm
  s_imm_lem s2_fits fits = (immediates-sext (s_type op f3 s1 s2 imm)).0 ∙ ap (sext 12) whole
    where
      whole : s_field (s_type op f3 s1 s2 imm) ≡ imm
      whole = omega arith

  pub b_imm_lem :
      s2 < 32 → imm < 2 ^ 13 → imm % 2 ≡ 0 → b_imm (b_type op f3 s1 s2 imm) ≡ sext 13 imm
  b_imm_lem s2_fits fits even = (immediates-sext (b_type op f3 s1 s2 imm)).1 ∙ ap (sext 13) whole
    where
      whole : b_field (b_type op f3 s1 s2 imm) ≡ imm
      whole = omega arith

module _ (op d imm : ℕ) (op_fits : op < 128) (d_fits : d < 32) where
  pub j_imm_lem : imm < 2 ^ 21 → imm % 2 ≡ 0 → j_imm (j_type op d imm) ≡ sext 21 imm
  j_imm_lem fits even = (immediates-sext (j_type op d imm)).2 ∙ ap (sext 21) whole
    where
      whole : j_field (j_type op d imm) ≡ imm
      whole = omega arith

  pub j_type-fields : (opcode (j_type op d imm) ≡ op) × (rd (j_type op d imm) ≡ d)
  j_type-fields = (omega arith, omega arith)

  pub u_type-fields :
      (opcode (u_type op d imm) ≡ op)
      × (rd (u_type op d imm) ≡ d)
      × (u_imm (u_type op d imm) ≡ shl64 (sext 20 imm) 12)
  u_type-fields = (omega arith, omega arith, ap (λ v. shl64 (sext 20 v) 12) (omega arith))
