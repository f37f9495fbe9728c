-- ===== src/Instr/Examples.antt =====
-- The immediates of concrete instructions.
use hdu_riscv_lab.Prelude.{ℕ, ◌-◌, ◌%◌, ◌≡◌, ◌↔◌, refl, arith}
use hdu_riscv_lab.Word.{add64}
use hdu_riscv_lab.Instr.{imm12, b_imm, jalr_imm}
use hdu_riscv_lab.Instr.Immediates.{jalr_target_iff}

-- `beq x1, x2, -8`.
abbrev back : ℕ
back = 0xfe208ce3

back_offset : b_imm back ≡ 0xfffffffffffffff8
back_offset = refl

-- `jalr x1, 1(x2)`, on an odd register.
jalr_target_iff_example :
    (add64 0x1001 (jalr_imm 0x001100e7)
      ≡ add64 0x1001 (imm12 0x001100e7) - add64 0x1001 (imm12 0x001100e7) % 2)
    ↔ (0x1001 % 2 ≡ 0)
jalr_target_iff_example = jalr_target_iff 0x001100e7 0x1001 (omega arith)
