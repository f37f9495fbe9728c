-- ===== src/Alu/Examples.antt =====
-- Runs of `alu_exec`, and its theorems at concrete operands.
use hdu_riscv_lab.Prelude.{
  ℕ, ◌+◌, ◌-◌, ◌*◌, ◌^◌, ◌≤◌, ◌<◌, ◌≡◌, refl, inl, true, false, ok, aborts, arith,
}
use hdu_riscv_lab.Word.{sext32, signed64, u64_max}
use hdu_riscv_lab.Word.Int.{pos, pos_part, neg_part, ◌+ℤ◌, ◌*ℤ◌}
use hdu_riscv_lab.Alu.{
  alu_add, alu_sra, alu_srl, alu_slt, alu_sltu, alu_mul, alu_mulh, alu_mulhu, alu_mulhsu, alu_div,
  alu_rem, alu_nop, alu_exec, alu_switch, mulh, mulhsu, div, remainder,
}
use hdu_riscv_lab.Alu.Bounds.{alu_exec_total}
use hdu_riscv_lab.Alu.Division.{abs, alu_exec-div-rem}
use hdu_riscv_lab.Alu.Product.{alu_exec-mul_halves}

-- -7, as a pattern.
abbrev minus_seven : ℕ
minus_seven = 2 ^ 64 - 7

runs :
    (alu_exec minus_seven 2 alu_div false ≡ ok (2 ^ 64 - 3))
    × (alu_exec minus_seven 2 alu_rem false ≡ ok u64_max)
    × (alu_exec minus_seven 1 alu_sra false ≡ ok (2 ^ 64 - 4))
    × (alu_exec minus_seven 1 alu_srl true ≡ ok (2 ^ 31 - 4))
    × (alu_exec minus_seven 2 alu_slt false ≡ ok 1)
    × (alu_exec minus_seven 2 alu_sltu false ≡ ok 0)
    × (alu_exec minus_seven minus_seven alu_mulh false ≡ ok 0)
    × (alu_exec minus_seven 2 alu_mulhsu false ≡ ok u64_max)
    × (alu_exec (2 ^ 31 - 1) 1 alu_add true ≡ ok (2 ^ 64 - 2 ^ 31))
    × (alu_exec 1 1 alu_nop false ≡ aborts)
unfolding alu_exec alu_switch mulh mulhsu div remainder
runs = (refl, refl, refl, refl, refl, refl, refl, refl, refl, refl)

alu_exec_total_example :
    (r : ℕ) × (alu_exec minus_seven 2 alu_div true ≡ ok r)
    × (r < 2 ^ 64)
    × (true ≡ true → sext32 r ≡ r)
alu_exec_total_example =
    alu_exec_total minus_seven 2 alu_div true (omega arith) (omega arith) (λ e. cc)

alu_exec-div-rem_example :
    (q r : ℕ) × (alu_exec minus_seven 2 alu_div false ≡ ok q)
    × (alu_exec minus_seven 2 alu_rem false ≡ ok r)
    × (signed64 q *ℤ signed64 2 +ℤ signed64 r ≡ signed64 minus_seven)
    × (abs (signed64 r) < abs (signed64 2))
    × (pos_part (signed64 r) ≤ pos_part (signed64 minus_seven))
    × (neg_part (signed64 r) ≤ neg_part (signed64 minus_seven))
alu_exec-div-rem_example =
    alu_exec-div-rem minus_seven 2 (omega arith) (omega arith) (omega arith) (inl (omega arith))

alu_exec-mul_halves_example :
    (h u l : ℕ) × (alu_exec minus_seven 5 alu_mulh false ≡ ok h)
    × (alu_exec minus_seven 5 alu_mulhu false ≡ ok u)
    × (alu_exec minus_seven 5 alu_mul false ≡ ok l)
    × (signed64 h *ℤ pos (2 ^ 64) +ℤ pos l ≡ signed64 minus_seven *ℤ signed64 5)
    × (u * 2 ^ 64 + l ≡ minus_seven * 5)
alu_exec-mul_halves_example = alu_exec-mul_halves minus_seven 5 (omega arith) (omega arith)
