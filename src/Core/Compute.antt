-- ===== src/Core/Compute.antt =====
-- The operations on registers and immediates in `exec` of difftest/src/rv_core.hpp.
-- A table gives the operation, or `none` where the code sets `ri`.
use hdu_riscv_lab.Prelude.{
  ℕ, ◌/◌, Bool, true, false, not, ◌||◌, ◌==◌, if◌then◌else◌, Option, none, some, Outcome, ok, ◌>>=◌,
}
use hdu_riscv_lab.Word.{low_bits, signed64}
use hdu_riscv_lab.Word.Int.{ltb_ℤ, pos}
use hdu_riscv_lab.Alu.{
  AluOp, alu_add, alu_sub, alu_sll, alu_slt, alu_sltu, alu_xor, alu_srl, alu_sra, alu_or, alu_and,
  alu_mul, alu_mulh, alu_mulhu, alu_mulhsu, alu_div, alu_divu, alu_rem, alu_remu, alu_exec,
}
use hdu_riscv_lab.Instr.Codes.{
  funct3_add_sub, funct3_sll, funct3_slt, funct3_sltu, funct3_xor, funct3_srl_sra, funct3_or,
  funct3_mul, funct3_mulh, funct3_mulhsu, funct3_mulhu, funct3_div, funct3_divu, funct3_rem,
  funct7_normal, funct7_sub_sra, funct7_mul, funct6_normal, funct6_sra,
}
use hdu_riscv_lab.Instr.{rd, rs1, rs2, funct3, funct7, imm12}
use hdu_riscv_lab.Core.{Core, Done, illegal, reg, writes}

-- The register operations without an own `funct7`.
unfoldable pub base_op : ℕ → AluOp
base_op fun3 =
    if fun3 == funct3_add_sub
    then alu_add
    else if fun3 == funct3_sll
    then alu_sll
    else if fun3 == funct3_slt
    then alu_slt
    else if fun3 == funct3_sltu
    then alu_sltu
    else if fun3 == funct3_xor
    then alu_xor
    else if fun3 == funct3_srl_sra
    then alu_srl
    else if fun3 == funct3_or
    then alu_or
    else alu_and

unfoldable pub mul_op : ℕ → AluOp
mul_op fun3 =
    if fun3 == funct3_mul
    then alu_mul
    else if fun3 == funct3_mulh
    then alu_mulh
    else if fun3 == funct3_mulhsu
    then alu_mulhsu
    else if fun3 == funct3_mulhu
    then alu_mulhu
    else if fun3 == funct3_div
    then alu_div
    else if fun3 == funct3_divu
    then alu_divu
    else if fun3 == funct3_rem
    then alu_rem
    else alu_remu

abbrev pub sub_sra_op : ℕ → Option AluOp
sub_sra_op fun3 =
    if fun3 == funct3_add_sub
    then some alu_sub
    else if fun3 == funct3_srl_sra
    then some alu_sra
    else none

unfoldable pub op_table : ℕ → ℕ → Option AluOp
op_table fun7 fun3 =
    if fun7 == funct7_normal
    then some (base_op fun3)
    else if fun7 == funct7_sub_sra
    then sub_sra_op fun3
    else if fun7 == funct7_mul
    then some (mul_op fun3)
    else none

-- With 32 bits there are fewer.
unfoldable pub op32_table : ℕ → ℕ → Option AluOp
op32_table fun7 fun3 =
    if fun7 == funct7_normal
    then (if (fun3 == funct3_add_sub) || (fun3 == funct3_sll) || (fun3 == funct3_srl_sra)
        then some (base_op fun3)
        else none)
    else if fun7 == funct7_sub_sra
    then sub_sra_op fun3
    else if fun7 == funct7_mul
    then (if (fun3 == funct3_mulh) || (fun3 == funct3_mulhsu) || (fun3 == funct3_mulhu)
        then none
        else some (mul_op fun3))
    else none

-- `imm >= 64` on the signed immediate.
abbrev pub past_63 : ℕ → Bool
past_63 imm = not (ltb_ℤ (signed64 imm) (pos 64))

-- The operation and its second operand.
unfoldable pub opimm_table : ℕ → ℕ → ℕ → Option (AluOp × ℕ)
opimm_table fun6 fun3 imm =
    if fun3 == funct3_sll
    then (if past_63 imm then none else some (alu_sll, imm))
    else if fun3 == funct3_srl_sra
    then (if fun6 == funct6_normal
        then some (alu_srl, low_bits imm 6)
        else if fun6 == funct6_sra
        then some (alu_sra, low_bits imm 6)
        else none)
    else some (base_op fun3, imm)

unfoldable pub opimm32_table : ℕ → ℕ → ℕ → Option (AluOp × ℕ)
opimm32_table fun7 fun3 imm =
    if fun3 == funct3_add_sub
    then some (alu_add, imm)
    else if fun3 == funct3_sll
    then (if past_63 imm || not (fun7 == funct7_normal) then none else some (alu_sll, imm))
    else if fun3 == funct3_srl_sra
    then (if fun7 == funct7_normal
        then some (alu_srl, low_bits imm 6)
        else if fun7 == funct7_sub_sra
        then some (alu_sra, low_bits imm 6)
        else none)
    else none

abbrev pub compute : Core → ℕ → ℕ → ℕ → AluOp → Bool → Outcome Done
compute c inst a b op op_32 = alu_exec a b op op_32 >>= λ result. writes c (rd inst) result

unfoldable pub opimm : Core → ℕ → Outcome Done
opimm c inst = elim (opimm_table (funct7 inst / 2) (funct3 inst) (imm12 inst)) [
  | none ↦ ok (illegal c)
  | some r ↦ compute c inst (reg c (rs1 inst)) r.1 r.0 false
]

unfoldable pub opimm32 : Core → ℕ → Outcome Done
opimm32 c inst = elim (opimm32_table (funct7 inst) (funct3 inst) (imm12 inst)) [
  | none ↦ ok (illegal c)
  | some r ↦ compute c inst (reg c (rs1 inst)) r.1 r.0 true
]

unfoldable pub op : Core → ℕ → Outcome Done
op c inst = elim (op_table (funct7 inst) (funct3 inst)) [
  | none ↦ ok (illegal c)
  | some o ↦ compute c inst (reg c (rs1 inst)) (reg c (rs2 inst)) o false
]

unfoldable pub op32 : Core → ℕ → Outcome Done
op32 c inst = elim (op32_table (funct7 inst) (funct3 inst)) [
  | none ↦ ok (illegal c)
  | some o ↦ compute c inst (reg c (rs1 inst)) (reg c (rs2 inst)) o true
]
