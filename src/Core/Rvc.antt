-- ===== src/Core/Rvc.antt =====
-- The fields and codes of the compressed instructions in `exec` of difftest/src/rv_core.hpp, and the
-- enum `rv64c_opcode` of difftest/src/rv_common.hpp. `hasCExt` turns these instructions off.
pub mod Cases
pub mod Dispatch
pub mod Expansion
pub mod Immediates
pub mod Groups
pub mod Computes
pub mod Accesses
pub mod Immediate
pub mod Alu
pub mod Expanded
pub mod Targets
pub mod Jumps
pub mod Examples
use hdu_riscv_lab.Prelude.{
  ℕ, ◌+◌, ◌-◌, ◌*◌, ◌/◌, ◌%◌, ◌^◌, Bool, true, false, not, ◌==◌, if◌then◌else◌, List, Option, none,
  some, Outcome, ok, ◌>>=◌, bit_xor,
}
use hdu_riscv_lab.Word.{add64, get_bits}
use hdu_riscv_lab.Bytes.{to_bytes}
use hdu_riscv_lab.Alu.{
  AluOp, alu_add, alu_sub, alu_sll, alu_xor, alu_srl, alu_sra, alu_or, alu_and, alu_exec,
}
use hdu_riscv_lab.Csr.{nonzero, exc_instr_misalign}
use hdu_riscv_lab.Priv.Trap.{ebreak}
use hdu_riscv_lab.Core.{
  Core, Done, executed, illegal, reg, set_gpr, writes, trap, mem_read, mem_write,
}
use hdu_riscv_lab.Core.Access.{load_value}

-- The macro `binary_concat`.
abbrev pub binary_concat : ℕ → ℕ → ℕ → ℕ → ℕ
binary_concat value r l shift = get_bits l (r - l + 1) value * 2 ^ shift

-- The test and the mask that extend the sign from bit `k`; the value is below `2 ^ (k + 1)`, so that
-- `|` is `+`, as it is between the parts of an immediate, which do not overlap.
abbrev pub extended : ℕ → ℕ → ℕ
extended k imm = if nonzero (imm / 2 ^ k) then imm + (2 ^ 64 - 2 ^ (k + 1)) else imm

abbrev pub rvc_opcode : ℕ → ℕ
rvc_opcode inst = inst % 4 * 2 ^ 3 + inst / 2 ^ 13 % 2 ^ 3

-- The registers: of 5 bits, and x8 to x15 of 3 bits.
abbrev pub full_rd : ℕ → ℕ
full_rd inst = binary_concat inst 11 7 0

abbrev pub full_rs2 : ℕ → ℕ
full_rs2 inst = binary_concat inst 6 2 0

abbrev pub short_rs1 : ℕ → ℕ
short_rs1 inst = 8 + binary_concat inst 9 7 0

abbrev pub short_rs2 : ℕ → ℕ
short_rs2 inst = 8 + binary_concat inst 4 2 0

-- The immediates.
abbrev pub addi4spn_imm : ℕ → ℕ
addi4spn_imm inst =
    binary_concat inst 12 11 4
    + binary_concat inst 10 7 6
    + binary_concat inst 6 6 2
    + binary_concat inst 5 5 3

abbrev pub word_imm : ℕ → ℕ
word_imm inst = binary_concat inst 6 6 2 + binary_concat inst 5 5 6 + binary_concat inst 12 10 3

abbrev pub double_imm : ℕ → ℕ
double_imm inst = binary_concat inst 6 5 6 + binary_concat inst 12 10 3

abbrev pub imm6 : ℕ → ℕ
imm6 inst = binary_concat inst 12 12 5 + binary_concat inst 6 2 0

abbrev pub addi16spn_imm : ℕ → ℕ
addi16spn_imm inst =
    binary_concat inst 12 12 9
    + binary_concat inst 6 6 4
    + binary_concat inst 5 5 6
    + binary_concat inst 4 3 7
    + binary_concat inst 2 2 5

abbrev pub lui_imm : ℕ → ℕ
lui_imm inst = binary_concat inst 12 12 17 + binary_concat inst 6 2 12

abbrev pub c_j_imm : ℕ → ℕ
c_j_imm inst =
    binary_concat inst 12 12 11
    + binary_concat inst 11 11 4
    + binary_concat inst 10 9 8
    + binary_concat inst 8 8 10
    + binary_concat inst 7 7 6
    + binary_concat inst 6 6 7
    + binary_concat inst 5 3 1
    + binary_concat inst 2 2 5

abbrev pub c_b_imm : ℕ → ℕ
c_b_imm inst =
    binary_concat inst 12 12 8
    + binary_concat inst 11 10 3
    + binary_concat inst 6 5 6
    + binary_concat inst 4 3 1
    + binary_concat inst 2 2 5

abbrev pub lwsp_imm : ℕ → ℕ
lwsp_imm inst = binary_concat inst 6 4 2 + binary_concat inst 3 2 6 + binary_concat inst 12 12 5

abbrev pub ldsp_imm : ℕ → ℕ
ldsp_imm inst = binary_concat inst 6 5 3 + binary_concat inst 4 2 6 + binary_concat inst 12 12 5

abbrev pub swsp_imm : ℕ → ℕ
swsp_imm inst = binary_concat inst 12 9 2 + binary_concat inst 8 7 6

abbrev pub sdsp_imm : ℕ → ℕ
sdsp_imm inst = binary_concat inst 12 10 3 + binary_concat inst 9 7 6

-- The members of `rv64c_opcode`.
abbrev pub opcode_c_addi4spn : ℕ
opcode_c_addi4spn = 0

abbrev pub opcode_c_lw : ℕ
opcode_c_lw = 2

abbrev pub opcode_c_ld : ℕ
opcode_c_ld = 3

abbrev pub opcode_c_sw : ℕ
opcode_c_sw = 6

abbrev pub opcode_c_sd : ℕ
opcode_c_sd = 7

abbrev pub opcode_c_addi : ℕ
opcode_c_addi = 8

abbrev pub opcode_c_addiw : ℕ
opcode_c_addiw = 9

abbrev pub opcode_c_li : ℕ
opcode_c_li = 10

abbrev pub opcode_c_addi16spn_lui : ℕ
opcode_c_addi16spn_lui = 11

abbrev pub opcode_c_alu : ℕ
opcode_c_alu = 12

abbrev pub opcode_c_j : ℕ
opcode_c_j = 13

abbrev pub opcode_c_beqz : ℕ
opcode_c_beqz = 14

abbrev pub opcode_c_bnez : ℕ
opcode_c_bnez = 15

abbrev pub opcode_c_slli : ℕ
opcode_c_slli = 16

abbrev pub opcode_c_lwsp : ℕ
opcode_c_lwsp = 18

abbrev pub opcode_c_ldsp : ℕ
opcode_c_ldsp = 19

abbrev pub opcode_c_jr_mv_eb_jalr_add : ℕ
opcode_c_jr_mv_eb_jalr_add = 20

abbrev pub opcode_c_swsp : ℕ
opcode_c_swsp = 22

abbrev pub opcode_c_sdsp : ℕ
opcode_c_sdsp = 23
