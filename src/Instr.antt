-- ===== src/Instr.antt =====
-- `rv_instr` of difftest/src/rv_common.hpp: the fields of a 32-bit instruction, and the immediates
-- that difftest/src/rv_core.hpp makes of them, as 64-bit words.
pub mod Codes
pub mod Immediates
pub mod Formats
pub mod Examples
use hdu_riscv_lab.Prelude.{ℕ, ◌/◌, ◌%◌, ◌^◌, ◌-◌, ◌==◌, bit_or, bit_xor, if◌then◌else◌}
use hdu_riscv_lab.Word.{get_bits, low_bits, shr, shl64, sext}

abbrev pub opcode : ℕ → ℕ
opcode w = low_bits w 7

abbrev pub rd : ℕ → ℕ
rd = get_bits 7 5

abbrev pub funct3 : ℕ → ℕ
funct3 = get_bits 12 3

abbrev pub rs1 : ℕ → ℕ
rs1 = get_bits 15 5

abbrev pub rs2 : ℕ → ℕ
rs2 = get_bits 20 5

abbrev pub funct7 : ℕ → ℕ
funct7 = get_bits 25 7

-- The upper 12 bits without their sign.
abbrev pub csr_index : ℕ → ℕ
csr_index = get_bits 20 12

-- The signed fields: `imm12`, and the immediates put together of several fields.
abbrev pub imm12 : ℕ → ℕ
imm12 w = sext 12 (shr w 20)

abbrev pub s_imm : ℕ → ℕ
s_imm w = bit_or (shl64 (sext 7 (shr w 25)) 5) (get_bits 7 5 w)

abbrev pub b_imm : ℕ → ℕ
b_imm w =
    bit_or
      (bit_or (bit_or (shl64 (sext 1 (shr w 31)) 12) (shl64 (get_bits 7 1 w) 11))
        (shl64 (get_bits 25 6 w) 5))
      (shl64 (get_bits 8 4 w) 1)

abbrev pub u_imm : ℕ → ℕ
u_imm w = shl64 (sext 20 (shr w 12)) 12

abbrev pub j_imm : ℕ → ℕ
j_imm w =
    bit_or
      (bit_or (bit_or (shl64 (sext 1 (shr w 31)) 20) (shl64 (get_bits 12 8 w) 12))
        (shl64 (get_bits 20 1 w) 11))
      (shl64 (get_bits 21 10 w) 1)

-- The immediate of `jalr`, whose lowest bit is cleared.
abbrev pub jalr_imm : ℕ → ℕ
jalr_imm w = if imm12 w % 2 == 1 then bit_xor (imm12 w) 1 else imm12 w
