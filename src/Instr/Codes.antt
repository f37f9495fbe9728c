-- ===== src/Instr/Codes.antt =====
-- The enums of difftest/src/rv_common.hpp that name opcodes and function codes. They are numbers, as the
-- C enums are.
use hdu_riscv_lab.Prelude.{ℕ}

-- `rv64i_opcode`.
abbrev pub opcode_lui : ℕ
opcode_lui = 0x37

abbrev pub opcode_auipc : ℕ
opcode_auipc = 0x17

abbrev pub opcode_jal : ℕ
opcode_jal = 0x6f

abbrev pub opcode_jalr : ℕ
opcode_jalr = 0x67

abbrev pub opcode_branch : ℕ
opcode_branch = 0x63

abbrev pub opcode_load : ℕ
opcode_load = 3

abbrev pub opcode_store : ℕ
opcode_store = 0x23

abbrev pub opcode_opimm : ℕ
opcode_opimm = 0x13

abbrev pub opcode_opimm32 : ℕ
opcode_opimm32 = 0x1b

abbrev pub opcode_op : ℕ
opcode_op = 0x33

abbrev pub opcode_op32 : ℕ
opcode_op32 = 0x3b

abbrev pub opcode_fence : ℕ
opcode_fence = 0xf

abbrev pub opcode_system : ℕ
opcode_system = 0x73

abbrev pub opcode_amo : ℕ
opcode_amo = 0x2f

-- `rv64c_funct2`.
abbrev pub funct2_sub : ℕ
funct2_sub = 0

abbrev pub funct2_xor_addw : ℕ
funct2_xor_addw = 1

abbrev pub funct2_or : ℕ
funct2_or = 2

-- `funct3_branch`.
abbrev pub funct3_beq : ℕ
funct3_beq = 0

abbrev pub funct3_bne : ℕ
funct3_bne = 1

abbrev pub funct3_blt : ℕ
funct3_blt = 4

abbrev pub funct3_bge : ℕ
funct3_bge = 5

abbrev pub funct3_bltu : ℕ
funct3_bltu = 6

abbrev pub funct3_bgeu : ℕ
funct3_bgeu = 7

-- `funct3_load`.
abbrev pub funct3_lb : ℕ
funct3_lb = 0

abbrev pub funct3_lh : ℕ
funct3_lh = 1

abbrev pub funct3_lw : ℕ
funct3_lw = 2

abbrev pub funct3_ld : ℕ
funct3_ld = 3

abbrev pub funct3_lbu : ℕ
funct3_lbu = 4

abbrev pub funct3_lhu : ℕ
funct3_lhu = 5

abbrev pub funct3_lwu : ℕ
funct3_lwu = 6

-- `funct3_store`.
abbrev pub funct3_sb : ℕ
funct3_sb = 0

abbrev pub funct3_sh : ℕ
funct3_sh = 1

abbrev pub funct3_sw : ℕ
funct3_sw = 2

abbrev pub funct3_sd : ℕ
funct3_sd = 3

-- `funct3_op`.
abbrev pub funct3_add_sub : ℕ
funct3_add_sub = 0

abbrev pub funct3_sll : ℕ
funct3_sll = 1

abbrev pub funct3_slt : ℕ
funct3_slt = 2

abbrev pub funct3_sltu : ℕ
funct3_sltu = 3

abbrev pub funct3_xor : ℕ
funct3_xor = 4

abbrev pub funct3_srl_sra : ℕ
funct3_srl_sra = 5

abbrev pub funct3_or : ℕ
funct3_or = 6

-- `funct3_m`.
abbrev pub funct3_mul : ℕ
funct3_mul = 0

abbrev pub funct3_mulh : ℕ
funct3_mulh = 1

abbrev pub funct3_mulhsu : ℕ
funct3_mulhsu = 2

abbrev pub funct3_mulhu : ℕ
funct3_mulhu = 3

abbrev pub funct3_div : ℕ
funct3_div = 4

abbrev pub funct3_divu : ℕ
funct3_divu = 5

abbrev pub funct3_rem : ℕ
funct3_rem = 6

-- `funct3_system`.
abbrev pub funct3_priv : ℕ
funct3_priv = 0

abbrev pub funct3_csrrw : ℕ
funct3_csrrw = 1

abbrev pub funct3_csrrs : ℕ
funct3_csrrs = 2

abbrev pub funct3_csrrc : ℕ
funct3_csrrc = 3

abbrev pub funct3_csrrwi : ℕ
funct3_csrrwi = 5

abbrev pub funct3_csrrsi : ℕ
funct3_csrrsi = 6

abbrev pub funct3_csrrci : ℕ
funct3_csrrci = 7

-- `funct7_priv`.
abbrev pub funct7_ecall_ebreak : ℕ
funct7_ecall_ebreak = 0

abbrev pub funct7_sret_wfi : ℕ
funct7_sret_wfi = 8

abbrev pub funct7_mret : ℕ
funct7_mret = 0x18

abbrev pub funct7_sfence_vma : ℕ
funct7_sfence_vma = 9

-- `funct7`.
abbrev pub funct7_normal : ℕ
funct7_normal = 0

abbrev pub funct7_sub_sra : ℕ
funct7_sub_sra = 0x20

abbrev pub funct7_mul : ℕ
funct7_mul = 1

-- `funct6`.
abbrev pub funct6_normal : ℕ
funct6_normal = 0

abbrev pub funct6_sra : ℕ
funct6_sra = 0x10
