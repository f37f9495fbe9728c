-- ===== src/Csr.antt =====
-- The numbers and bit-fields of difftest/src/rv_common.hpp: privilege modes, CSR addresses,
-- interrupt and exception codes, and the fields of mstatus, misa, xcause, xtvec, mip, satp.
-- They are numbers, as the C enums are: the program adds to them and compares them.
use hdu_riscv_lab.Prelude.{ℕ, ◌+◌, ◌*◌, ◌^◌, ◌%◌, Bool, not, ◌==◌}
use hdu_riscv_lab.Word.{get_bits, set_bits}

abbrev pub u_mode : ℕ
u_mode = 0

abbrev pub s_mode : ℕ
s_mode = 1

abbrev pub m_mode : ℕ
m_mode = 3

-- A number as a C condition.
abbrev pub nonzero : ℕ → Bool
nonzero n = not (n == 0)

abbrev pub csr_cycle : ℕ
csr_cycle = 0xc00

abbrev pub csr_mvendorid : ℕ
csr_mvendorid = 0xf11

abbrev pub csr_marchid : ℕ
csr_marchid = 0xf12

abbrev pub csr_mimpid : ℕ
csr_mimpid = 0xf13

abbrev pub csr_mhartid : ℕ
csr_mhartid = 0xf14

abbrev pub csr_mconfigptr : ℕ
csr_mconfigptr = 0xf15

abbrev pub csr_mstatus : ℕ
csr_mstatus = 0x300

abbrev pub csr_misa : ℕ
csr_misa = 0x301

abbrev pub csr_medeleg : ℕ
csr_medeleg = 0x302

abbrev pub csr_mideleg : ℕ
csr_mideleg = 0x303

abbrev pub csr_mie : ℕ
csr_mie = 0x304

abbrev pub csr_mtvec : ℕ
csr_mtvec = 0x305

abbrev pub csr_mcounteren : ℕ
csr_mcounteren = 0x306

abbrev pub csr_mscratch : ℕ
csr_mscratch = 0x340

abbrev pub csr_mepc : ℕ
csr_mepc = 0x341

abbrev pub csr_mcause : ℕ
csr_mcause = 0x342

abbrev pub csr_mtval : ℕ
csr_mtval = 0x343

abbrev pub csr_mip : ℕ
csr_mip = 0x344

abbrev pub csr_mcycle : ℕ
csr_mcycle = 0xb00

abbrev pub csr_minstret : ℕ
csr_minstret = 0xb02

abbrev pub csr_tselect : ℕ
csr_tselect = 0x7a0

abbrev pub csr_tdata1 : ℕ
csr_tdata1 = 0x7a1

abbrev pub int_s_sw : ℕ
int_s_sw = 1

abbrev pub int_m_sw : ℕ
int_m_sw = 3

abbrev pub int_s_timer : ℕ
int_s_timer = 5

abbrev pub int_m_timer : ℕ
int_m_timer = 7

abbrev pub int_s_ext : ℕ
int_s_ext = 9

abbrev pub int_m_ext : ℕ
int_m_ext = 11

abbrev pub exc_instr_misalign : ℕ
exc_instr_misalign = 0

abbrev pub exc_instr_acc_fault : ℕ
exc_instr_acc_fault = 1

abbrev pub exc_illegal_instr : ℕ
exc_illegal_instr = 2

abbrev pub exc_breakpoint : ℕ
exc_breakpoint = 3

abbrev pub exc_load_misalign : ℕ
exc_load_misalign = 4

abbrev pub exc_load_acc_fault : ℕ
exc_load_acc_fault = 5

abbrev pub exc_store_misalign : ℕ
exc_store_misalign = 6

abbrev pub exc_store_acc_fault : ℕ
exc_store_acc_fault = 7

abbrev pub exc_instr_pgfault : ℕ
exc_instr_pgfault = 12

abbrev pub exc_load_pgfault : ℕ
exc_load_pgfault = 13

abbrev pub exc_store_pgfault : ℕ
exc_store_pgfault = 15

abbrev pub exc_custom_ok : ℕ
exc_custom_ok = 24

-- The fields of mstatus.
abbrev pub blank0 : ℕ → ℕ
blank0 = get_bits 0 1

abbrev pub sie : ℕ → ℕ
sie = get_bits 1 1

abbrev pub set_sie : ℕ → ℕ → ℕ
set_sie = set_bits 1 1

abbrev pub blank1 : ℕ → ℕ
blank1 = get_bits 2 1

abbrev pub mie : ℕ → ℕ
mie = get_bits 3 1

abbrev pub set_mie : ℕ → ℕ → ℕ
set_mie = set_bits 3 1

abbrev pub blank2 : ℕ → ℕ
blank2 = get_bits 4 1

abbrev pub spie : ℕ → ℕ
spie = get_bits 5 1

abbrev pub set_spie : ℕ → ℕ → ℕ
set_spie = set_bits 5 1

abbrev pub mpie : ℕ → ℕ
mpie = get_bits 7 1

abbrev pub set_mpie : ℕ → ℕ → ℕ
set_mpie = set_bits 7 1

abbrev pub spp : ℕ → ℕ
spp = get_bits 8 1

abbrev pub set_spp : ℕ → ℕ → ℕ
set_spp = set_bits 8 1

abbrev pub mpp : ℕ → ℕ
mpp = get_bits 11 2

abbrev pub set_mpp : ℕ → ℕ → ℕ
set_mpp = set_bits 11 2

abbrev pub mprv : ℕ → ℕ
mprv = get_bits 17 1

abbrev pub set_mprv : ℕ → ℕ → ℕ
set_mprv = set_bits 17 1

abbrev pub sum : ℕ → ℕ
sum = get_bits 18 1

abbrev pub mxr : ℕ → ℕ
mxr = get_bits 19 1

abbrev pub tvm : ℕ → ℕ
tvm = get_bits 20 1

abbrev pub tsr : ℕ → ℕ
tsr = get_bits 22 1

abbrev pub blank3 : ℕ → ℕ
blank3 = get_bits 23 9

abbrev pub uxl : ℕ → ℕ
uxl = get_bits 32 2

abbrev pub set_uxl : ℕ → ℕ → ℕ
set_uxl = set_bits 32 2

abbrev pub blank4 : ℕ → ℕ
blank4 = get_bits 38 25

-- The fields of misa.
abbrev pub set_ext : ℕ → ℕ → ℕ
set_ext = set_bits 0 26

abbrev pub set_blank : ℕ → ℕ → ℕ
set_blank = set_bits 26 36

abbrev pub set_mxl : ℕ → ℕ → ℕ
set_mxl = set_bits 62 2

-- `rv_ext(x)` on the place of a letter in the alphabet.
abbrev pub rv_ext : ℕ → ℕ
rv_ext x = 2 ^ x

-- A `csr_cause_def` as a word.
abbrev pub cause_word : ℕ → ℕ → ℕ
cause_word cause interrupt = cause % 2 ^ 63 + interrupt % 2 * 2 ^ 63

-- The fields of mtvec and stvec.
abbrev pub tvec_mode : ℕ → ℕ
tvec_mode = get_bits 0 2

abbrev pub tvec_base : ℕ → ℕ
tvec_base = get_bits 2 62

-- The fields of mip.
abbrev pub set_m_s_ip : ℕ → ℕ → ℕ
set_m_s_ip = set_bits 3 1

abbrev pub set_m_t_ip : ℕ → ℕ → ℕ
set_m_t_ip = set_bits 7 1

abbrev pub set_s_e_ip : ℕ → ℕ → ℕ
set_s_e_ip = set_bits 9 1

abbrev pub set_m_e_ip : ℕ → ℕ → ℕ
set_m_e_ip = set_bits 11 1

abbrev pub s_int_mask : ℕ
s_int_mask = 2 ^ 9 + 2 ^ 1 + 2 ^ 5

abbrev pub m_int_mask : ℕ
m_int_mask = s_int_mask + 2 ^ 11 + 2 ^ 3 + 2 ^ 7

-- The fields of satp.
abbrev pub satp_ppn : ℕ → ℕ
satp_ppn = get_bits 0 44

abbrev pub satp_asid : ℕ → ℕ
satp_asid = get_bits 44 16

abbrev pub satp_mode : ℕ → ℕ
satp_mode = get_bits 60 4
