-- ===== src/Priv.antt =====
-- `rv_priv` of difftest/src/rv_priv.hpp: the state, `reset`, and the accesses to the CSRs.
-- The globals `run_riscv_test` and `only_modeM` are the parameters of two sections. The program counter
-- and the bus, which the C++ object holds by reference, are arguments of the functions that use them.
pub mod Trap
pub mod Access
pub mod Status
pub mod Invariant
pub mod Typed
pub mod AccessTyped
pub mod Reachable
pub mod Return
pub mod Registers
pub mod Priority
pub mod Interrupts
pub mod Examples
use hdu_riscv_lab.Prelude.{
  ℕ, ◌+◌, ◌/◌, ◌%◌, ◌^◌, Bool, true, false, not, ◌&&◌, ◌||◌, leb, ◌==◌, if◌then◌else◌, Option, none,
  some, Outcome, ok, ◌>>=◌, assert, bit_and, bit_or,
}
use hdu_riscv_lab.Word.{not64}
use hdu_riscv_lab.Csr.{
  m_mode, csr_cycle, csr_mvendorid, csr_marchid, csr_mimpid, csr_mhartid, csr_mconfigptr,
  csr_mstatus, csr_misa, csr_medeleg, csr_mideleg, csr_mie, csr_mtvec, csr_mcounteren, csr_mscratch,
  csr_mepc, csr_mcause, csr_mtval, csr_mip, csr_mcycle, csr_minstret, csr_tselect, csr_tdata1, mie,
  set_mie, spie, mpie, set_mpie, mpp, set_mpp, mprv, set_mprv, set_uxl, set_ext, set_blank, set_mxl,
  rv_ext, tvec_mode, m_int_mask,
}
use hdu_riscv_lab.Sv39.{Sv39}

pub record Priv : Type 0 where
  pub cur_priv : ℕ
  pub hart_id : ℕ
  pub cur_need_trap : Bool
  pub trap_pc : ℕ
  pub next_priv : ℕ
  pub sv39 : Sv39
  pub status : ℕ
  pub misa : ℕ
  pub medeleg : ℕ
  pub mideleg : ℕ
  pub ie : ℕ
  pub mtvec : ℕ
  pub mscratch : ℕ
  pub mepc : ℕ
  pub mcause : ℕ
  pub mtval : ℕ
  pub mcounteren : ℕ
  pub ip : ℕ
  pub mcycle : ℕ
  pub minstret : ℕ
  pub stvec : ℕ
  pub sscratch : ℕ
  pub sepc : ℕ
  pub scause : ℕ
  pub stval : ℕ
  pub satp : ℕ
  pub scounteren : ℕ

module _ (run_riscv_test only_modeM : Bool) where
  -- The extensions `i`, `m` and `u` are the letters 8, 12 and 20; without `run_riscv_test` the
  -- lower bits of misa stay what they were.
  abbrev pub reset_status : ℕ
  reset_status =
      if run_riscv_test then (if only_modeM then set_mpp m_mode 0 else set_uxl 2 0) else 0

  abbrev pub reset_misa : ℕ → ℕ
  reset_misa isa =
      let ext =
        if run_riscv_test
        then (if only_modeM
            then set_ext (rv_ext 8 + rv_ext 12) isa
            else set_ext (rv_ext 8 + rv_ext 12 + rv_ext 20) isa)
        else isa in
      set_blank 0 (set_mxl 2 ext)

  unfoldable pub reset : Priv → Priv
  reset p = record p {
    trap_pc = 0;
    cur_need_trap = false;
    cur_priv = m_mode;
    next_priv = m_mode;
    status = reset_status;
    misa = reset_misa p.misa;
    medeleg = 0;
    mideleg = 0;
    ie = 0;
    mtvec = 0;
    mscratch = 0;
    mepc = 0;
    mcause = 0;
    mtval = 0;
    mcounteren = 0;
    ip = 0;
    mcycle = 0;
    minstret = 0;
    stvec = 0;
    sscratch = 0;
    sepc = 0;
    scause = 0;
    stval = 0;
    satp = 0;
    scounteren = 0;
  }

-- `none` is the result `false`.
unfoldable pub csr_read : Priv → ℕ → Option ℕ
csr_read p csr_index =
    if csr_index == csr_mvendorid
    then some 0
    else if csr_index == csr_marchid
    then some 0
    else if csr_index == csr_mimpid
    then some 0
    else if csr_index == csr_mhartid
    then some p.hart_id
    else if csr_index == csr_mconfigptr
    then some 0
    else if csr_index == csr_mstatus
    then some p.status
    else if csr_index == csr_misa
    then some p.misa
    else if csr_index == csr_medeleg
    then some p.medeleg
    else if csr_index == csr_mideleg
    then some p.mideleg
    else if csr_index == csr_mie
    then some p.ie
    else if csr_index == csr_mtvec
    then some p.mtvec
    else if csr_index == csr_mcounteren
    then some p.mcounteren
    else if csr_index == csr_mscratch
    then some p.mscratch
    else if csr_index == csr_mepc
    then some p.mepc
    else if csr_index == csr_mcause
    then some p.mcause
    else if csr_index == csr_mtval
    then some p.mtval
    else if csr_index == csr_mip
    then some p.ip
    else if csr_index == csr_mcycle
    then some p.mcycle
    else if csr_index == csr_minstret
    then some p.minstret
    else if csr_index == csr_cycle
    then some p.mcycle
    else if csr_index == csr_tselect
    then some 1
    else if csr_index == csr_tdata1
    then some 0
    else none

-- What a write of `csr_data` makes of mstatus.
abbrev pub legal_mpp : ℕ → ℕ → ℕ
legal_mpp csr_data status =
    if mpp csr_data == 3 || mpp csr_data == 0
    then set_mpp (mpp csr_data) status
    else set_mpp (mpp status) status

module _ (run_riscv_test only_modeM : Bool) where
  unfoldable pub write_status : ℕ → ℕ → Outcome ℕ
  write_status csr_data status =
      let enabled = set_mpie (mpie csr_data) (set_mie (mie csr_data) status) in
      if only_modeM && run_riscv_test
      then ok enabled
      else assert (not (spie enabled == 2)) (
          assert (not (mpie enabled == 2))
            (ok (set_mprv (mprv csr_data) (legal_mpp csr_data enabled))))

  -- `ok none` is the result `false`.
  unfoldable pub csr_write : Priv → ℕ → ℕ → Outcome (Option Priv)
  csr_write p csr_index csr_data =
      if csr_index == csr_misa
      then ok (some p)
      else if csr_index == csr_mstatus
      then (write_status csr_data p.status >>= λ new. ok (some (record p { status = new })))
      else if csr_index == csr_mie
      then ok (some (record p { ie = bit_and csr_data m_int_mask }))
      else if csr_index == csr_mtvec
      then assert (leb (tvec_mode csr_data) 1) (ok (some (record p { mtvec = csr_data })))
      else if csr_index == csr_mcounteren
      then ok (some p)
      else if csr_index == csr_mscratch
      then ok (some (record p { mscratch = csr_data }))
      else if csr_index == csr_mepc
      then ok (some (record p { mepc = csr_data }))
      else if csr_index == csr_mcause
      then ok (some (record p { mcause = csr_data }))
      else if csr_index == csr_mtval
      then ok (some (record p { mtval = csr_data }))
      else if csr_index == csr_mip
      then ok (some (record p { ip = bit_and csr_data m_int_mask }))
      else if csr_index == csr_mcycle
      then ok (some (record p { mcycle = csr_data }))
      else if csr_index == csr_tselect
      then ok (some p)
      else if csr_index == csr_tdata1
      then ok (some p)
      else ok none

  unfoldable pub csr_setbit : Priv → ℕ → ℕ → Outcome (Option Priv)
  csr_setbit p csr_index csr_mask = elim (csr_read p csr_index) [
    | none ↦ ok none
    | some tmp ↦ csr_write p csr_index (bit_or tmp csr_mask)
  ]

  unfoldable pub csr_clearbit : Priv → ℕ → ℕ → Outcome (Option Priv)
  csr_clearbit p csr_index csr_mask = elim (csr_read p csr_index) [
    | none ↦ ok none
    | some tmp ↦ csr_write p csr_index (bit_and tmp (not64 csr_mask))
  ]

-- The last two bits of the upper four tell a read-only CSR.
unfoldable pub csr_op_permission_check : Priv → ℕ → Bool → Bool
csr_op_permission_check p csr_index write =
    if not (p.cur_priv == m_mode)
    then false
    else if (csr_index / 2 ^ 10 % 4 == 3) && write
    then false
    else true
