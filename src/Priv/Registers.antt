-- ===== src/Priv/Registers.antt =====
-- Reads and writes of the CSRs: `csr_read`, `csr_write` and the permission test of
-- difftest/src/rv_priv.hpp.
use hdu_riscv_lab.Prelude.{
  ℕ, ◌/◌, ◌%◌, ◌^◌, ◌≡◌, ◌≢◌, arith, Bool, true, false, ◌||◌, ◌==◌, if◌then◌else◌, Option, none,
  some, ok, bit_and,
}
use hdu_riscv_lab.Csr.{
  csr_cycle, csr_mstatus, csr_mie, csr_mtvec, csr_mscratch, csr_mepc, csr_mcause, csr_mtval,
  csr_mip, csr_mcycle, m_int_mask,
}
use hdu_riscv_lab.Priv.{Priv, csr_read, csr_write, csr_op_permission_check}

-- The CSRs that hold whatever is written.
abbrev pub holds_all : ℕ → Bool
holds_all i =
    (i == csr_mtvec)
    || (i == csr_mscratch)
    || (i == csr_mepc)
    || (i == csr_mcause)
    || (i == csr_mtval)
    || (i == csr_mcycle)

-- What a read gives after a write of `v`, where it gave `old`.
abbrev pub reads_back : ℕ → ℕ → Option ℕ → Option ℕ
reads_back i v old =
    if holds_all i
    then some v
    else if (i == csr_mie) || (i == csr_mip)
    then some (bit_and v m_int_mask)
    else old

module _ (run_test only_m : Bool) where
  -- A CSR other than mstatus reads back what was written, cut to the six interrupts in mie and mip, or
  -- is not changed by writes at all.
  pub csr_read-csr_write :
      (p p' : Priv) (i v : ℕ)
      → i ≢ csr_mstatus
      → csr_write run_test only_m p i v ≡ ok (some p')
      → csr_read p' i ≡ reads_back i v (csr_read p i)
  unfolding csr_write csr_read
  csr_read-csr_write p p' i v other e = ground (arith, other, e)

  -- A write changes what no other CSR reads, but that cycle follows mcycle.
  pub csr_read-csr_write_other :
      (p p' : Priv) (i j v : ℕ)
      → j ≢ i
      → j ≢ csr_cycle
      → csr_write run_test only_m p i v ≡ ok (some p')
      → csr_read p' j ≡ csr_read p j
  unfolding csr_write csr_read
  csr_read-csr_write_other p p' i j v other no_cycle e = ground (arith, other, no_cycle, e)

  -- The permission test lets through no write that `csr_write` would not refuse by itself: an address
  -- marked read-only is refused by both.
  pub csr_write-read_only :
      (p : Priv) (i v : ℕ)
      → i / 2 ^ 10 % 4 ≡ 3
      → (csr_write run_test only_m p i v ≡ ok none) × (csr_op_permission_check p i true ≡ false)
  unfolding csr_write csr_op_permission_check
  csr_write-read_only p i v e = (ground (arith, e), ground (arith, e))

  -- After a write that is accepted, a CSR other than mstatus reads back what was written, cut to the six
  -- interrupts in mie and mip, or is not changed by writes at all; what the other CSRs read is not
  -- changed, but that cycle follows mcycle.
  pub csr_read-csr_write_both :
      (p p' : Priv) (i v : ℕ)
      → i ≢ csr_mstatus
      → csr_write run_test only_m p i v ≡ ok (some p')
      → (csr_read p' i ≡ reads_back i v (csr_read p i))
        × ((j : ℕ) → j ≢ i → j ≢ csr_cycle → csr_read p' j ≡ csr_read p j)
  csr_read-csr_write_both p p' i v other e = (
    csr_read-csr_write p p' i v other e,
    λ j apart no_cycle. csr_read-csr_write_other p p' i j v apart no_cycle e,
  )
