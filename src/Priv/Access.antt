-- ===== src/Priv/Access.antt =====
-- The accesses through virtual addresses of `rv_priv` in difftest/src/rv_priv.hpp.
-- Each gives the exception code, `exc_custom_ok` for none; what it then gives back is only used on
-- `exc_custom_ok`. The TLB has 32 entries.
use hdu_riscv_lab.Prelude.{
  ℕ, ◌%◌, ◌^◌, Bool, false, not, ◌&&◌, ◌||◌, ◌==◌, if◌then◌else◌, List, [], ◌++◌, take, Option,
  none, some, Outcome, ok, exits, ◌>>=◌, assert,
}
use hdu_riscv_lab.Word.{add64, sub64, shr}
use hdu_riscv_lab.Bytes.{of_bytes}
use hdu_riscv_lab.Bus.{Bus, AmoFunct, pa_read, pa_write, pa_lr, pa_sc, pa_amo_op}
use hdu_riscv_lab.Csr.{
  u_mode, s_mode, m_mode, nonzero, exc_instr_misalign, exc_instr_acc_fault, exc_load_misalign,
  exc_load_acc_fault, exc_store_misalign, exc_store_acc_fault, exc_instr_pgfault, exc_load_pgfault,
  exc_store_pgfault, exc_custom_ok, mpp, mprv, sum, mxr, satp_mode,
}
use hdu_riscv_lab.Sv39.{TlbEntry, local_tlbe_get}
use hdu_riscv_lab.Priv.{Priv}

-- The tests that the accesses share.
abbrev pub fetch_bare : Priv → Bool
fetch_bare p = (p.cur_priv == m_mode) || (satp_mode p.satp == 0)

abbrev pub data_bare : Priv → Bool
data_bare p =
    ((p.cur_priv == m_mode) && (not (nonzero (mprv p.status)) || (mpp p.status == m_mode)))
    || (satp_mode p.satp == 0)

abbrev pub crosses_page : ℕ → ℕ → Bool
crosses_page start_addr size = not (shr start_addr 12 == shr (sub64 (add64 start_addr size) 1) 12)

abbrev pub data_priv : Priv → ℕ
data_priv p = if nonzero (mprv p.status) && (p.cur_priv == m_mode) then mpp p.status else p.cur_priv

abbrev pub page_bytes : TlbEntry → ℕ
page_bytes e = if e.pagesize == 1 then 2 ^ 12 else if e.pagesize == 2 then 2 ^ 21 else 2 ^ 30

abbrev pub pa_in : TlbEntry → ℕ → ℕ
pa_in e start_addr = add64 e.ppa (start_addr % page_bytes e)

abbrev pub lookup : Priv → Bus → ℕ → Outcome (Priv × Option TlbEntry)
lookup p b va = local_tlbe_get 32 p.sv39 b p.satp va >>= λ r. ok (record p { sv39 = r.0 }, r.1)

-- The page faults of the three kinds of access, on the result of the lookup.
abbrev pub fetch_refused : Priv → TlbEntry → Bool
fetch_refused p e =
    not e.accessed
    || not e.executable
    || ((p.cur_priv == u_mode) && not e.user)
    || ((p.cur_priv == s_mode) && e.user)

abbrev pub load_refused : Priv → TlbEntry → Bool
load_refused p e =
    not e.accessed
    || (not e.readable && not (nonzero (mxr p.status) && not e.executable))
    || ((data_priv p == u_mode) && not e.user)

abbrev pub store_refused : Priv → TlbEntry → Bool
store_refused p e =
    not e.accessed
    || not e.dirty
    || not e.writable
    || ((data_priv p == u_mode) && not e.user)
    || (not (nonzero (sum p.status)) && (data_priv p == s_mode) && e.user)

-- The access to a user page that `sum` does not permit, in loads and `lr`.
abbrev pub user_page_refused : Priv → TlbEntry → Bool
user_page_refused p e = not (nonzero (sum p.status)) && (data_priv p == s_mode) && e.user

-- The exception code of an access that the bus has refused (`none`) or made, and what it read.
abbrev pub code_of {ℓ} : {A : Type ℓ} → ℕ → Option A → ℕ
code_of fault none = fault
code_of fault (some value) = exc_custom_ok

abbrev pub bytes_of : Option (List ℕ) → List ℕ
bytes_of none = []
bytes_of (some bytes) = bytes

-- `va_if` but for its first case.
unfoldable pub va_if_within : Priv → Bus → ℕ → ℕ → Outcome (Priv × ℕ × List ℕ)
va_if_within p b start_addr size =
    if fetch_bare p
    then (pa_read b start_addr size >>= λ r. ok (p, code_of exc_instr_acc_fault r, bytes_of r))
    else if crosses_page start_addr size
    then ok (p, exc_instr_misalign, [])
    else (lookup p b start_addr >>= λ found. elim found.1 [
      | none ↦ ok (found.0, exc_instr_pgfault, [])
      | some e ↦
          if fetch_refused p e
          then ok (found.0, exc_instr_pgfault, [])
          else (pa_read b (pa_in e start_addr) size >>= λ r.
              ok (found.0, code_of exc_instr_acc_fault r, bytes_of r))
    ])

-- The last part of the result is `bad_va`.
unfoldable pub va_if : Priv → Bus → ℕ → ℕ → Outcome (Priv × ℕ × List ℕ × ℕ)
va_if p b start_addr size =
    if (size == 4) && (start_addr % 4 == 2)
    then (va_if_within p b start_addr 2 >>= λ (p0, res0, lower).
        if not (res0 == exc_custom_ok)
        then ok (p0, res0, lower, start_addr)
        else (va_if_within p0 b (add64 start_addr 2) 2 >>= λ (p1, res1, upper).
            ok (p1, res1, lower ++ upper, add64 start_addr 2)))
    else (va_if_within p b start_addr size >>= λ (p', res, bytes). ok (p', res, bytes, start_addr))

unfoldable pub va_read : Priv → Bus → ℕ → ℕ → Outcome (Priv × ℕ × List ℕ)
va_read p b start_addr size =
    if data_bare p
    then (pa_read b start_addr size >>= λ r. ok (p, code_of exc_load_acc_fault r, bytes_of r))
    else if crosses_page start_addr size
    then ok (p, exc_load_misalign, [])
    else (lookup p b start_addr >>= λ found. elim found.1 [
      | none ↦ ok (found.0, exc_load_pgfault, [])
      | some e ↦
          if load_refused p e
          then ok (found.0, exc_load_pgfault, [])
          else if user_page_refused p e
          then ok (found.0, exc_load_acc_fault, [])
          else (pa_read b (pa_in e start_addr) size >>= λ r.
              ok (found.0, code_of exc_load_acc_fault r, bytes_of r))
    ])

abbrev pub write_code : ℕ → Bool → ℕ
write_code fault pstatus = if pstatus then exc_custom_ok else fault

-- The end of a run of a test program: a store of 1 to `tohost`, of which 8 bytes are read.
abbrev pub stops_test : Bool → ℕ → List ℕ → Bool
stops_test run_riscv_test addr buffer =
    run_riscv_test && (addr == 0x80001000) && (of_bytes (take 8 buffer) == 1)

unfoldable pub va_write : Bool → Priv → Bus → ℕ → ℕ → List ℕ → Outcome (Priv × Bus × ℕ)
va_write run_riscv_test p b start_addr size buffer =
    if data_bare p
    then (if stops_test run_riscv_test start_addr buffer
        then exits 0
        else (pa_write b start_addr size buffer >>= λ r.
            ok (p, r.0, write_code exc_store_acc_fault r.1)))
    else if crosses_page start_addr size
    then ok (p, b, exc_store_misalign)
    else (lookup p b start_addr >>= λ found. elim found.1 [
      | none ↦ ok (found.0, b, exc_store_pgfault)
      | some e ↦
          if store_refused p e
          then ok (found.0, b, exc_store_pgfault)
          else if stops_test run_riscv_test (pa_in e start_addr) buffer
          then exits 0
          else (pa_write b (pa_in e start_addr) size buffer >>= λ r.
              ok (found.0, r.0, write_code exc_store_pgfault r.1))
    ])

abbrev pub valid_size : ℕ → Bool
valid_size size = (size == 4) || (size == 8)

unfoldable pub va_lr : Priv → Bus → ℕ → ℕ → Outcome (Priv × Bus × ℕ × List ℕ)
va_lr p b start_addr size = assert (valid_size size) (
    if data_bare p
    then (pa_lr b start_addr size p.hart_id >>= λ r.
        ok (p, r.0, code_of exc_store_acc_fault r.1, bytes_of r.1))
    else if crosses_page start_addr size
    then ok (p, b, exc_store_misalign, [])
    else (lookup p b start_addr >>= λ found. elim found.1 [
      | none ↦ ok (found.0, b, exc_store_pgfault, [])
      | some e ↦
          if load_refused p e
          then ok (found.0, b, exc_store_pgfault, [])
          else if user_page_refused p e
          then ok (found.0, b, exc_store_acc_fault, [])
          else (pa_lr b (pa_in e start_addr) size p.hart_id >>= λ r.
              ok (found.0, r.0, code_of exc_store_acc_fault r.1, bytes_of r.1))
    ]))

-- The last part of the result is `sc_fail`.
unfoldable pub va_sc : Priv → Bus → ℕ → ℕ → List ℕ → Outcome (Priv × Bus × ℕ × Bool)
va_sc p b start_addr size buffer = assert (valid_size size) (
    if data_bare p
    then (pa_sc b start_addr size buffer p.hart_id >>= λ (b', pstatus, sc_fail).
        ok (p, b', write_code exc_store_acc_fault pstatus, sc_fail))
    else if crosses_page start_addr size
    then ok (p, b, exc_store_misalign, false)
    else (lookup p b start_addr >>= λ found. elim found.1 [
      | none ↦ ok (found.0, b, exc_store_pgfault, false)
      | some e ↦
          if store_refused p e
          then ok (found.0, b, exc_store_pgfault, false)
          else (pa_sc b (pa_in e start_addr) size buffer p.hart_id >>= λ (b', pstatus, sc_fail).
              ok (found.0, b', write_code exc_store_pgfault pstatus, sc_fail))
    ]))

abbrev pub dst_of : Option ℕ → ℕ
dst_of none = 0
dst_of (some dst) = dst

unfoldable pub va_amo : Priv → Bus → ℕ → ℕ → AmoFunct → ℕ → Outcome (Priv × Bus × ℕ × ℕ)
va_amo p b start_addr size op src = assert (valid_size size) (
    if data_bare p
    then (pa_amo_op b start_addr size op src >>= λ r.
        ok (p, r.0, code_of exc_store_acc_fault r.1, dst_of r.1))
    else if crosses_page start_addr size
    then ok (p, b, exc_store_misalign, 0)
    else (lookup p b start_addr >>= λ found. elim found.1 [
      | none ↦ ok (found.0, b, exc_store_pgfault, 0)
      | some e ↦
          if store_refused p e
          then ok (found.0, b, exc_store_pgfault, 0)
          else (pa_amo_op b (pa_in e start_addr) size op src >>= λ r.
              ok (found.0, r.0, code_of exc_store_pgfault r.1, dst_of r.1))
    ]))
