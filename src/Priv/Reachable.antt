-- ===== src/Priv/Reachable.antt =====
-- The states that the operations of `rv_priv` (difftest/src/rv_priv.hpp) lead to after `reset`.
use hdu_riscv_lab.Prelude.{ℕ, ◌≡◌, refl, arith, Bool, true, some, ok, ◌>>=◌}
use hdu_riscv_lab.Csr.{exc_load_acc_fault}
use hdu_riscv_lab.Sv39.{Sv39}
use hdu_riscv_lab.Bus.{Bus, pa_read}
use hdu_riscv_lab.Priv.{Priv, reset, csr_write, csr_setbit, csr_clearbit}
use hdu_riscv_lab.Priv.Trap.{
  difftest_preexec, raise_trap, pre_exec, post_exec, mret, sret, sfence_vma, with_lines, retired,
}
use hdu_riscv_lab.Priv.Access.{va_read, data_bare, code_of, bytes_of}
use hdu_riscv_lab.Priv.Status.{blanks_zero-IsLegal}
use hdu_riscv_lab.Priv.Invariant.{
  IsWf, reset-IsWf, check_and_raise_int-IsWf, raise_trap-IsWf, Keeps-IsWf, csr_write-IsWf,
  with_lines-IsWf, csr_setbit-csr_write, csr_clearbit-csr_write, mret-IsWf, sret-IsWf,
  sfence_vma-IsWf, post_exec-IsWf,
}

-- One operation that returned. `translates` is what an access does to the TLB.
pub data Step (run_test only_m : Bool) : Priv → Priv → Type 0 where
  resets : {p : Priv} → Step run_test only_m p (reset run_test only_m p)
  preexecs : {p : Priv} (c i ip : ℕ) → Step run_test only_m p (difftest_preexec p c i ip)
  pre_execs :
      {p p' : Priv} (pc : ℕ) (e s t x : Bool)
      → pre_exec p pc e s t x ≡ ok p'
      → Step run_test only_m p p'
  post_execs : {p p' : Priv} → post_exec p ≡ ok p' → Step run_test only_m p p'
  csr_writes :
      {p p' : Priv} (i v : ℕ)
      → csr_write run_test only_m p i v ≡ ok (some p')
      → Step run_test only_m p p'
  csr_setbits :
      {p p' : Priv} (i v : ℕ)
      → csr_setbit run_test only_m p i v ≡ ok (some p')
      → Step run_test only_m p p'
  csr_clearbits :
      {p p' : Priv} (i v : ℕ)
      → csr_clearbit run_test only_m p i v ≡ ok (some p')
      → Step run_test only_m p p'
  traps :
      {p p' : Priv} (pc cause interrupt tval : ℕ)
      → raise_trap p pc cause interrupt tval ≡ ok p'
      → Step run_test only_m p p'
  mrets : {p p' : Priv} → mret p ≡ some p' → Step run_test only_m p p'
  srets : {p p' : Priv} → sret p ≡ some p' → Step run_test only_m p p'
  fences :
      {p p' : Priv} (vaddr asid : ℕ) → sfence_vma p vaddr asid ≡ some p' → Step run_test only_m p p'
  translates : {p : Priv} (s : Sv39) → Step run_test only_m p (record p { sv39 = s })

pub data Reachable (run_test only_m : Bool) : Priv → Type 0 where
  starts : (p : Priv) → Reachable run_test only_m (reset run_test only_m p)
  steps :
      {p p' : Priv}
      → Reachable run_test only_m p
      → Step run_test only_m p p'
      → Reachable run_test only_m p'

module _ (run_test only_m : Bool) where
  Step-IsWf : {p p' : Priv} → Step run_test only_m p p' → IsWf p → IsWf p'
  Step-IsWf {p} resets w = reset-IsWf run_test only_m p
  Step-IsWf {p} (preexecs c i ip) w =
      unfold difftest_preexec in
      record {
        plain_cur = w.plain_next;
        plain_next = w.plain_next;
        legal = w.legal;
        no_medeleg = w.no_medeleg;
        no_mideleg = w.no_mideleg;
        no_satp = w.no_satp;
      }
  Step-IsWf {p} {p'} (pre_execs pc e s t x h) w =
      check_and_raise_int-IsWf (with_lines p e s t x) p' pc (with_lines-IsWf p e s t x w)
        (unfold pre_exec in h)
  Step-IsWf {p} {p'} (post_execs h) w = post_exec-IsWf p p' h w
  Step-IsWf {p} {p'} (csr_writes i v h) w = csr_write-IsWf run_test only_m p p' i v w h
  Step-IsWf {p} {p'} (csr_setbits i v h) w =
      let (u, written) = csr_setbit-csr_write run_test only_m p p' i v h in
      csr_write-IsWf run_test only_m p p' i u w written
  Step-IsWf {p} {p'} (csr_clearbits i v h) w =
      let (u, written) = csr_clearbit-csr_write run_test only_m p p' i v h in
      csr_write-IsWf run_test only_m p p' i u w written
  Step-IsWf {p} {p'} (traps pc cause interrupt tval h) w =
      raise_trap-IsWf p p' pc cause interrupt tval w h
  Step-IsWf {p} {p'} (mrets h) w = mret-IsWf p p' h w
  Step-IsWf {p} {p'} (srets h) w = sret-IsWf p p' h w
  Step-IsWf {p} {p'} (fences vaddr asid h) w = sfence_vma-IsWf p p' vaddr asid h w
  Step-IsWf {p} (translates s) w =
      Keeps-IsWf p (record p { sv39 = s }) w (refl, refl, refl, refl, refl) w.legal

  -- Whatever sequence of operations follows a reset, the hart is in machine or user mode and goes on
  -- in one of them, mstatus keeps its blank fields at 0 and never names the supervisor mode, nothing is
  -- delegated, and address translation stays off.
  pub Reachable-IsWf : {p : Priv} → Reachable run_test only_m p → IsWf p
  Reachable-IsWf (starts p) = reset-IsWf run_test only_m p
  Reachable-IsWf (steps r s) = Step-IsWf s (Reachable-IsWf r)

  -- The assertions of `post_exec` hold in every reachable state: it always returns.
  pub post_exec_total :
      (p : Priv) → Reachable run_test only_m p → (p' : Priv) × (post_exec p ≡ ok p')
  unfolding post_exec
  post_exec_total p r = (retired p, rw (blanks_zero-IsLegal p.status (Reachable-IsWf r).legal) refl)

  -- In every reachable state a load is a read of the bus at the same address, with a load access fault
  -- where the bus refuses it, and neither the privileged state nor the TLB changes.
  pub va_read_bare :
      (p : Priv) (b : Bus) (start_addr size : ℕ)
      → Reachable run_test only_m p
      → va_read p b start_addr size
        ≡ (pa_read b start_addr size >>= λ r. ok (p, code_of exc_load_acc_fault r, bytes_of r))
  unfolding va_read
  va_read_bare p b start_addr size r = rw (bare (Reachable-IsWf r).no_satp) refl
    where
      bare : p.satp ≡ 0 → data_bare p ≡ true
      bare e = ground (arith, e)
