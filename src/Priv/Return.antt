-- ===== src/Priv/Return.antt =====
-- Entry to and return from the machine-mode handler: `raise_trap` and `mret` of
-- difftest/src/rv_priv.hpp.
use hdu_riscv_lab.Prelude.{ℕ, ◌≡◌, refl, sym, ap, subst, ◌∙◌, arith, Bool, false, ◌==◌, some, ok}
use hdu_riscv_lab.Csr.{u_mode, m_mode, mie, mpie, mpp, csr_mstatus, csr_mepc, exc_custom_ok}
use hdu_riscv_lab.Sv39.{Sv39}
use hdu_riscv_lab.Priv.{Priv, csr_write, csr_setbit, csr_clearbit}
use hdu_riscv_lab.Priv.Trap.{
  trapped, raise_trap, pre_exec, post_exec, with_lines, retired, check_and_raise_int,
  final_int_index, mret, m_returned, m_trap_status, mret_status,
}
use hdu_riscv_lab.Priv.Status.{IsPlain}
use hdu_riscv_lab.Priv.Invariant.{
  IsWf, delegated-IsWf, csr_setbit-csr_write, csr_clearbit-csr_write,
}

raise_trap-trapped :
    (p p' : Priv) (pc cause interrupt tval : ℕ)
    → raise_trap p pc cause interrupt tval ≡ ok p'
    → p' ≡ trapped p pc cause interrupt tval
unfolding raise_trap
raise_trap-trapped p p' pc cause interrupt tval e = ground (arith, e)

raise_trap-status :
    (p p' : Priv) (pc cause interrupt tval : ℕ)
    → IsWf p
    → raise_trap p pc cause interrupt tval ≡ ok p'
    → (p'.next_priv ≡ m_mode) × (p'.mepc ≡ pc) × (p'.status ≡ m_trap_status p.cur_priv p.status)
raise_trap-status p p' pc cause interrupt tval w e =
    let same = raise_trap-trapped p p' pc cause interrupt tval e in
    let direct = delegated-IsWf p cause interrupt w in
    rw same (unfold trapped in rw direct (refl, refl, refl))

m_trap_status-fields :
    (m s : ℕ)
    → IsPlain m
    → (mie (m_trap_status m s) ≡ 0)
      × (mpp (m_trap_status m s) ≡ m)
      × (mpie (m_trap_status m s) ≡ mie s)
m_trap_status-fields m s plain = (omega arith, ground (arith, plain), omega arith)

mret_status-fields : (s : ℕ) → (mie (mret_status s) ≡ mpie s) × (mpp (mret_status s) ≡ u_mode)
mret_status-fields s = (ground arith, ground arith)

ok_of : {p q : Priv} → ok p ≡ ok q → p ≡ q
ok_of e = cc

-- What the handler keeps: the interrupted pc, what the trap saved in mstatus, and machine mode with
-- interrupts off.
abbrev InHandler : ℕ → ℕ → Priv → Type 0
InHandler pc status p = (p.next_priv ≡ m_mode) × (p.mepc ≡ pc) × (p.status ≡ status)

-- With interrupts off in machine mode none is taken.
pre_exec_off :
    (p : Priv) (pc : ℕ) (meip msip mtip seip : Bool)
    → p.next_priv ≡ m_mode
    → mie p.status ≡ 0
    → pre_exec p pc meip msip mtip seip ≡ ok (with_lines p meip msip mtip seip)
unfolding pre_exec check_and_raise_int
pre_exec_off p pc meip msip mtip seip mode off =
    let none_taken : final_int_index (with_lines p meip msip mtip seip) ≡ exc_custom_ok =
      unfold final_int_index in ground (arith, mode, off) in
    ground (arith, none_taken)

module _ (run_test only_m : Bool) where
  csr_write-InHandler :
      (p p' : Priv) (pc status i v : ℕ)
      → (i == csr_mstatus) ≡ false
      → (i == csr_mepc) ≡ false
      → csr_write run_test only_m p i v ≡ ok (some p')
      → InHandler pc status p
      → InHandler pc status p'
  csr_write-InHandler p p' pc status i v other plain e (mode, epc, same) =
      unfold csr_write in
      (
        ground (arith, other, e) ∙ mode,
        ground (arith, other, plain, e) ∙ epc,
        ground (arith, other, e) ∙ same,
      )

  -- What the handler's instructions do to the privileged state, one operation after the other: an
  -- instruction begins and ends, CSRs other than mstatus and mepc are written, set and cleared, and an
  -- access to memory changes the TLB.
  pub data Handles : Priv → Priv → Type 0 where
    done : {p : Priv} → Handles p p
    begins :
        {p p' q : Priv} (pc : ℕ) (meip msip mtip seip : Bool)
        → pre_exec p pc meip msip mtip seip ≡ ok p'
        → Handles p' q
        → Handles p q
    ends : {p p' q : Priv} → post_exec p ≡ ok p' → Handles p' q → Handles p q
    writes :
        {p p' q : Priv} (i v : ℕ)
        → (i == csr_mstatus) ≡ false
        → (i == csr_mepc) ≡ false
        → csr_write run_test only_m p i v ≡ ok (some p')
        → Handles p' q
        → Handles p q
    sets :
        {p p' q : Priv} (i v : ℕ)
        → (i == csr_mstatus) ≡ false
        → (i == csr_mepc) ≡ false
        → csr_setbit run_test only_m p i v ≡ ok (some p')
        → Handles p' q
        → Handles p q
    clears :
        {p p' q : Priv} (i v : ℕ)
        → (i == csr_mstatus) ≡ false
        → (i == csr_mepc) ≡ false
        → csr_clearbit run_test only_m p i v ≡ ok (some p')
        → Handles p' q
        → Handles p q
    accesses : {p q : Priv} (s : Sv39) → Handles (record p { sv39 = s }) q → Handles p q

  Handles-InHandler :
      (p q : Priv) (pc status : ℕ)
      → mie status ≡ 0
      → Handles p q
      → InHandler pc status p
      → InHandler pc status q
  Handles-InHandler p q pc status off done h = h
  Handles-InHandler p q pc status off (begins {p' = p'} at e s t x began more) h =
      let same : with_lines p e s t x ≡ p' =
        ok_of (sym (pre_exec_off p at e s t x h.0 (ap mie h.2 ∙ off)) ∙ began) in
      Handles-InHandler p' q pc status off more (subst (InHandler pc status) same h)
  Handles-InHandler p q pc status off (ends {p' = p'} ended more) h =
      let same : retired p ≡ p' = unfold post_exec in ground (arith, ended) in
      Handles-InHandler p' q pc status off more (subst (InHandler pc status) same h)
  Handles-InHandler p q pc status off (writes {p' = p'} i v other plain e more) h =
      Handles-InHandler p' q pc status off more
        (csr_write-InHandler p p' pc status i v other plain e h)
  Handles-InHandler p q pc status off (sets {p' = p'} i v other plain e more) h =
      let (u, written) = csr_setbit-csr_write run_test only_m p p' i v e in
      Handles-InHandler p' q pc status off more
        (csr_write-InHandler p p' pc status i u other plain written h)
  Handles-InHandler p q pc status off (clears {p' = p'} i v other plain e more) h =
      let (u, written) = csr_clearbit-csr_write run_test only_m p p' i v e in
      Handles-InHandler p' q pc status off more
        (csr_write-InHandler p p' pc status i u other plain written h)
  Handles-InHandler p q pc status off (accesses s more) h =
      Handles-InHandler (record p { sv39 = s }) q pc status off more h

  -- A trap in a well-formed state and the `mret` at the end of its handler: after the trap come any
  -- instructions that begin and end, under any interrupt lines, access memory and write, set or clear
  -- CSRs other than mstatus and mepc, and take no exception. The next instruction then begins without an
  -- interrupt, and if it is `mret` it leads back to the pc at which the trap was taken, in the mode and
  -- with the interrupt enable of then; `mpp` is user mode.
  pub raise_trap-mret :
      (p p' p'' : Priv) (pc cause interrupt tval at : ℕ) (meip msip mtip seip : Bool)
      → IsWf p
      → raise_trap p pc cause interrupt tval ≡ ok p'
      → Handles p' p''
      → (r : Priv) × (q : Priv) × (pre_exec p'' at meip msip mtip seip ≡ ok r)
        × (mret r ≡ some q)
        × (q.next_priv ≡ p.cur_priv)
        × (q.trap_pc ≡ pc)
        × (mie q.status ≡ mie p.status)
        × (mpp q.status ≡ u_mode)
  unfolding mret
  raise_trap-mret p p' p'' pc cause interrupt tval at e s t x w trap handled =
      let entered = raise_trap-status p p' pc cause interrupt tval w trap in
      let saved = m_trap_status p.cur_priv p.status in
      let (mie_off, previous, enable) = m_trap_status-fields p.cur_priv p.status w.plain_cur in
      let (mode, epc, status) = Handles-InHandler p' p'' pc saved mie_off handled entered in
      let (restored, lowered) = mret_status-fields saved in
      (
        with_lines p'' e s t x,
        m_returned (with_lines p'' e s t x),
        pre_exec_off p'' at e s t x mode (ap mie status ∙ mie_off),
        rw mode refl,
        rw status previous,
        epc,
        rw status (restored ∙ enable),
        rw status lowered,
      )
