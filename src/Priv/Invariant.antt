-- ===== src/Priv/Invariant.antt =====
-- The invariant of `rv_priv` (difftest/src/rv_priv.hpp), and that each operation keeps it.
use hdu_riscv_lab.Prelude.{
  ℕ, ◌≡◌, inl, inr, refl, sym, subst, arith, ◌∙◌, Bool, false, ◌==◌, some, ok, Bool-cases,
  Option-cases, bit_and, bit_or,
}
use hdu_riscv_lab.Word.{not64}
use hdu_riscv_lab.Csr.{csr_mstatus, exc_custom_ok}
use hdu_riscv_lab.Priv.{Priv, reset, csr_read, csr_write, csr_setbit, csr_clearbit}
use hdu_riscv_lab.Priv.Trap.{
  trapped, raise_trap, check_and_raise_int, post_exec, mret, sret, sfence_vma, final_int_index,
  delegated, m_returned, s_returned, with_lines,
}
use hdu_riscv_lab.Priv.Status.{
  IsPlain, IsLegal, reset_status-IsLegal, m_trap_status-IsLegal, mret_status-IsLegal,
  sret_status-IsLegal, write_status-IsLegal,
}

-- Machine and user mode only, no delegation, no translation.
pub record IsWf (p : Priv) : Type 0 where
  pub plain_cur : IsPlain p.cur_priv
  pub plain_next : IsPlain p.next_priv
  pub legal : IsLegal p.status
  pub no_medeleg : p.medeleg ≡ 0
  pub no_mideleg : p.mideleg ≡ 0
  pub no_satp : p.satp ≡ 0

pub reset-IsWf : (run_test only_m : Bool) (p : Priv) → IsWf (reset run_test only_m p)
unfolding reset
reset-IsWf run_test only_m p = record {
  plain_cur = inr refl;
  plain_next = inr refl;
  legal = reset_status-IsLegal run_test only_m;
  no_medeleg = refl;
  no_mideleg = refl;
  no_satp = refl;
}

-- With nothing delegated a trap goes to machine mode.
pub delegated-IsWf : (p : Priv) (cause interrupt : ℕ) → IsWf p → delegated p cause interrupt ≡ false
delegated-IsWf p cause interrupt w = ground (arith, w.no_medeleg, w.no_mideleg)

pub trapped-IsWf :
    (p : Priv) (pc cause interrupt tval : ℕ) → IsWf p → IsWf (trapped p pc cause interrupt tval)
unfolding trapped
trapped-IsWf p pc cause interrupt tval w = rw (delegated-IsWf p cause interrupt w) (record {
  plain_cur = w.plain_cur;
  plain_next = inr refl;
  legal = m_trap_status-IsLegal p.cur_priv p.status w.plain_cur w.legal;
  no_medeleg = w.no_medeleg;
  no_mideleg = w.no_mideleg;
  no_satp = w.no_satp;
})

pub raise_trap-IsWf :
    (p p' : Priv) (pc cause interrupt tval : ℕ)
    → IsWf p
    → raise_trap p pc cause interrupt tval ≡ ok p'
    → IsWf p'
raise_trap-IsWf p p' pc cause interrupt tval w e =
    let same : trapped p pc cause interrupt tval ≡ p' = unfold raise_trap in ground (arith, e) in
    subst IsWf same (trapped-IsWf p pc cause interrupt tval w)

pub check_and_raise_int-IsWf :
    (p p' : Priv) (pc : ℕ) → IsWf p → check_and_raise_int p pc ≡ ok p' → IsWf p'
check_and_raise_int-IsWf p p' pc w e = elim (Bool-cases (final_int_index p == exc_custom_ok)) [
  | inl none_taken ↦
      let same : p ≡ p' = unfold check_and_raise_int in ground (arith, e, none_taken) in
      subst IsWf same w
  | inr taken ↦
      raise_trap-IsWf p p' pc (final_int_index p) 1 0 w
        (unfold check_and_raise_int in ground (arith, e, taken))
]

-- An operation that writes none of these fields but mstatus.
abbrev Keeps : Priv → Priv → Type 0
Keeps p p' =
    (p'.cur_priv ≡ p.cur_priv)
    × (p'.next_priv ≡ p.next_priv)
    × (p'.medeleg ≡ p.medeleg)
    × (p'.mideleg ≡ p.mideleg)
    × (p'.satp ≡ p.satp)

pub Keeps-IsWf : (p p' : Priv) → IsWf p → Keeps p p' → IsLegal p'.status → IsWf p'
Keeps-IsWf p p' w (cur, next, me, mi, sa) legal = record {
  plain_cur = subst IsPlain (sym cur) w.plain_cur;
  plain_next = subst IsPlain (sym next) w.plain_next;
  legal = legal;
  no_medeleg = me ∙ w.no_medeleg;
  no_mideleg = mi ∙ w.no_mideleg;
  no_satp = sa ∙ w.no_satp;
}

pub with_lines-IsWf : (p : Priv) (e s t x : Bool) → IsWf p → IsWf (with_lines p e s t x)
with_lines-IsWf p e s t x w = record {
  plain_cur = w.plain_next;
  plain_next = w.plain_next;
  legal = w.legal;
  no_medeleg = w.no_medeleg;
  no_mideleg = w.no_mideleg;
  no_satp = w.no_satp;
}

pub mret-IsWf : (p p' : Priv) → mret p ≡ some p' → IsWf p → IsWf p'
mret-IsWf p p' h w =
    let same : m_returned p ≡ p' = unfold mret in ground (arith, h) in
    subst IsWf same (record {
      plain_cur = w.plain_cur;
      plain_next = w.legal.6;
      legal = mret_status-IsLegal p.status w.legal;
      no_medeleg = w.no_medeleg;
      no_mideleg = w.no_mideleg;
      no_satp = w.no_satp;
    })

pub sret-IsWf : (p p' : Priv) → sret p ≡ some p' → IsWf p → IsWf p'
sret-IsWf p p' h w =
    let same : s_returned p ≡ p' = unfold sret in ground (arith, h) in
    subst IsWf same (record {
      plain_cur = w.plain_cur;
      plain_next = inl w.legal.5;
      legal = sret_status-IsLegal p.status w.legal;
      no_medeleg = w.no_medeleg;
      no_mideleg = w.no_mideleg;
      no_satp = w.no_satp;
    })

pub sfence_vma-IsWf :
    (p p' : Priv) (vaddr asid : ℕ) → sfence_vma p vaddr asid ≡ some p' → IsWf p → IsWf p'
unfolding sfence_vma
sfence_vma-IsWf p p' vaddr asid h w =
    Keeps-IsWf p p' w (ground (arith, h)) (subst IsLegal (ground (arith, h)) w.legal)

pub post_exec-IsWf : (p p' : Priv) → post_exec p ≡ ok p' → IsWf p → IsWf p'
unfolding post_exec
post_exec-IsWf p p' h w =
    let same : p.status ≡ p'.status = ground (arith, h) in
    Keeps-IsWf p p' w (ground (arith, h)) (subst IsLegal same w.legal)

module _ (run_test only_m : Bool) where
  csr_write-mstatus :
      (p p' : Priv) (v : ℕ)
      → IsWf p
      → csr_write run_test only_m p csr_mstatus v ≡ ok (some p')
      → IsWf p'
  csr_write-mstatus p p' v w e =
      let (s', written, legal) = write_status-IsLegal run_test only_m v p.status w.legal in
      let same : record p { status = s' } ≡ p' = unfold csr_write in ground (arith, e, written) in
      subst IsWf same
        (Keeps-IsWf p (record p { status = s' }) w (refl, refl, refl, refl, refl) legal)

  csr_write-Keeps :
      (p p' : Priv) (i v : ℕ)
      → (i == csr_mstatus) ≡ false
      → csr_write run_test only_m p i v ≡ ok (some p')
      → Keeps p p' × (p'.status ≡ p.status)
  unfolding csr_write
  csr_write-Keeps p p' i v other e = (ground (arith, other, e), ground (arith, other, e))

  pub csr_write-IsWf :
      (p p' : Priv) (i v : ℕ) → IsWf p → csr_write run_test only_m p i v ≡ ok (some p') → IsWf p'
  csr_write-IsWf p p' i v w e = elim (Bool-cases (i == csr_mstatus)) [
    | inl status ↦
        csr_write-mstatus p p' v w
          (subst (λ j. csr_write run_test only_m p j v ≡ ok (some p')) (ground (arith, status)) e)
    | inr other ↦
        let (keeps, same) = csr_write-Keeps p p' i v other e in
        Keeps-IsWf p p' w keeps (subst IsLegal (sym same) w.legal)
  ]

  -- A change of single bits is a write of some value.
  pub csr_setbit-csr_write :
      (p p' : Priv) (i v : ℕ)
      → csr_setbit run_test only_m p i v ≡ ok (some p')
      → (u : ℕ) × (csr_write run_test only_m p i u ≡ ok (some p'))
  unfolding csr_setbit
  csr_setbit-csr_write p p' i v h = elim (Option-cases (csr_read p i)) [
    | inl no_csr ↦ absurd (ground (arith, h, no_csr))
    | inr (tmp, read) ↦ (bit_or tmp v, ground (arith, h, read))
  ]

  pub csr_clearbit-csr_write :
      (p p' : Priv) (i v : ℕ)
      → csr_clearbit run_test only_m p i v ≡ ok (some p')
      → (u : ℕ) × (csr_write run_test only_m p i u ≡ ok (some p'))
  unfolding csr_clearbit
  csr_clearbit-csr_write p p' i v h = elim (Option-cases (csr_read p i)) [
    | inl no_csr ↦ absurd (ground (arith, h, no_csr))
    | inr (tmp, read) ↦ (bit_and tmp (not64 v), ground (arith, h, read))
  ]
