-- ===== src/Priv/Typed.antt =====
-- The CSRs of `rv_priv` (difftest/src/rv_priv.hpp) are words of 64 bits, and each operation keeps them so.
use hdu_riscv_lab.Prelude.{
  ℕ, ◌+◌, ◌^◌, ◌<◌, ◌≡◌, subst, arith, Bool, false, List, [], ◌∷◌, some, ok, inl, inr, Bool-cases,
  ◌==◌, >>=-returns, not, Ensures, Ensures-if, Ensures-of, IfSome, IfSome-of,
}
use hdu_riscv_lab.Word.Bits.{bit_and-lt}
use hdu_riscv_lab.Bytes.{AllBelow}
use hdu_riscv_lab.Csr.{csr_mstatus, m_int_mask, exc_custom_ok, exc_breakpoint}
use hdu_riscv_lab.Priv.{Priv, csr_read, csr_write, write_status}
use hdu_riscv_lab.Priv.Trap.{
  trapped, raise_trap, check_and_raise_int, post_exec, mret, sret, sfence_vma, final_int_index,
  delegated, m_returned, s_returned, with_lines, retired, s_trap_status, m_trap_status, mret_status,
  sret_status, set_lines, pre_exec, ecall, ebreak,
}

-- The CSRs, and the address of the handler.
abbrev pub words : Priv → List ℕ
words p =
    p.hart_id ∷ p.status ∷ p.misa ∷ p.medeleg ∷ p.mideleg ∷ p.ie ∷ p.mtvec ∷ p.mscratch ∷ p.mepc
    ∷ p.mcause ∷ p.mtval ∷ p.mcounteren ∷ p.ip ∷ p.mcycle ∷ p.minstret ∷ p.trap_pc ∷ p.sepc
    ∷ p.stvec ∷ p.sscratch ∷ p.scause ∷ p.stval ∷ p.satp ∷ p.scounteren ∷ []

abbrev pub IsTyped : Priv → Type 0
IsTyped p = AllBelow (2 ^ 64) (words p)

csr_read-lt : (p : Priv) (i v : ℕ) → IsTyped p → csr_read p i ≡ some v → v < 2 ^ 64
unfolding csr_read
csr_read-lt p i v w e = ground (arith, w, e)

pub csr_read-IsTyped : (p : Priv) (i : ℕ) → IsTyped p → IfSome (λ v. v < 2 ^ 64) (csr_read p i)
csr_read-IsTyped p i w = IfSome-of (λ v. v < 2 ^ 64) (csr_read p i) (λ v e. csr_read-lt p i v w e)

m_trap_status-lt : (m s : ℕ) → s < 2 ^ 64 → m_trap_status m s < 2 ^ 64
m_trap_status-lt m s h = omega arith

s_trap_status-lt : (m s : ℕ) → s < 2 ^ 64 → s_trap_status m s < 2 ^ 64
s_trap_status-lt m s h = omega arith

mret_status-lt : (s : ℕ) → s < 2 ^ 64 → mret_status s < 2 ^ 64
mret_status-lt s h = ground arith

sret_status-lt : (s : ℕ) → s < 2 ^ 64 → sret_status s < 2 ^ 64
sret_status-lt s h = ground arith

set_lines-lt : (e s t x : Bool) (ip : ℕ) → ip < 2 ^ 64 → set_lines e s t x ip < 2 ^ 64
set_lines-lt e s t x ip h = omega arith

pub trap_pc-lt : (p : Priv) → IsTyped p → p.trap_pc < 2 ^ 64
trap_pc-lt p w = ground (arith, w)

trapped-IsTyped :
    (p : Priv) (pc cause interrupt tval : ℕ)
    → pc < 2 ^ 64
    → tval < 2 ^ 64
    → IsTyped p
    → IsTyped (trapped p pc cause interrupt tval)
unfolding trapped
trapped-IsTyped p pc cause interrupt tval at value w =
    elim (Bool-cases (delegated p cause interrupt)) [
      | inl down ↦ rw down (ground (arith, w, s_trap_status-lt p.cur_priv p.status w.1.0))
      | inr up ↦ rw up (ground (arith, w, m_trap_status-lt p.cur_priv p.status w.1.0))
    ]

pub raise_trap-IsTyped :
    (p : Priv) (pc cause interrupt tval : ℕ)
    → pc < 2 ^ 64
    → tval < 2 ^ 64
    → IsTyped p
    → Ensures IsTyped (raise_trap p pc cause interrupt tval)
raise_trap-IsTyped p pc cause interrupt tval at value w =
    Ensures-of IsTyped (raise_trap p pc cause interrupt tval) λ p' e.
      let same : trapped p pc cause interrupt tval ≡ p' = unfold raise_trap in ground (arith, e) in
      subst IsTyped same (trapped-IsTyped p pc cause interrupt tval at value w)

pub check_and_raise_int-IsTyped :
    (p : Priv) (pc : ℕ) → pc < 2 ^ 64 → IsTyped p → Ensures IsTyped (check_and_raise_int p pc)
unfolding check_and_raise_int
check_and_raise_int-IsTyped p pc at w =
    Ensures-if IsTyped (not (final_int_index p == exc_custom_ok)) _ _
      (raise_trap-IsTyped p pc (final_int_index p) 1 0 at (omega arith) w) w

pub pre_exec-IsTyped :
    (p : Priv) (pc : ℕ) (e s t x : Bool)
    → pc < 2 ^ 64
    → IsTyped p
    → Ensures IsTyped (pre_exec p pc e s t x)
unfolding pre_exec
pre_exec-IsTyped p pc e s t x at w =
    check_and_raise_int-IsTyped (with_lines p e s t x) pc at
      (ground (arith, w, set_lines-lt e s t x p.ip))

pub post_exec-IsTyped : (p : Priv) → IsTyped p → Ensures IsTyped (post_exec p)
unfolding post_exec
post_exec-IsTyped p w =
    Ensures-of IsTyped (post_exec p) λ p' e.
      let same : retired p ≡ p' = ground (arith, e) in subst IsTyped same (ground (arith, w))

pub mret-IsTyped : (p : Priv) → IsTyped p → IfSome IsTyped (mret p)
mret-IsTyped p w = IfSome-of IsTyped (mret p) λ p' e.
    let same : m_returned p ≡ p' = unfold mret in ground (arith, e) in
    subst IsTyped same (ground (arith, w, mret_status-lt p.status w.1.0))

pub sret-IsTyped : (p : Priv) → IsTyped p → IfSome IsTyped (sret p)
sret-IsTyped p w = IfSome-of IsTyped (sret p) λ p' e.
    let same : s_returned p ≡ p' = unfold sret in ground (arith, e) in
    subst IsTyped same (ground (arith, w, sret_status-lt p.status w.1.0))

pub sfence_vma-IsTyped :
    (p : Priv) (vaddr asid : ℕ) → IsTyped p → IfSome IsTyped (sfence_vma p vaddr asid)
unfolding sfence_vma
sfence_vma-IsTyped p vaddr asid w =
    IfSome-of IsTyped (sfence_vma p vaddr asid) λ p' e. ground (arith, e, w)

pub ecall-IsTyped : (p : Priv) (pc : ℕ) → pc < 2 ^ 64 → IsTyped p → Ensures IsTyped (ecall p pc)
unfolding ecall
ecall-IsTyped p pc at w = raise_trap-IsTyped p pc (p.cur_priv + 8) 0 0 at (omega arith) w

pub ebreak-IsTyped : (p : Priv) (pc : ℕ) → pc < 2 ^ 64 → IsTyped p → Ensures IsTyped (ebreak p pc)
unfolding ebreak
ebreak-IsTyped p pc at w = raise_trap-IsTyped p pc exc_breakpoint 0 0 at (omega arith) w

module _ (run_test only_m : Bool) where
  write_status-lt :
      (v s s' : ℕ) → s < 2 ^ 64 → write_status run_test only_m v s ≡ ok s' → s' < 2 ^ 64
  unfolding write_status
  write_status-lt v s s' h e = ground (arith, h, e)

  csr_write-status :
      (p p' : Priv) (v : ℕ)
      → IsTyped p
      → csr_write run_test only_m p csr_mstatus v ≡ ok (some p')
      → IsTyped p'
  unfolding csr_write
  csr_write-status p p' v w e =
      let (s', done, written) = >>=-returns (write_status run_test only_m v p.status) _ e in
      let same : record p { status = s' } ≡ p' = ground (arith, done) in
      subst IsTyped same (ground (arith, w, write_status-lt v p.status s' w.1.0 written))

  csr_write-others :
      (p p' : Priv) (i v : ℕ)
      → (i == csr_mstatus) ≡ false
      → v < 2 ^ 64
      → IsTyped p
      → csr_write run_test only_m p i v ≡ ok (some p')
      → IsTyped p'
  unfolding csr_write
  csr_write-others p p' i v other h w e = ground (arith, other, w, e, bit_and-lt 64 v m_int_mask h)

  -- A write of a word.
  pub csr_write-IsTyped :
      (p : Priv) (i v : ℕ)
      → v < 2 ^ 64
      → IsTyped p
      → Ensures (IfSome IsTyped) (csr_write run_test only_m p i v)
  csr_write-IsTyped p i v h w = Ensures-of (IfSome IsTyped) (csr_write run_test only_m p i v) λ o e.
      IfSome-of IsTyped o λ p' is.
        let wrote = subst (λ r. csr_write run_test only_m p i v ≡ ok r) is e in
        elim (Bool-cases (i == csr_mstatus)) [
          | inl status ↦ csr_write-status p p' v w (
              subst (λ j. csr_write run_test only_m p j v ≡ ok (some p')) (ground (arith, status))
                wrote)
          | inr other ↦ csr_write-others p p' i v other h w wrote
        ]
