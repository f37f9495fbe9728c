-- ===== src/Priv/Status.antt =====
-- What the writes of mstatus keep: the blank fields, and `mpp` and `spp` without the supervisor mode.
use hdu_riscv_lab.Prelude.{
  ℕ, ◌≡◌, ◌⊎◌, inl, inr, refl, arith, Bool, true, false, ◌==◌, ◌&&◌, ◌||◌, if◌then◌else◌, ok,
  Bool-cases, subst,
}
use hdu_riscv_lab.Csr.{
  u_mode, m_mode, blank0, set_sie, blank1, mie, set_mie, blank2, spie, set_spie, mpie, set_mpie,
  spp, set_spp, mpp, set_mpp, mprv, set_mprv, blank3, blank4,
}
use hdu_riscv_lab.Priv.{reset_status, write_status, legal_mpp}
use hdu_riscv_lab.Priv.Trap.{m_trap_status, mret_status, sret_status, blanks_zero}

-- The machine mode or the user mode.
abbrev pub IsPlain : ℕ → Type 0
IsPlain mode = (mode ≡ u_mode) ⊎ (mode ≡ m_mode)

abbrev pub IsLegal : ℕ → Type 0
IsLegal status =
    (blank0 status ≡ 0)
    × (blank1 status ≡ 0)
    × (blank2 status ≡ 0)
    × (blank3 status ≡ 0)
    × (blank4 status ≡ 0)
    × (spp status ≡ 0)
    × IsPlain (mpp status)

pub set_mie-IsLegal : (v s : ℕ) → IsLegal s → IsLegal (set_mie v s)
set_mie-IsLegal v s (b0, b1, b2, b3, b4, no_spp, plain) =
    ground (arith, b0, b1, b2, b3, b4, no_spp, plain)

set_mpie-IsLegal : (v s : ℕ) → IsLegal s → IsLegal (set_mpie v s)
set_mpie-IsLegal v s (b0, b1, b2, b3, b4, no_spp, plain) =
    ground (arith, b0, b1, b2, b3, b4, no_spp, plain)

set_mprv-IsLegal : (v s : ℕ) → IsLegal s → IsLegal (set_mprv v s)
set_mprv-IsLegal v s (b0, b1, b2, b3, b4, no_spp, plain) =
    ground (arith, b0, b1, b2, b3, b4, no_spp, plain)

set_sie-IsLegal : (v s : ℕ) → IsLegal s → IsLegal (set_sie v s)
set_sie-IsLegal v s (b0, b1, b2, b3, b4, no_spp, plain) =
    ground (arith, b0, b1, b2, b3, b4, no_spp, plain)

set_spie-IsLegal : (v s : ℕ) → IsLegal s → IsLegal (set_spie v s)
set_spie-IsLegal v s (b0, b1, b2, b3, b4, no_spp, plain) =
    ground (arith, b0, b1, b2, b3, b4, no_spp, plain)

set_mpp-IsLegal : (v s : ℕ) → IsPlain v → IsLegal s → IsLegal (set_mpp v s)
set_mpp-IsLegal v s mode (b0, b1, b2, b3, b4, no_spp, plain) =
    ground (arith, b0, b1, b2, b3, b4, no_spp, plain)

set_spp-IsLegal : (s : ℕ) → IsLegal s → IsLegal (set_spp u_mode s)
set_spp-IsLegal s (b0, b1, b2, b3, b4, no_spp, plain) =
    ground (arith, b0, b1, b2, b3, b4, no_spp, plain)

-- mstatus after each operation that writes it.
pub reset_status-IsLegal : (run_test only_m : Bool) → IsLegal (reset_status run_test only_m)
reset_status-IsLegal run_test only_m = ground arith

pub m_trap_status-IsLegal : (m s : ℕ) → IsPlain m → IsLegal s → IsLegal (m_trap_status m s)
m_trap_status-IsLegal m s mode legal =
    set_mpp-IsLegal m (set_mie 0 (set_mpie (mie s) s)) mode
      (set_mie-IsLegal 0 (set_mpie (mie s) s) (set_mpie-IsLegal (mie s) s legal))

-- The return drops `mprv` or keeps it.
unless_m-IsLegal : (b : Bool) (s : ℕ) → IsLegal s → IsLegal (if b then s else set_mprv 0 s)
unless_m-IsLegal true s legal = legal
unless_m-IsLegal false s legal = set_mprv-IsLegal 0 s legal

pub mret_status-IsLegal : (s : ℕ) → IsLegal s → IsLegal (mret_status s)
mret_status-IsLegal s legal =
    let s1 = set_mpie 1 (set_mie (mpie s) s) in
    let legal1 = set_mpie-IsLegal 1 (set_mie (mpie s) s) (set_mie-IsLegal (mpie s) s legal) in
    set_mpp-IsLegal u_mode (if mpp s1 == m_mode then s1 else set_mprv 0 s1) (inl refl)
      (unless_m-IsLegal (mpp s1 == m_mode) s1 legal1)

pub sret_status-IsLegal : (s : ℕ) → IsLegal s → IsLegal (sret_status s)
sret_status-IsLegal s legal =
    let s1 = set_spie 1 (set_sie (spie s) s) in
    let legal1 = set_spie-IsLegal 1 (set_sie (spie s) s) (set_sie-IsLegal (spie s) s legal) in
    set_spp-IsLegal (if spp s1 == m_mode then s1 else set_mprv 0 s1)
      (unless_m-IsLegal (spp s1 == m_mode) s1 legal1)

legal_mpp-IsLegal : (v s : ℕ) → IsLegal s → IsLegal (legal_mpp v s)
legal_mpp-IsLegal v s legal = elim (Bool-cases ((mpp v == 3) || (mpp v == 0))) [
  | inl e ↦ subst IsLegal (ground (arith, e)) (set_mpp-IsLegal (mpp v) s (ground (arith, e)) legal)
  | inr e ↦ subst IsLegal (ground (arith, e)) (set_mpp-IsLegal (mpp s) s legal.6 legal)
]

-- The asserts of the write never fail, and it keeps the fields.
pub write_status-IsLegal :
    (run_test only_m : Bool) (v s : ℕ)
    → IsLegal s
    → (s' : ℕ) × (write_status run_test only_m v s ≡ ok s') × IsLegal s'
unfolding write_status
write_status-IsLegal run_test only_m v s legal =
    let s1 = set_mpie (mpie v) (set_mie (mie v) s) in
    let legal1 = set_mpie-IsLegal (mpie v) (set_mie (mie v) s) (set_mie-IsLegal (mie v) s legal) in
    elim (Bool-cases (only_m && run_test)) [
      | inl e ↦ (s1, rw e, legal1)
      | inr e ↦ (
        set_mprv (mprv v) (legal_mpp v s1),
        ground (arith, e),
        set_mprv-IsLegal (mprv v) (legal_mpp v s1) (legal_mpp-IsLegal v s1 legal1),
      )
    ]

pub blanks_zero-IsLegal : (s : ℕ) → IsLegal s → blanks_zero s ≡ true
blanks_zero-IsLegal s legal = ground (arith, legal)
