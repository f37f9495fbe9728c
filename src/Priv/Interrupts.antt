-- ===== src/Priv/Interrupts.antt =====
-- Which interrupt is taken: `check_and_raise_int` and `int2index` of difftest/src/rv_priv.hpp.
use native.Mathlib.Nat.{zero-div}
use hdu_riscv_lab.Prelude.{
  ℕ, ◌%◌, ◌^◌, ◌≤◌, ◌≡◌, ◌↔◌, inl, inr, refl, sym, ap, ◌∙◌, arith, Bool, true, false, not, ◌&&◌,
  ◌||◌, ◌==◌, if◌then◌else◌, bit_and, ==_iff, Bool-cases,
}
use hdu_riscv_lab.Word.{has_bit}
use hdu_riscv_lab.Word.Bits.{bit-bit_and, bit_and-mask}
use hdu_riscv_lab.Csr.{u_mode, nonzero, exc_custom_ok, mie}
use hdu_riscv_lab.Priv.{Priv}
use hdu_riscv_lab.Priv.Trap.{final_int_index, int2index}
use hdu_riscv_lab.Priv.Invariant.{IsWf}
use hdu_riscv_lab.Priv.Priority.{
  Source, m_ext, m_sw, m_timer, s_ext, s_sw, s_timer, code, rank, int2index-bit, rank-code,
  rank-injective, int2index_cases, place-int2index, place-first,
}

-- An interrupt is pending and enabled.
abbrev pub IsActive : Priv → Source → Type 0
IsActive p c = (has_bit p.ip (code c) ≡ true) × (has_bit p.ie (code c) ≡ true)

-- The hart takes interrupts: in user mode always, in machine mode by mstatus.
abbrev pub takes_interrupts : Priv → Bool
takes_interrupts p = (p.cur_priv == u_mode) || not (mie p.status == 0)

has_bit-bit_and :
    (a b c : ℕ) → (has_bit (bit_and a b) c ≡ true) ↔ ((has_bit a c ≡ true) × (has_bit b c ≡ true))
has_bit-bit_and a b c = ground (arith, bit-bit_and c a b)

has_bit-mod : (m : ℕ) (c : Source) → has_bit (m % 2 ^ 64) (code c) ≡ has_bit m (code c)
has_bit-mod m m_ext = ap (λ (t : ℕ). t == 1) (omega arith)
has_bit-mod m m_sw = ap (λ (t : ℕ). t == 1) (omega arith)
has_bit-mod m m_timer = ap (λ (t : ℕ). t == 1) (omega arith)
has_bit-mod m s_ext = ap (λ (t : ℕ). t == 1) (omega arith)
has_bit-mod m s_sw = ap (λ (t : ℕ). t == 1) (omega arith)
has_bit-mod m s_timer = ap (λ (t : ℕ). t == 1) (omega arith)

int2index-mod : (m : ℕ) → int2index (m % 2 ^ 64) ≡ int2index m
unfolding int2index
int2index-mod m =
    rw
      (
        has_bit-mod m m_ext,
        has_bit-mod m m_sw,
        has_bit-mod m m_timer,
        has_bit-mod m s_ext,
        has_bit-mod m s_sw,
        has_bit-mod m s_timer,
      )
      refl

int2index-zero : exc_custom_ok ≡ int2index 0
unfolding int2index
int2index-zero = refl

-- The test of the mask changes nothing: of 0, `int2index` makes no interrupt.
int2index_guarded :
    (m : ℕ) (b : Bool)
    → (if nonzero (m % 2 ^ 64) && b then int2index (m % 2 ^ 64) else exc_custom_ok)
      ≡ (if b then int2index m else exc_custom_ok)
int2index_guarded m false = ground arith
int2index_guarded m true = elim (Bool-cases (m % 2 ^ 64 == 0)) [
  | inl e ↦
      rw e (int2index-zero ∙ ap int2index (sym ((==_iff (m % 2 ^ 64) 0).0 e)) ∙ int2index-mod m)
  | inr e ↦ rw e (int2index-mod m)
]

abbrev active_bits : Priv → ℕ
active_bits p = bit_and p.ip p.ie

-- With nothing delegated, the choice is that of `int2index`.
final_int_index-int2index :
    (p : Priv)
    → IsWf p
    → final_int_index p ≡ (if takes_interrupts p then int2index (active_bits p) else exc_custom_ok)
unfolding final_int_index
final_int_index-int2index p w =
    rw (w.no_mideleg, bit_and-mask 64 (active_bits p))
      (elim w.plain_cur [
        | inl user ↦
            rw (user, ap (λ (t : ℕ). t % 2 == 1) (zero-div (2 ^ int2index (active_bits p))))
              (ground arith)
        | inr machine ↦ rw machine (int2index_guarded (active_bits p) (nonzero (mie p.status)))
      ])

-- An interrupt is chosen exactly if the hart takes interrupts, it is pending and enabled, and so is no
-- interrupt of a higher priority, in the order MEI, MSI, MTI, SEI, SSI, STI.
pub final_int_index_iff :
    (p : Priv) (c : Source)
    → IsWf p
    → (final_int_index p ≡ code c) ↔ (
        (takes_interrupts p ≡ true)
        × IsActive p c
        × ((d : Source) → IsActive p d → rank (code c) ≤ rank (code d)))
final_int_index_iff p c w = (forth, λ (takes, active, first). back takes active first)
  where
    choice :
        final_int_index p
        ≡ (if takes_interrupts p then int2index (active_bits p) else exc_custom_ok)
    choice = final_int_index-int2index p w

    forth :
        final_int_index p ≡ code c
        → (takes_interrupts p ≡ true)
          × IsActive p c
          × ((d : Source) → IsActive p d → rank (code c) ≤ rank (code d))
    forth e = elim (Bool-cases (takes_interrupts p)) [
      | inr closed ↦ absurd (omega (arith, rank-code c, ap rank (sym (rw closed at choice) ∙ e)))
      | inl takes ↦
          let chosen : int2index (active_bits p) ≡ code c = sym (rw takes at choice) ∙ e in
          (
            takes,
            (has_bit-bit_and p.ip p.ie (code c)).0 (int2index-bit (active_bits p) c chosen),
            λ d active. omega (
              arith,
              place-int2index (active_bits p) c chosen,
              place-first (active_bits p) d ((has_bit-bit_and p.ip p.ie (code d)).1 active),
            ),
          )
    ]

    back :
        takes_interrupts p ≡ true
        → IsActive p c
        → ((d : Source) → IsActive p d → rank (code c) ≤ rank (code d))
        → final_int_index p ≡ code c
    back takes active first =
        let set = (has_bit-bit_and p.ip p.ie (code c)).1 active in
        elim (int2index_cases (active_bits p)) [
          | inl (e, none) ↦
              absurd (omega (arith, rank-code c, none, place-first (active_bits p) c set))
          | inr (d, e, at) ↦
              let also =
                (has_bit-bit_and p.ip p.ie (code d)).0 (int2index-bit (active_bits p) d e) in
              let ranks : rank (code d) ≡ rank (code c) =
                omega (arith, at, first d also, place-first (active_bits p) c set) in
              let same = rank-injective (code d) (code c) ranks (rank-code d) in
              (rw takes at choice) ∙ e ∙ same
        ]
