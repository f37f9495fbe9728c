-- ===== src/Priv/Priority.antt =====
-- The order in which `int2index` of difftest/src/rv_priv.hpp looks for an interrupt.
use hdu_riscv_lab.Prelude.{
  ℕ, ◌<◌, ◌≤◌, ◌≡◌, ◌⊎◌, inl, inr, refl, sym, ap, ◌∙◌, arith, true, ◌==◌, if◌then◌else◌, Bool-cases,
}
use hdu_riscv_lab.Word.{has_bit}
use hdu_riscv_lab.Csr.{
  int_s_sw, int_m_sw, int_s_timer, int_m_timer, int_s_ext, int_m_ext, exc_custom_ok,
}
use hdu_riscv_lab.Priv.Trap.{int2index}

-- The interrupts by priority, the highest first: external, software, timer of the machine, then of
-- the supervisor.
pub data Source : Type 0 where
  m_ext m_sw m_timer s_ext s_sw s_timer : Source

abbrev pub code : Source → ℕ
code m_ext = int_m_ext
code m_sw = int_m_sw
code m_timer = int_m_timer
code s_ext = int_s_ext
code s_sw = int_s_sw
code s_timer = int_s_timer

-- The place of a code in this order; 6 is none of them.
abbrev pub rank : ℕ → ℕ
rank c =
    if c == int_m_ext
    then 0
    else if c == int_m_sw
    then 1
    else if c == int_m_timer
    then 2
    else if c == int_s_ext
    then 3
    else if c == int_s_sw
    then 4
    else if c == int_s_timer
    then 5
    else 6

-- `int2index` gives a bit that is set, and none of a higher priority is.
pub int2index-bit : (m : ℕ) (c : Source) → int2index m ≡ code c → has_bit m (code c) ≡ true
unfolding int2index
int2index-bit m m_ext h = ground (arith, h)
int2index-bit m m_sw h = ground (arith, h)
int2index-bit m m_timer h = ground (arith, h)
int2index-bit m s_ext h = ground (arith, h)
int2index-bit m s_sw h = ground (arith, h)
int2index-bit m s_timer h = ground (arith, h)

pub rank-code : (c : Source) → rank (code c) < 6
rank-code m_ext = omega arith
rank-code m_sw = omega arith
rank-code m_timer = omega arith
rank-code s_ext = omega arith
rank-code s_sw = omega arith
rank-code s_timer = omega arith

pub rank-injective : (a b : ℕ) → rank a ≡ rank b → rank a < 6 → a ≡ b
rank-injective a b e h = ground (arith, e, h)

-- The place of the first bit that is set.
abbrev pub place : ℕ → ℕ
place m =
    if has_bit m int_m_ext
    then 0
    else if has_bit m int_m_sw
    then 1
    else if has_bit m int_m_timer
    then 2
    else if has_bit m int_s_ext
    then 3
    else if has_bit m int_s_sw
    then 4
    else if has_bit m int_s_timer
    then 5
    else 6

pub int2index_cases :
    (m : ℕ)
    → ((int2index m ≡ exc_custom_ok) × (place m ≡ 6))
      ⊎ ((c : Source) × (int2index m ≡ code c) × (place m ≡ rank (code c)))
int2index_cases m = elim (Bool-cases (has_bit m int_m_ext)) [
  | inl e ↦ inr (m_ext, unfold int2index in rw (e) refl, rw (e) refl)
  | inr e0 ↦ elim (Bool-cases (has_bit m int_m_sw)) [
    | inl e ↦ inr (m_sw, unfold int2index in rw (e0, e) refl, rw (e0, e) refl)
    | inr e1 ↦ elim (Bool-cases (has_bit m int_m_timer)) [
      | inl e ↦ inr (m_timer, unfold int2index in rw (e0, e1, e) refl, rw (e0, e1, e) refl)
      | inr e2 ↦ elim (Bool-cases (has_bit m int_s_ext)) [
        | inl e ↦ inr (s_ext, unfold int2index in rw (e0, e1, e2, e) refl, rw (e0, e1, e2, e) refl)
        | inr e3 ↦ elim (Bool-cases (has_bit m int_s_sw)) [
          | inl e ↦
              inr
                (s_sw, unfold int2index in rw (e0, e1, e2, e3, e) refl, rw (e0, e1, e2, e3, e) refl)
          | inr e4 ↦ elim (Bool-cases (has_bit m int_s_timer)) [
            | inl e ↦ inr (
              s_timer,
              unfold int2index in rw (e0, e1, e2, e3, e4, e) refl,
              rw (e0, e1, e2, e3, e4, e) refl,
            )
            | inr e5 ↦ inl (
              unfold int2index in rw (e0, e1, e2, e3, e4, e5) refl,
              rw (e0, e1, e2, e3, e4, e5) refl,
            )
          ]
        ]
      ]
    ]
  ]
]

pub place-int2index : (m : ℕ) (c : Source) → int2index m ≡ code c → place m ≡ rank (code c)
place-int2index m c h = elim (int2index_cases m) [
  | inl (e, none) ↦ absurd (omega (arith, rank-code c, ap rank (sym e ∙ h)))
  | inr (c', e, at) ↦ at ∙ ap rank (sym e ∙ h)
]

pub place-first : (m : ℕ) (d : Source) → has_bit m (code d) ≡ true → place m ≤ rank (code d)
place-first m m_ext h = ground (arith, h)
place-first m m_sw h = ground (arith, h)
place-first m m_timer h = ground (arith, h)
place-first m s_ext h = ground (arith, h)
place-first m s_sw h = ground (arith, h)
place-first m s_timer h = ground (arith, h)
