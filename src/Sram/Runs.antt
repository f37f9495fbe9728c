-- ===== src/Sram/Runs.antt =====
-- The ranges that `strb_to_range` in difftest/src/nscscc_sram_slave.hpp finds.
use hdu_riscv_lab.Prelude.{
  ℕ, zero, suc, ◌+◌, ◌-◌, ◌<◌, ◌≤◌, ◌≡◌, refl, sym, ◌∙◌, subst, arith, Bool, true, false, ◌&&◌,
  ◌||◌, ltb, leb, ◌==◌, List, [], ◌∷◌, Bool-cases, inl, inr,
}
use hdu_riscv_lab.Word.{has_bit}
use hdu_riscv_lab.Sram.Slave.{run_end, ranges, strb_to_range}

-- One of the ranges holds `i`.
abbrev pub covered : List (ℕ × ℕ) → ℕ → Bool
covered [] i = false
covered ((a, n) ∷ rest) i = (leb a i && ltb i (a + n)) || covered rest i

-- Ranges that are not empty, from `l` on and up to 8, with a gap between two of them.
abbrev pub IsApart : ℕ → List (ℕ × ℕ) → Type 0
IsApart l [] = Unit {0}
IsApart l ((a, n) ∷ rest) = (l ≤ a) × (0 < n) × (a + n ≤ 8) × IsApart (suc (a + n)) rest

pub IsApart-covered :
    (rs : List (ℕ × ℕ)) (l i : ℕ) → IsApart l rs → covered rs i ≡ true → (l ≤ i) × (i < 8)
IsApart-covered [] l i h e = cc
IsApart-covered ((a, n) ∷ rest) l i (from, pos, to, h) e =
    elim (Bool-cases (leb a i && ltb i (a + n))) [
      | inl here ↦ (ground arith, ground arith)
      | inr later ↦
          let (low, high) = IsApart-covered rest (suc (a + n)) i h (rw later at e) in
          (omega arith, high)
    ]

-- The end of the run of bits that starts at `r`.
run_end_lem :
    (wen n r : ℕ)
    → r + n ≡ 8
    → (r ≤ run_end wen n r)
      × (run_end wen n r ≤ 8)
      × ((i : ℕ) → r ≤ i → i < run_end wen n r → has_bit wen i ≡ true)
      × (run_end wen n r < 8 → has_bit wen (run_end wen n r) ≡ false)
unfolding run_end
run_end_lem wen zero r e =
    (omega arith, omega arith, (λ i low high. absurd (omega arith)), λ h. absurd (omega arith))
run_end_lem wen (suc n) r e = elim (Bool-cases (has_bit wen r)) [
  | inl on ↦
      let inside : ltb r 8 ≡ true = ground arith in
      let (low, high, all, last) = run_end_lem wen n (suc r) (omega arith) in
      rw (on, inside)
        (
          omega arith,
          high,
          (λ i from to. elim (Bool-cases (i == r)) [
            | inl same ↦ (let here : i ≡ r = ground arith in rw here on)
            | inr other ↦ all i (ground arith) to
          ]),
          last,
        )
  | inr off ↦ rw off (omega arith, omega arith, (λ i from to. absurd (omega arith)), λ h. off)
]

-- The ranges from `l` on hold exactly the bytes whose bit is set.
abbrev pub IsRuns : ℕ → ℕ → List (ℕ × ℕ) → Type 0
IsRuns wen l rs = IsApart l rs × ((i : ℕ) → l ≤ i → i < 8 → covered rs i ≡ has_bit wen i)

IsApart-later : (rs : List (ℕ × ℕ)) (l : ℕ) → IsApart (suc l) rs → IsApart l rs
IsApart-later [] l h = tt
IsApart-later ((a, n) ∷ rest) l (from, pos, to, more) = (omega arith, pos, to, more)

-- A bit that is not set starts no range.
IsRuns-bit :
    (wen l : ℕ) (rs : List (ℕ × ℕ))
    → has_bit wen l ≡ false
    → IsRuns wen (suc l) rs
    → IsRuns wen l rs
IsRuns-bit wen l rs off (apart, all) = (
  IsApart-later rs l apart,
  λ i from to. elim (Bool-cases (i == l)) [
    | inl same ↦
        let here : i ≡ l = ground arith in
        rw here (elim (Bool-cases (covered rs l)) [
          | inl held ↦
              let (low, high) = IsApart-covered rs (suc l) l apart held in absurd (omega arith)
          | inr free ↦ free ∙ sym off
        ])
    | inr other ↦ all i (ground arith) to
  ],
)

-- A set bit starts a range up to the end `e` of its run.
IsRuns-run :
    (wen l e : ℕ) (rs : List (ℕ × ℕ))
    → has_bit wen l ≡ true
    → (l ≤ e) × (e ≤ 8)
    → ((i : ℕ) → l ≤ i → i < e → has_bit wen i ≡ true)
    → (e < 8 → has_bit wen e ≡ false)
    → l < 8
    → IsRuns wen (suc e) rs
    → IsRuns wen l ((l, e - l) ∷ rs)
IsRuns-run wen l e rs on (low, high) run last inside (apart, all) =
    let past : l < e = elim (Bool-cases (ltb l e)) [
      | inl less ↦ ground arith
      | inr more ↦
          let same : e ≡ l = ground arith in
          let off : has_bit wen l ≡ false =
            subst (λ t. has_bit wen t ≡ false) same (last (omega arith)) in
          cc
    ] in
    let ends : l + (e - l) ≡ e = omega arith in
    (
      (omega arith, omega arith, omega arith, rw ends apart),
      λ i from to. elim (Bool-cases (ltb i e)) [
        | inl before ↦
            let held : (leb l i && ltb i (l + (e - l))) ≡ true = ground arith in
            rw held (sym (run i from (ground arith)))
        | inr behind ↦
            let free : (leb l i && ltb i (l + (e - l))) ≡ false = ground arith in
            rw free ((IsRuns-bit wen e rs (last (ground arith)) (apart, all)).1 i (ground arith) to)
      ],
    )

ranges_lem : (wen n l : ℕ) → 8 ≤ l + n → IsRuns wen l (ranges wen n l)
unfolding ranges
ranges_lem wen zero l e = (tt, λ i low high. absurd (omega arith))
ranges_lem wen (suc n) l e = elim (Bool-cases (ltb l 8)) [
  | inl inside ↦ rw inside (elim (Bool-cases (has_bit wen l)) [
    | inl on ↦
        let (low, high, all, last) = run_end_lem wen (8 - l) l (ground arith) in
        rw on (
          IsRuns-run wen l (run_end wen (8 - l) l) _ on (low, high) all last (ground arith)
            (ranges_lem wen n (suc (run_end wen (8 - l) l)) (omega arith)))
    | inr off ↦ rw off (IsRuns-bit wen l _ off (ranges_lem wen n (suc l) (omega arith)))
  ])
  | inr outside ↦ rw outside (tt, λ i low high. absurd (ground arith))
]

ranges-rounds : (wen n n' l : ℕ) → 8 ≤ l + n → 8 ≤ l + n' → ranges wen n l ≡ ranges wen n' l
unfolding ranges
ranges-rounds wen zero zero l h h' = refl
ranges-rounds wen zero (suc n') l h h' =
    let outside : ltb l 8 ≡ false = ground arith in rw outside refl
ranges-rounds wen (suc n) zero l h h' =
    let outside : ltb l 8 ≡ false = ground arith in rw outside refl
ranges-rounds wen (suc n) (suc n') l h h' = elim (Bool-cases (ltb l 8)) [
  | inr outside ↦ rw outside refl
  | inl inside ↦
      let (low, high, all, last) = run_end_lem wen (8 - l) l (ground arith) in
      rw
        (
          ranges-rounds wen n n' (suc (run_end wen (8 - l) l)) (omega arith) (omega arith),
          ranges-rounds wen n n' (suc l) (omega arith) (omega arith),
        )
        refl
]

-- The ranges of a write strobe hold exactly the bytes whose bit is set; none is empty, each ends at
-- byte 8 or before, they are in order, and two of them are never adjacent. The result does not depend
-- on a bound of the loops: they end within 8 rounds.
pub strb_to_range-IsRuns :
    (wen : ℕ)
    → IsRuns wen 0 (strb_to_range wen)
      × ((rounds : ℕ) → 8 ≤ rounds → ranges wen rounds 0 ≡ strb_to_range wen)
unfolding strb_to_range
strb_to_range-IsRuns wen = (
  ranges_lem wen 8 0 (omega arith),
  λ rounds enough. ranges-rounds wen rounds 8 0 (omega arith) (omega arith),
)
