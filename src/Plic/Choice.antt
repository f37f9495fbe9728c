-- ===== src/Plic/Choice.antt =====
-- The choice of `get_int` in difftest/src/rv_plic.hpp.
use hdu_riscv_lab.Prelude.{
  ℕ, zero, suc, ◌+◌, ◌*◌, ◌/◌, ◌%◌, ◌^◌, ◌<◌, ◌≤◌, ◌≡◌, ◌≢◌, ◌⊎◌, ◌↔◌, inl, inr, refl, ap, sym, ◌∙◌,
  subst, arith, Bool, true, false, not, ◌&&◌, ltb, ◌==◌, List, length, get_or, set, ok, Bool-cases,
}
use hdu_riscv_lab.Word.Bits.{bit}
use hdu_riscv_lab.Word.Single.{high_bit, low_shift}
use hdu_riscv_lab.Plic.{Plic, line, prio, eligible, best, get_int, line}

-- `m` is the first of the sources from 1 to below `j` that meet the conditions `el` and have the highest
-- priority `pr`; it is 0 if none of them has a priority above 0.
abbrev pub IsBest : (ℕ → Bool) → (ℕ → ℕ) → ℕ → ℕ → Type 0
IsBest el pr j m =
    ((m ≡ 0) ⊎ ((1 ≤ m) × (m < j) × (el m ≡ true) × (0 < pr m)))
    × ((i : ℕ)
        → 1 ≤ i
        → i < j
        → el i ≡ true
        → 0 < pr i
        → (m ≢ 0) × (pr i ≤ pr m) × (i < m → pr i < pr m))

module _ (el : ℕ → Bool) (pr : ℕ → ℕ) where
  -- The priority that goes with `m` in the loop.
  abbrev IsHeld : ℕ → ℕ → Type 0
  IsHeld mp m = ((m ≡ 0) × (mp ≡ 0)) ⊎ ((m ≢ 0) × (mp ≡ pr m))

  -- A round that takes `i`.
  IsBest-taken :
      (i mp m : ℕ)
      → 1 ≤ i
      → IsHeld mp m
      → (el i ≡ true) × (mp < pr i)
      → IsBest el pr i m
      → IsBest el pr (suc i) i
  IsBest-taken i mp m pos held e (last, all) = (
    inr (pos, omega arith, e.0, omega arith),
    λ k low below ok_k has_k. elim (Bool-cases (ltb k i)) [
      | inl before ↦
          let known = all k low (ground arith) ok_k has_k in
          (ground arith, ground (arith, known), λ h. ground (arith, known))
      | inr after ↦
          let same : k ≡ i = ground arith in
          (ground arith, ground (arith, ap pr same), λ h. absurd (omega arith))
    ],
  )

  -- A round that does not.
  IsBest-kept :
      (i mp m : ℕ)
      → IsHeld mp m
      → (el i ≡ true → pr i ≤ mp)
      → IsBest el pr i m
      → IsBest el pr (suc i) m
  IsBest-kept i mp m held e (last, all) = (
    ground (arith, last),
    λ k low below ok_k has_k. elim (Bool-cases (ltb k i)) [
      | inl before ↦ all k low (ground arith) ok_k has_k
      | inr after ↦
          let same : k ≡ i = ground arith in
          let small : pr i ≤ mp = e (ap el (sym same) ∙ ok_k) in
          (
            ground (arith, small, ap pr same),
            ground (arith, small, ap pr same),
            λ h. absurd (ground (arith, last)),
          )
    ],
  )

better_parts : (b : Bool) (x y : ℕ) → (b && ltb x y) ≡ true → (b ≡ true) × (x < y)
better_parts b x y e = ground arith

not_better : (b : Bool) (x y : ℕ) → (b && ltb x y) ≡ false → b ≡ true → y ≤ x
not_better b x y e h = ground arith

best-IsBest :
    (p : Plic) (context_id n i mp m j : ℕ)
    → 1 ≤ i
    → i + n ≡ j
    → IsHeld (eligible p context_id) (prio p) mp m
    → IsBest (eligible p context_id) (prio p) i m
    → IsBest (eligible p context_id) (prio p) j (best p context_id n i mp m)
unfolding best
best-IsBest p context_id zero i mp m j pos e held h =
    subst (λ t. IsBest (eligible p context_id) (prio p) t m) (omega arith) h
best-IsBest p context_id (suc n) i mp m j pos e held h =
    elim (Bool-cases (eligible p context_id i && ltb mp (prio p i))) [
      | inl taken ↦ rw taken (
          best-IsBest p context_id n (suc i) (prio p i) i j (omega arith) (omega arith)
            (inr (λ z. omega arith, refl))
            (IsBest-taken (eligible p context_id) (prio p) i mp m pos held
              (better_parts (eligible p context_id i) mp (prio p i) taken) h))
      | inr kept ↦ rw kept (
          best-IsBest p context_id n (suc i) mp m j (omega arith) (omega arith) held (
            IsBest-kept (eligible p context_id) (prio p) i mp m held
              (not_better (eligible p context_id i) mp (prio p i) kept) h))
    ]

module _ (nr_source nr_context : ℕ) where
  -- For a context that exists `get_int` returns, and puts into `claim` the first of the sources with the
  -- highest priority among those that meet its conditions, or 0 if no priority among them is above 0;
  -- its result is whether the claim is a source. Nothing else changes.
  pub get_int-IsBest :
      (p : Plic) (context_id : ℕ)
      → context_id < length p.claim
      → (m : ℕ) × (get_int nr_source nr_context p context_id
          ≡ ok (record p { claim = set p.claim context_id m }, not (m == 0)))
        × IsBest (eligible p context_id) (prio p) (nr_source + 1) m
  unfolding get_int
  get_int-IsBest p context_id exists = (
    best p context_id nr_source 1 0 0,
    ground arith,
    best-IsBest p context_id nr_source 1 0 0 (nr_source + 1) (omega arith) (omega arith)
        (inl (refl, refl)) (inl refl, λ i low below. absurd (omega arith)),
  )

nonzero_of : (x : ℕ) → not (x == 0) ≡ true → x ≢ 0
nonzero_of x e = ground arith

nonzero_to : (x : ℕ) → x ≢ 0 → not (x == 0) ≡ true
nonzero_to x h = ground arith

-- `get_int` does not test the bit of source `i` in the words `pending`, `enable` and `claimed`, but
-- whether any bit from that of `i` on is set in the same word: a source counts as pending as soon as
-- a later one of its word is.
pub line_iff :
    (words : List ℕ) (i : ℕ)
    → get_or words (i / 32) 0 < 2 ^ 32
    → (line words i ≡ true)
      ↔ ((j : ℕ) × (i ≤ j) × (j / 32 ≡ i / 32) × (bit (j % 32) (get_or words (i / 32) 0) ≡ 1))
line_iff words i word = (
  λ yes_line.
      let (j, from, to, on) =
        high_bit 32 (get_or words (i / 32) 0) (i % 32) word (nonzero_of _ yes_line) in
      let place : (i / 32 * 32 + j) % 32 ≡ j = omega arith in
      (i / 32 * 32 + j, omega arith, omega arith, rw place on),
  λ (j, from, same, on).
      nonzero_to _ (low_shift (get_or words (i / 32) 0) (i % 32) (j % 32) (omega arith) on),
)
