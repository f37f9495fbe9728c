-- ===== src/Sram/Wires.antt =====
-- The test `check` of difftest/src/nscscc_sram.hpp on the pointers to the pins.
use hdu_riscv_lab.Prelude.{
  ℕ, ◌+◌, ◌≤◌, ◌≡◌, ◌↔◌, refl, ◌∙◌, arith, Bool, true, false, not, ◌&&◌, ◌||◌, ◌==◌, List, [], ◌∷◌,
  length, Bool-cases, inl, inr,
}
use hdu_riscv_lab.Sram.{Pointers, pointers, has, insert, insert_all, check}

-- No element of the list occurs in it again or in `s`.
abbrev pub AllNew : List ℕ → List ℕ → Type 0
AllNew [] s = Unit {0}
AllNew (x ∷ xs) s = (has x s ≡ false) × AllNew xs (x ∷ s)

insert_all-le : (xs s : List ℕ) → length (insert_all xs s) ≤ length xs + length s
unfolding insert_all
insert_all-le [] s = omega arith
insert_all-le (x ∷ xs) s = elim (Bool-cases (has x s)) [
  | inl old ↦ rw old (omega (arith, insert_all-le xs s))
  | inr new ↦ rw new (omega (arith, insert_all-le xs (x ∷ s)))
]

-- The set is as large as the list exactly if all are new, and then holds the same elements.
insert_all-length_iff :
    (xs s : List ℕ) → (length (insert_all xs s) ≡ length xs + length s) ↔ AllNew xs s
unfolding insert_all
insert_all-length_iff [] s = (λ e. tt, λ h. omega arith)
insert_all-length_iff (x ∷ xs) s = elim (Bool-cases (has x s)) [
  | inl old ↦ rw old ((λ e. absurd (omega (arith, insert_all-le xs s))), λ (h, more). cc)
  | inr new ↦ rw new (
    (λ e. (refl, (insert_all-length_iff xs (x ∷ s)).0 (omega arith))),
    λ (h, more). omega (arith, (insert_all-length_iff xs (x ∷ s)).1 more),
  )
]

has-insert : (y x : ℕ) (s : List ℕ) → has y (insert x s) ≡ ((y == x) || has y s)
has-insert y x s = elim (Bool-cases (has x s)) [
  | inl old ↦ rw old (elim (Bool-cases (y == x)) [
    | inl same ↦ (let e : y ≡ x = ground arith in rw (same, e) old)
    | inr other ↦ rw other refl
  ])
  | inr new ↦ rw new refl
]

regroup : (a b c d : Bool) → d ≡ (b || c) → (a || d) ≡ ((b || a) || c)
regroup a b c d e = ground arith

-- A number is in the set if and only if it is in one of the lists.
has-insert_all : (y : ℕ) (xs s : List ℕ) → has y (insert_all xs s) ≡ (has y xs || has y s)
unfolding insert_all
has-insert_all y [] s = refl
has-insert_all y (x ∷ xs) s =
    has-insert_all y xs (insert x s) ∙ regroup (has y xs) (y == x) (has y s) _ (has-insert y x s)

set_test :
    (ps : List ℕ) (n : ℕ)
    → length ps ≡ n
    → (((length (insert_all ps []) == n) && not (has 0 (insert_all ps []))) ≡ true)
      ↔ (AllNew ps [] × (has 0 ps ≡ false))
set_test ps n e = (
  λ passed.
      let (size, no_null) =
        both (length (insert_all ps []) == n) (has 0 (insert_all ps [])) passed in
      ((insert_all-length_iff ps []).0 (ground arith), ground (arith, has-insert_all 0 ps [])),
  λ (new, no_null). ground (arith, has-insert_all 0 ps [], (insert_all-length_iff ps []).1 new),
)
  where
    both : (a b : Bool) → (a && not b) ≡ true → (a ≡ true) × (b ≡ false)
    both a b h = ground arith

-- The test succeeds exactly if the ten pointers differ from each other and none of them is `NULL`.
pub check_iff :
    (p : Pointers) → (check p ≡ true) ↔ (AllNew (pointers p) [] × (has 0 (pointers p) ≡ false))
unfolding check
check_iff p = set_test (pointers p) 10 refl
