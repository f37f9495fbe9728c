-- ===== src/Plic/Bounds.antt =====
-- Calls that are undefined behaviour, and when the accesses to arrays in difftest/src/rv_plic.hpp are.
use hdu_riscv_lab.Prelude.{
  ℕ, ◌<◌, ◌≡◌, refl, arith, Bool, true, false, ◌||◌, ltb, leb, if◌then◌else◌, List, length, get_or,
  set, Outcome, ok, faults, exits, aborts, ◌>>=◌, Bool-cases, inl, inr,
}
use hdu_riscv_lab.Plic.{element, replaced}

abbrev pub faulty {ℓ} : {A : Type ℓ} → Outcome A → Bool
faulty call = elim call [ ok value ↦ false | exits code ↦ false | aborts ↦ false | faults ↦ true ]

pub faulty-if {ℓ} :
    {A : Type ℓ} (b : Bool) (x y : Outcome A) {bx by : Bool}
    → faulty x ≡ bx
    → faulty y ≡ by
    → faulty (if b then x else y) ≡ (if b then bx else by)
faulty-if true x y ex ey = ex
faulty-if false x y ex ey = ey

pub faulty-element {ℓ κ} :
    {A : Type ℓ} {B : Type κ} (xs : List A) (i : ℕ) (d : A) (next : A → Outcome B) {bad : Bool}
    → (i < length xs → faulty (next (get_or xs i d)) ≡ bad)
    → faulty (element xs i d >>= next) ≡ (leb (length xs) i || bad)
faulty-element xs i d next {bad} h = elim (Bool-cases (ltb i (length xs))) [
  | inl there ↦
      let inside : leb (length xs) i ≡ false = ground arith in
      rw there (rw inside (h (ground arith)))
  | inr gone ↦ let outside : leb (length xs) i ≡ true = ground arith in rw gone (rw outside refl)
]

pub faulty-replaced {ℓ κ} :
    {A : Type ℓ} {B : Type κ} (xs : List A) (i : ℕ) (v : A) (next : List A → Outcome B) {bad : Bool}
    → (i < length xs → faulty (next (set xs i v)) ≡ bad)
    → faulty (replaced xs i v >>= next) ≡ (leb (length xs) i || bad)
faulty-replaced xs i v next {bad} h = elim (Bool-cases (ltb i (length xs))) [
  | inl there ↦
      let inside : leb (length xs) i ≡ false = ground arith in
      rw there (rw inside (h (ground arith)))
  | inr gone ↦ let outside : leb (length xs) i ≡ true = ground arith in rw gone (rw outside refl)
]
