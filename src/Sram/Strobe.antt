-- ===== src/Sram/Strobe.antt =====
-- Bytes, blocks and write strobes for the data channel of difftest/src/nscscc_sram_slave.hpp.
use native.Mathlib.Nat.{zero-div}
use hdu_riscv_lab.Word.Digits.{bit_and_digit}
use hdu_riscv_lab.Prelude.{
  ℕ, zero, suc, ◌+◌, ◌-◌, ◌/◌, ◌%◌, ◌^◌, ◌<◌, ◌≤◌, ◌≡◌, refl, ap, ◌∙◌, arith, Bool, true, false,
  ◌&&◌, ◌||◌, ltb, leb, ◌==◌, if◌then◌else◌, List, [], ◌∷◌, length, get_or, take, drop, Bool-cases,
  inl, inr, bit_and,
}
use hdu_riscv_lab.Word.{has_bit}
use hdu_riscv_lab.Word.Bits.{bit_and-mask}
use hdu_riscv_lab.Bytes.{slice, store}
use hdu_riscv_lab.Sram.Slave.{strb_to_range}
use hdu_riscv_lab.Sram.Runs.{covered, IsApart-covered, IsRuns, strb_to_range-IsRuns}

get_or-take : (n : ℕ) (bs : List ℕ) (i : ℕ) → i < n → get_or (take n bs) i 0 ≡ get_or bs i 0
get_or-take zero bs i h = absurd (omega arith)
get_or-take (suc n) [] i h = refl
get_or-take (suc n) (b ∷ bs) zero h = refl
get_or-take (suc n) (b ∷ bs) (suc i) h = get_or-take n bs i (omega arith)

get_or-drop : (n : ℕ) (bs : List ℕ) (i : ℕ) → get_or (drop n bs) i 0 ≡ get_or bs (n + i) 0
get_or-drop zero bs i = ap (λ t. get_or bs t 0) (omega arith)
get_or-drop (suc n) [] i = refl
get_or-drop (suc n) (b ∷ bs) i =
    let next : suc n + i ≡ suc (n + i) = omega arith in rw next (get_or-drop n bs i)

-- The address without its lowest 3 bits.
pub bit_and-block : (a : ℕ) → a < 2 ^ 32 → bit_and a 0xfffffff8 ≡ a - a % 2 ^ 3
bit_and-block a h = omega (
  arith,
  bit_and_digit a 0xfffffff8,
  bit_and_digit (a / 2) 0x7ffffffc,
  bit_and_digit (a / 2 / 2) 0x3ffffffe,
  bit_and-mask 29 (a / 2 / 2 / 2),
)

pub get_or-slice :
    (bs : List ℕ) (at n i : ℕ) → i < n → get_or (slice at n bs) i 0 ≡ get_or bs (at + i) 0
get_or-slice bs at n i h = get_or-take n (drop at bs) i h ∙ get_or-drop at bs i

pub store_inside :
    (f : ℕ → ℕ) (at : ℕ) (bs : List ℕ) (i : ℕ)
    → (at ≤ i) × (i < at + length bs)
    → store f at bs i ≡ get_or bs (i - at) 0
store_inside f at bs i h = ground arith

pub store_outside :
    (f : ℕ → ℕ) (at : ℕ) (bs : List ℕ) (i : ℕ)
    → (leb at i && ltb i (at + length bs)) ≡ false
    → store f at bs i ≡ f i
store_outside f at bs i h = rw h refl

pub no_range : (x y : ℕ) (b : Bool) → x ≡ (if b && false then y else x)
no_range x y b = ground arith

pub differ : {b : Bool} → b ≡ true → b ≡ false → ⊥
differ e e' = cc

pub two_ranges :
    (b k c : Bool) {x f g h : ℕ}
    → h ≡ (if b && c then x else g)
    → ((b && k) ≡ true → (c ≡ false) × (g ≡ x))
    → ((b && k) ≡ false → g ≡ f)
    → h ≡ (if b && (k || c) then x else f)
two_ranges false k c e held left = e ∙ left refl
two_ranges true true c e held left = let (free, stored) = held refl in (rw free at e) ∙ stored
two_ranges true false true e held left = e
two_ranges true false false e held left = e ∙ left refl

-- No range is asked for where the strobe is 0.
abbrev pub strobed : ℕ → List (ℕ × ℕ)
strobed wen = if wen == 0 then [] else strb_to_range wen

pub strobed_bit : (wen k : ℕ) → covered (strobed wen) k ≡ (ltb k 8 && has_bit wen k)
strobed_bit wen k = elim (Bool-cases (wen == 0)) [
  | inl idle ↦
      let none_set : wen ≡ 0 = ground arith in rw none_set (ground (arith, zero-div (2 ^ k)))
  | inr busy ↦ rw busy (runs_bit (strb_to_range wen) (strb_to_range-IsRuns wen).0)
]
  where
    runs_bit : (rs : List (ℕ × ℕ)) → IsRuns wen 0 rs → covered rs k ≡ (ltb k 8 && has_bit wen k)
    runs_bit rs (apart, all) = elim (Bool-cases (ltb k 8)) [
      | inl inside ↦ rw inside (all k (omega arith) (ground arith))
      | inr outside ↦ rw outside (elim (Bool-cases (covered rs k)) [
        | inl held ↦ absurd (ground (arith, IsApart-covered rs 0 k apart held))
        | inr free ↦ free
      ])
    ]
