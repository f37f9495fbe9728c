-- ===== src/Word/Digits.antt =====
-- `&`, `|` and `^` digit by digit, from the recursion that the native operations stand for.
use Prim.Native.Nat.{digits, bit_and-bitwise, bit_or-bitwise, bit_xor-bitwise, differ}
use hdu_riscv_lab.Prelude.{
  ℕ, zero, suc, ◌+◌, ◌-◌, ◌*◌, ◌/◌, ◌%◌, ◌≤◌, min, max, bit_and, bit_or, bit_xor, ◌≡◌, refl, ◌∙◌,
  arith,
}

module _ (rest : ℕ → ℕ) (digit : ℕ → ℕ → ℕ) where
  -- One more unit of fuel changes nothing where the fuel covers the first number.
  digits-suc :
      (fuel x y : ℕ) → x ≤ fuel → digits rest digit (suc fuel) x y ≡ digits rest digit fuel x y
  digits-suc zero zero y h = refl
  digits-suc zero (suc x) y h = absurd (omega arith)
  digits-suc (suc fuel) zero y h = refl
  digits-suc (suc fuel) (suc x) y h = rw (digits-suc fuel (suc x / 2) (y / 2) (omega arith))

  digits-add :
      (more fuel total x y : ℕ)
      → more + fuel ≡ total
      → x ≤ fuel
      → digits rest digit total x y ≡ digits rest digit fuel x y
  digits-add zero fuel total x y e h = let same : total ≡ fuel = omega arith in rw same
  digits-add (suc more) fuel zero x y e h = absurd (omega arith)
  digits-add (suc more) fuel (suc total) x y e h =
      digits-suc total x y (omega arith) ∙ digits-add more fuel total x y (omega arith) h

  pub halve :
      (x y : ℕ)
      → digits rest digit (suc x) (suc x) y
        ≡ digits rest digit (suc x / 2) (suc x / 2) (y / 2) * 2 + digit (suc x % 2) (y % 2)
  halve x y =
      let half = suc x / 2 in
      rw (digits-add (x - half) half x half (y / 2) (omega arith) (omega arith))

pub bit_and_digit : (x y : ℕ) → bit_and x y ≡ min (x % 2) (y % 2) + 2 * bit_and (x / 2) (y / 2)
bit_and_digit zero y = simp bit_and-bitwise (omega arith)
bit_and_digit (suc x) y = simp bit_and-bitwise (omega (arith, halve (λ b. 0) min x y))

pub bit_or_digit : (x y : ℕ) → bit_or x y ≡ max (x % 2) (y % 2) + 2 * bit_or (x / 2) (y / 2)
bit_or_digit zero y = simp bit_or-bitwise (omega arith)
bit_or_digit (suc x) y = simp bit_or-bitwise (omega (arith, halve (λ b. b) max x y))

differ-eq-gap : (x y : ℕ) → differ x y ≡ x - y + (y - x)
differ-eq-gap zero y = omega arith
differ-eq-gap (suc x) zero = omega arith
differ-eq-gap (suc x) (suc y) = omega (arith, differ-eq-gap x y)

-- The digits differ: one of the two cut-off differences is their distance.
pub bit_xor_digit :
    (a b : ℕ) → bit_xor a b ≡ bit_xor (a / 2) (b / 2) * 2 + (a % 2 - b % 2 + (b % 2 - a % 2))
bit_xor_digit zero b = simp bit_xor-bitwise (omega arith)
bit_xor_digit (suc a) b =
    simp bit_xor-bitwise
      (halve (λ y. y) differ a b ∙ omega (arith, differ-eq-gap (suc a % 2) (b % 2)))
