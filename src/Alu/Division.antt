-- ===== src/Alu/Division.antt =====
-- Division and remainder of `alu_exec` against the table of the RISC-V manual.
use native.Mathlib.Nat.{div-add-mod, div-add-mod', mod-lt, mod-le, div-le_self, div-mul-le_self}
use hdu_riscv_lab.Prelude.{
  ℕ, ◌+◌, ◌-◌, ◌*◌, ◌/◌, ◌%◌, ◌^◌, ◌<◌, ◌≤◌, ◌≡◌, ◌≢◌, refl, Bool, true, false, ok, arith,
  if◌then◌else◌, ◌⊎◌, inl, inr, zero, suc, ap,
}
use hdu_riscv_lab.Word.{sext32, signed64, word64, u64_max, u32}
use hdu_riscv_lab.Word.Int.{ℤ, pos, negsuc, pos_part, neg_part, quot, rem, ◌+ℤ◌, ◌*ℤ◌, neg}
use hdu_riscv_lab.Word.Signed.{
  IsInt64, signed64-word64, signed64-IsInt64, signed64-injective, sext32-sext32, u32-sext32,
}
use hdu_riscv_lab.Alu.{
  alu_div, alu_divu, alu_rem, alu_remu, div, divu, remainder, remainderu, alu_switch, alu_exec,
}

abbrev pub abs : ℤ → ℕ
abs z = pos_part z + neg_part z

neg-*-pos : (q b : ℕ) → neg q *ℤ pos b ≡ neg (q * b)
neg-*-pos zero b = ground arith
neg-*-pos (suc q) b = ground arith

neg-*-negsuc : (q b : ℕ) → neg q *ℤ negsuc b ≡ pos (q * (b + 1))
neg-*-negsuc zero b = ground arith
neg-*-negsuc (suc q) b = ground arith

-- Truncated division on the integers.
quot-rem : (x y : ℤ) → y ≢ pos 0 → quot x y *ℤ y +ℤ rem x y ≡ x
quot-rem (pos a) (pos b) ne = ground (arith, div-add-mod a b)
quot-rem (pos a) (negsuc b) ne =
    rw (neg-*-negsuc (a / (b + 1)) b) (ground (arith, div-add-mod a (b + 1)))
quot-rem (negsuc a) (pos zero) ne = absurd (ne refl)
quot-rem (negsuc a) (pos (suc b)) ne =
    rw (neg-*-pos ((a + 1) / suc b) (suc b)) (ground (arith, div-add-mod (a + 1) (suc b)))
quot-rem (negsuc a) (negsuc b) ne = ground (arith, div-add-mod (a + 1) (b + 1))

-- The remainder is smaller than the divisor and has the dividend's sign.
rem_bound :
    (x y : ℤ)
    → y ≢ pos 0
    → (abs (rem x y) < abs y)
      × (pos_part (rem x y) ≤ pos_part x)
      × (neg_part (rem x y) ≤ neg_part x)
rem_bound (pos a) (pos zero) ne = absurd (ne refl)
rem_bound (pos a) (pos (suc b)) ne = omega (arith, mod-lt)
rem_bound (pos a) (negsuc b) ne = ground arith
rem_bound (negsuc a) (pos zero) ne = absurd (ne refl)
rem_bound (negsuc a) (pos (suc b)) ne = ground (arith)
rem_bound (negsuc a) (negsuc b) ne = ground arith

neg_parts : (n : ℕ) → (pos_part (neg n) ≡ 0) × (neg_part (neg n) ≡ n)
neg_parts zero = ground arith
neg_parts (suc n) = ground arith

-- Only -2^63 / -1 leaves the range.
quot-IsInt64 :
    (x y : ℤ) → IsInt64 x → (x ≢ negsuc (2 ^ 63 - 1)) ⊎ (y ≢ negsuc 0) → IsInt64 (quot x y)
quot-IsInt64 (pos a) (pos b) h o = ground (arith, div-le_self a b)
quot-IsInt64 (pos a) (negsuc b) h o = ground (arith, neg_parts (a / (b + 1)), div-le_self a (b + 1))
quot-IsInt64 (negsuc a) (pos b) h o = ground (arith, neg_parts ((a + 1) / b), div-le_self (a + 1) b)
quot-IsInt64 (negsuc a) (negsuc zero) (h, g) (inl o) =
    let proper : a ≢ 2 ^ 63 - 1 = λ e. o (ap negsuc e) in (omega arith, omega arith)
quot-IsInt64 (negsuc a) (negsuc zero) h (inr o) = absurd (o refl)
quot-IsInt64 (negsuc a) (negsuc (suc b)) (h, g) o =
    let t = (a + 1) / (suc b + 1) in
    let below : t * (suc b + 1) ≤ a + 1 = div-mul-le_self (a + 1) (suc b + 1) in
    let twice : t * 2 ≤ t * (suc b + 1) = grind arith in (omega arith, omega arith)

rem-IsInt64 : (x y : ℤ) → y ≢ pos 0 → IsInt64 x → IsInt64 (rem x y)
rem-IsInt64 x y ne h = omega (arith, rem_bound x y ne)

abbrev IsDefined : ℕ → ℕ → Type 0
IsDefined a b = (b ≢ 0) × ((a ≢ 2 ^ 63) ⊎ (b ≢ u64_max))

div_lem : (a b : ℕ) → IsDefined a b → div a b ≡ word64 (quot (signed64 a) (signed64 b))
unfolding div
div_lem a b h = ground arith

remainder_lem : (a b : ℕ) → IsDefined a b → remainder a b ≡ word64 (rem (signed64 a) (signed64 b))
unfolding remainder
remainder_lem a b h = ground arith

signed64-ne_zero : (b : ℕ) → b < 2 ^ 64 → b ≢ 0 → signed64 b ≢ pos 0
signed64-ne_zero b h ne e = ground arith

signed64-ne : (a v : ℕ) → a < 2 ^ 64 → v < 2 ^ 64 → a ≢ v → signed64 a ≢ signed64 v
signed64-ne a v ha hv ne e = ne (signed64-injective a v ha hv e)

-- The signed quotient and remainder are those of the division rounded towards zero: together they
-- give the dividend back, the remainder is the smaller and has the dividend's sign. The divisor
-- is not zero and the division is not -2^63 by -1.
pub alu_exec-div-rem :
    (a b : ℕ)
    → a < 2 ^ 64
    → b < 2 ^ 64
    → b ≢ 0
    → (a ≢ 2 ^ 63) ⊎ (b ≢ u64_max)
    → (q r : ℕ) × (alu_exec a b alu_div false ≡ ok q)
      × (alu_exec a b alu_rem false ≡ ok r)
      × (signed64 q *ℤ signed64 b +ℤ signed64 r ≡ signed64 a)
      × (abs (signed64 r) < abs (signed64 b))
      × (pos_part (signed64 r) ≤ pos_part (signed64 a))
      × (neg_part (signed64 r) ≤ neg_part (signed64 a))
unfolding alu_exec alu_switch
alu_exec-div-rem a b ha hb ne proper =
    rw (div_lem a b (ne, proper), remainder_lem a b (ne, proper))
      (
        word64 (quot x y),
        word64 (rem x y),
        refl,
        refl,
        rw (exact_q, exact_r) (quot-rem x y nonzero),
        rw exact_r bounds.0,
        rw exact_r bounds.1,
        rw exact_r bounds.2,
      )
  where
    x : ℤ
    x = signed64 a

    y : ℤ
    y = signed64 b

    nonzero : y ≢ pos 0
    nonzero = signed64-ne_zero b hb ne

    bounds :
        (abs (rem x y) < abs y)
        × (pos_part (rem x y) ≤ pos_part x)
        × (neg_part (rem x y) ≤ neg_part x)
    bounds = rem_bound x y nonzero

    in_range : (a ≢ 2 ^ 63) ⊎ (b ≢ u64_max) → (x ≢ negsuc (2 ^ 63 - 1)) ⊎ (y ≢ negsuc 0)
    in_range (inl e) = inl (signed64-ne a (2 ^ 63) ha (omega arith) e)
    in_range (inr e) = inr (signed64-ne b u64_max hb (omega arith) e)

    exact_q : signed64 (word64 (quot x y)) ≡ quot x y
    exact_q =
        signed64-word64 (quot x y) (quot-IsInt64 x y (signed64-IsInt64 a ha) (in_range proper))

    exact_r : signed64 (word64 (rem x y)) ≡ rem x y
    exact_r = signed64-word64 (rem x y) (rem-IsInt64 x y nonzero (signed64-IsInt64 a ha))

-- What a division by zero and -2^63 by -1 give: all ones and the dividend, and the dividend and 0.
pub alu_exec-div_special :
    (a : ℕ)
    → (alu_exec a 0 alu_div false ≡ ok u64_max)
      × (alu_exec a 0 alu_rem false ≡ ok a)
      × (alu_exec (2 ^ 63) u64_max alu_div false ≡ ok (2 ^ 63))
      × (alu_exec (2 ^ 63) u64_max alu_rem false ≡ ok 0)
      × (alu_exec a 0 alu_divu false ≡ ok u64_max)
      × (alu_exec a 0 alu_remu false ≡ ok a)
      × (alu_exec a 0 alu_divu true ≡ ok u64_max)
      × (alu_exec a 0 alu_remu true ≡ ok (sext32 a))
unfolding alu_exec alu_switch div remainder divu remainderu
alu_exec-div_special a = (refl, refl, refl, refl, refl, refl, refl, ap ok (sext32-sext32 a))

-- The operand that an unsigned division sees: all of it, or its low 32 bits.
abbrev pub width : Bool → ℕ → ℕ
width w x = if w then u32 x else x

-- The unsigned quotient and remainder, in 64 bits and in 32: together they give the dividend back
-- and the remainder is the smaller, where the divisor's part that counts is not zero.
pub alu_exec-divu-remu :
    (a b : ℕ) (w : Bool)
    → width w b ≢ 0
    → (q r : ℕ) × (alu_exec a b alu_divu w ≡ ok q)
      × (alu_exec a b alu_remu w ≡ ok r)
      × (width w q * width w b + width w r ≡ width w a)
      × (width w r < width w b)
unfolding alu_exec alu_switch divu remainderu
alu_exec-divu-remu a b false ne =
    (a / b, a % b, ground arith, ground arith, div-add-mod' a b, omega arith)
alu_exec-divu-remu a b true ne = (
  sext32 (u32 a / u32 b),
  sext32 (u32 a % u32 b),
  ground arith,
  ground arith,
  rw (u32-sext32 (u32 a / u32 b), u32-sext32 (u32 a % u32 b), quotient_fits, rest_fits)
      (div-add-mod' (u32 a) (u32 b)),
  rw (u32-sext32 (u32 a % u32 b), rest_fits) (omega (arith, mod-lt)),
)
  where
    quotient_fits : u32 (u32 a / u32 b) ≡ u32 a / u32 b
    quotient_fits = omega (arith, div-le_self (u32 a) (u32 b))

    rest_fits : u32 (u32 a % u32 b) ≡ u32 a % u32 b
    rest_fits = omega (arith, mod-le (u32 a) (u32 b))
