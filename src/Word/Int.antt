-- ===== src/Word/Int.antt =====
-- Signed integers over the native numbers, with the division and the shift of C.
use hdu_riscv_lab.Prelude.{ℕ, suc, ◌+◌, ◌-◌, ◌*◌, ◌/◌, ◌%◌, ◌^◌, Bool, ltb, leb, if◌then◌else◌}

-- `negsuc n` is -(n + 1).
pub data ℤ : Type 0 where
  pos : ℕ → ℤ
  negsuc : ℕ → ℤ

abbrev pub pos_part : ℤ → ℕ
pos_part (pos n) = n
pos_part (negsuc n) = 0

abbrev pub neg_part : ℤ → ℕ
neg_part (pos n) = 0
neg_part (negsuc n) = suc n

-- a - b, as an integer.
abbrev pub sub_ℕ : ℕ → ℕ → ℤ
sub_ℕ a b = if leb b a then pos (a - b) else negsuc (b - a - 1)

infixl 65 ◌+ℤ◌
infixl 70 ◌*ℤ◌
abbrev pub ◌+ℤ◌ : ℤ → ℤ → ℤ
a +ℤ b = sub_ℕ (pos_part a + pos_part b) (neg_part a + neg_part b)

-- The product of two magnitudes with the sign of a negative and of a non-negative factor.
abbrev pub neg : ℕ → ℤ
neg n = sub_ℕ 0 n

abbrev pub ◌*ℤ◌ : ℤ → ℤ → ℤ
pos a *ℤ pos b = pos (a * b)
pos a *ℤ negsuc b = neg (a * (b + 1))
negsuc a *ℤ pos b = neg ((a + 1) * b)
negsuc a *ℤ negsuc b = pos ((a + 1) * (b + 1))

abbrev pub ltb_ℤ : ℤ → ℤ → Bool
ltb_ℤ a b = ltb (pos_part a + neg_part b) (pos_part b + neg_part a)

-- `/` and `%` of C: the quotient is cut towards zero, the remainder has the dividend's sign.
abbrev pub quot : ℤ → ℤ → ℤ
quot (pos a) (pos b) = pos (a / b)
quot (pos a) (negsuc b) = neg (a / (b + 1))
quot (negsuc a) (pos b) = neg ((a + 1) / b)
quot (negsuc a) (negsuc b) = pos ((a + 1) / (b + 1))

abbrev pub rem : ℤ → ℤ → ℤ
rem (pos a) (pos b) = pos (a % b)
rem (pos a) (negsuc b) = pos (a % (b + 1))
rem (negsuc a) (pos b) = neg ((a + 1) % b)
rem (negsuc a) (negsuc b) = neg ((a + 1) % (b + 1))

-- `>>` of a signed value: the quotient by 2 ^ k, rounded down.
abbrev pub shr_ℤ : ℤ → ℕ → ℤ
shr_ℤ (pos n) k = pos (n / 2 ^ k)
shr_ℤ (negsuc n) k = negsuc (n / 2 ^ k)
