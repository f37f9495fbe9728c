-- ===== src/Word/Signed.antt =====
-- The conversions between a word and the integer that it stands for, and sign extension.
use hdu_riscv_lab.Prelude.{ℕ, ◌^◌, ◌<◌, ◌≤◌, ◌≡◌, ◌⊎◌, inl, inr, ◌+◌, ◌-◌, Bool-cases, ltb, arith}
use hdu_riscv_lab.Word.{u32, sext32, signed64, word64}
use hdu_riscv_lab.Word.Int.{ℤ, pos, negsuc, pos_part, neg_part}

pub word64-signed64 : (w : ℕ) → w < 2 ^ 64 → word64 (signed64 w) ≡ w
word64-signed64 w h = ground arith

pub word64-lt : (z : ℤ) → word64 z < 2 ^ 64
word64-lt (pos n) = omega arith
word64-lt (negsuc n) = omega arith

-- The integers of 64 bits.
abbrev pub IsInt64 : ℤ → Type 0
IsInt64 z = (pos_part z < 2 ^ 63) × (neg_part z ≤ 2 ^ 63)

pub signed64-word64 : (z : ℤ) → IsInt64 z → signed64 (word64 z) ≡ z
signed64-word64 (pos n) h = ground arith
signed64-word64 (negsuc n) h = ground arith

pub signed64-IsInt64 : (w : ℕ) → w < 2 ^ 64 → IsInt64 (signed64 w)
signed64-IsInt64 w h = ground arith

pub signed64-injective : (v w : ℕ) → v < 2 ^ 64 → w < 2 ^ 64 → signed64 v ≡ signed64 w → v ≡ w
signed64-injective v w hv hw e = ground arith

pub sext32-lt : (x : ℕ) → sext32 x < 2 ^ 64
sext32-lt x = ground arith

-- Sign extension keeps the low half, which decides the result.
pub u32-sext32 : (x : ℕ) → u32 (sext32 x) ≡ u32 x
u32-sext32 x = ground arith

pub sext32-sext32 : (x : ℕ) → sext32 (sext32 x) ≡ sext32 x
sext32-sext32 x = ground arith

pub sext32_of_mod : (x y : ℕ) → u32 x ≡ u32 y → sext32 x ≡ sext32 y
sext32_of_mod x y e = ground arith

-- A pattern is its number, or stands for -(c + 1), the complement of `c + 1`.
pub signed64-cases :
    (w : ℕ)
    → w < 2 ^ 64
    → ((w < 2 ^ 63) × (signed64 w ≡ pos w))
      ⊎ ((c : ℕ) × (w + (c + 1) ≡ 2 ^ 64) × (signed64 w ≡ negsuc c))
signed64-cases w h = elim (Bool-cases (ltb w (2 ^ 63))) [
  | inl e ↦ inl (ground arith, ground arith)
  | inr e ↦ inr (2 ^ 64 - w - 1, ground arith, ground arith)
]
