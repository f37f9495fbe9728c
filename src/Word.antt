-- ===== src/Word.antt =====
-- Machine words as native numbers: `uint64_t`, `int64_t` and their casts in difftest/src.
-- An int64_t is kept as its bit pattern, below 2 ^ 64; `signed64` is the number it stands for.
pub mod Int
pub mod Digits
pub mod Bits
pub mod Single
pub mod Signed
use hdu_riscv_lab.Prelude.{ℕ, ◌+◌, ◌-◌, ◌*◌, ◌/◌, ◌%◌, ◌^◌, Bool, ltb, ◌==◌, if◌then◌else◌}
use Int.{ℤ, pos, negsuc}

abbrev pub u8 : ℕ → ℕ
u8 n = n % 2 ^ 8

abbrev pub u32 : ℕ → ℕ
u32 n = n % 2 ^ 32

abbrev pub u64 : ℕ → ℕ
u64 n = n % 2 ^ 64

abbrev pub u64_max : ℕ
u64_max = 2 ^ 64 - 1

-- Unsigned 64-bit `a + b`, `a - b`, `a * b` and `~a`. `-` on ℕ stops at 0, so the modulus is added.
abbrev pub add64 : ℕ → ℕ → ℕ
add64 a b = u64 (a + b)

abbrev pub sub64 : ℕ → ℕ → ℕ
sub64 a b = u64 (a + 2 ^ 64 - b)

abbrev pub mul64 : ℕ → ℕ → ℕ
mul64 a b = u64 (a * b)

abbrev pub not64 : ℕ → ℕ
not64 a = u64_max - a

-- `x << k` in 64 bits and `x >> k`.
abbrev pub shl64 : ℕ → ℕ → ℕ
shl64 x k = u64 (x * 2 ^ k)

abbrev pub shr : ℕ → ℕ → ℕ
shr x k = x / 2 ^ k

-- `x & (2^k - 1)`.
abbrev pub low_bits : ℕ → ℕ → ℕ
low_bits x k = x % 2 ^ k

-- `x & (1 << k)` as a test.
abbrev pub has_bit : ℕ → ℕ → Bool
has_bit x k = x / 2 ^ k % 2 == 1

-- A bit-field of `len` bits at bit `lo`: its value, and the word with a new value stored.
abbrev pub get_bits : ℕ → ℕ → ℕ → ℕ
get_bits lo len w = w / 2 ^ lo % 2 ^ len

abbrev pub set_bits : ℕ → ℕ → ℕ → ℕ → ℕ
set_bits lo len v w = w - w / 2 ^ lo % 2 ^ len * 2 ^ lo + v % 2 ^ len * 2 ^ lo

-- The conversion of a signed `len`-bit value to `int64_t`: `(int32_t)x` for `len = 32`.
abbrev pub sext : ℕ → ℕ → ℕ
sext len x = let v = x % 2 ^ len in if ltb v (2 ^ (len - 1)) then v else v + 2 ^ 64 - 2 ^ len

abbrev pub sext32 : ℕ → ℕ
sext32 = sext 32

abbrev pub signed64 : ℕ → ℤ
signed64 w = if ltb w (2 ^ 63) then pos w else negsuc (2 ^ 64 - w - 1)

-- The conversion of an integer to 64 bits: the remainder modulo 2 ^ 64.
abbrev pub word64 : ℤ → ℕ
word64 (pos n) = n % 2 ^ 64
word64 (negsuc n) = 2 ^ 64 - 1 - n % 2 ^ 64
