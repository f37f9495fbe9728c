-- ===== src/Word/Bits.antt =====
-- Laws of `&`, `|` and `^` at every width: single bits, masks, disjoint fields and bounds.
use Prim.Native.Nat.{bit_and-bitwise, bit_or-bitwise, bit_xor-bitwise}
use native.Mathlib.Nat.{pow-succ', div-div-eq-div-mul, div-add-mod, one-le-pow}
use hdu_riscv_lab.Word.Digits.{bit_and_digit, bit_or_digit, bit_xor_digit}
use hdu_riscv_lab.Prelude.{
  ℕ, zero, suc, ◌+◌, ◌-◌, ◌*◌, ◌/◌, ◌%◌, ◌^◌, ◌<◌, ◌≤◌, min, max, bit_and, bit_or, bit_xor, ◌≡◌, ap,
  sym, ◌∙◌, arith,
}

-- The value of bit `k`.
abbrev pub bit : ℕ → ℕ → ℕ
bit k x = x / 2 ^ k % 2

pub div-pow-suc : (x k : ℕ) → x / 2 ^ suc k ≡ x / 2 / 2 ^ k
div-pow-suc x k = ap (λ (t : ℕ). x / t) (pow-succ' 2 k) ∙ sym (div-div-eq-div-mul x 2 (2 ^ k))

pub mod-pow-suc : (x k : ℕ) → x % 2 ^ suc k ≡ x / 2 % 2 ^ k * 2 + x % 2
mod-pow-suc x k = omega (
  arith,
  div-add-mod x (2 ^ suc k),
  div-add-mod (x / 2) (2 ^ k),
  ap (λ (t : ℕ). 2 ^ suc k * t) (div-pow-suc x k),
  ap (λ (t : ℕ). t * (x / 2 / 2 ^ k)) (pow-succ' 2 k),
)

-- Each bit of the result is that of the two bits.
pub bit-bit_and : (k a b : ℕ) → bit k (bit_and a b) ≡ min (bit k a) (bit k b)
bit-bit_and zero a b = omega (arith, bit_and_digit a b)
bit-bit_and (suc k) a b =
    let halves : bit_and a b / 2 ≡ bit_and (a / 2) (b / 2) = omega (arith, bit_and_digit a b) in
    rw (div-pow-suc (bit_and a b) k, div-pow-suc a k, div-pow-suc b k, halves)
      (bit-bit_and k (a / 2) (b / 2))

pub bit-bit_or : (k a b : ℕ) → bit k (bit_or a b) ≡ max (bit k a) (bit k b)
bit-bit_or zero a b = omega (arith, bit_or_digit a b)
bit-bit_or (suc k) a b =
    let halves : bit_or a b / 2 ≡ bit_or (a / 2) (b / 2) = omega (arith, bit_or_digit a b) in
    rw (div-pow-suc (bit_or a b) k, div-pow-suc a k, div-pow-suc b k, halves)
      (bit-bit_or k (a / 2) (b / 2))

zero-bit_and : (b : ℕ) → bit_and 0 b ≡ 0
zero-bit_and b = bit_and-bitwise 0 b

zero-bit_or : (b : ℕ) → bit_or 0 b ≡ b
zero-bit_or b = bit_or-bitwise 0 b

-- A number bounds itself, so the halving stops.
bit_and-zero_within : (n a : ℕ) → a ≤ n → bit_and a 0 ≡ 0
bit_and-zero_within n zero h = zero-bit_and 0
bit_and-zero_within zero (suc a) h = absurd (omega arith)
bit_and-zero_within (suc n) (suc a) h =
    let rest = bit_and-zero_within n (suc a / 2) (omega arith) in
    omega (arith, bit_and_digit (suc a) 0)

bit_or-zero_within : (n a : ℕ) → a ≤ n → bit_or a 0 ≡ a
bit_or-zero_within n zero h = zero-bit_or 0
bit_or-zero_within zero (suc a) h = absurd (omega arith)
bit_or-zero_within (suc n) (suc a) h =
    let rest = bit_or-zero_within n (suc a / 2) (omega arith) in
    omega (arith, bit_or_digit (suc a) 0)

pub bit_xor-zero_within : (n a : ℕ) → a ≤ n → bit_xor a 0 ≡ a
bit_xor-zero_within n zero h = bit_xor-bitwise 0 0
bit_xor-zero_within zero (suc a) h = absurd (omega arith)
bit_xor-zero_within (suc n) (suc a) h =
    let rest = bit_xor-zero_within n (suc a / 2) (omega arith) in
    omega (arith, bit_xor_digit (suc a) 0)

-- A result fits where the operands do; for `&` one operand is enough.
pub bit_and-lt : (k a b : ℕ) → a < 2 ^ k → bit_and a b < 2 ^ k
bit_and-lt zero zero b h = omega (arith, zero-bit_and b)
bit_and-lt zero (suc a) b h = absurd (omega arith)
bit_and-lt (suc k) a b h = omega (
  arith,
  pow-succ' 2 k,
  bit_and_digit a b,
  bit_and-lt k (a / 2) (b / 2) (omega (arith, pow-succ' 2 k)),
)

pub bit_or-lt : (k a b : ℕ) → a < 2 ^ k → b < 2 ^ k → bit_or a b < 2 ^ k
bit_or-lt zero zero zero h g = omega arith
bit_or-lt zero zero (suc b) h g = absurd (omega arith)
bit_or-lt zero (suc a) b h g = absurd (omega arith)
bit_or-lt (suc k) a b h g =
    let below : bit_or (a / 2) (b / 2) < 2 ^ k =
      bit_or-lt k (a / 2) (b / 2) (omega (arith, pow-succ' 2 k)) (omega (arith, pow-succ' 2 k)) in
    omega (arith, pow-succ' 2 k, bit_or_digit a b)

pub bit_xor-lt : (k a b : ℕ) → a < 2 ^ k → b < 2 ^ k → bit_xor a b < 2 ^ k
bit_xor-lt zero zero zero h g = omega arith
bit_xor-lt zero zero (suc b) h g = absurd (omega arith)
bit_xor-lt zero (suc a) b h g = absurd (omega arith)
bit_xor-lt (suc k) a b h g =
    let below : bit_xor (a / 2) (b / 2) < 2 ^ k =
      bit_xor-lt k (a / 2) (b / 2) (omega (arith, pow-succ' 2 k)) (omega (arith, pow-succ' 2 k)) in
    omega (arith, pow-succ' 2 k, bit_xor_digit a b)

pub bit_and-le : (k a b : ℕ) → a < 2 ^ k → bit_and a b ≤ a
bit_and-le zero zero b h = omega (arith, zero-bit_and b)
bit_and-le zero (suc a) b h = absurd (omega arith)
bit_and-le (suc k) a b h =
    omega (arith, bit_and_digit a b, bit_and-le k (a / 2) (b / 2) (omega (arith, pow-succ' 2 k)))

-- `&` with a mask of `k` low ones is the remainder by `2 ^ k`.
pub bit_and-mask : (k a : ℕ) → bit_and a (2 ^ k - 1) ≡ a % 2 ^ k
bit_and-mask zero a = omega (arith, bit_and-zero_within a a (omega arith))
bit_and-mask (suc k) a = ground (
  arith,
  one-le-pow k 2,
  pow-succ' 2 k,
  mod-pow-suc a k,
  bit_and_digit a (2 ^ suc k - 1),
  mask_half,
  bit_and-mask k (a / 2),
)
  where
    mask_half : (2 ^ suc k - 1) / 2 ≡ 2 ^ k - 1
    mask_half = omega (arith, pow-succ' 2 k, one-le-pow k 2)

-- `|` of a shifted value and a value below the shift is their sum.
pub bit_or-shifted : (k q r : ℕ) → r < 2 ^ k → bit_or (q * 2 ^ k) r ≡ q * 2 ^ k + r
bit_or-shifted zero q zero h = ground (arith, bit_or-zero_within q q (omega arith))
bit_or-shifted zero q (suc r) h = absurd (omega arith)
bit_or-shifted (suc k) q r h = ground (
  arith,
  bit_or_digit (q * 2 ^ suc k) r,
  ap (λ (t : ℕ). q * t) (pow-succ' 2 k),
  pow-succ' 2 k,
  bit_or-shifted k q (r / 2) (omega (arith, pow-succ' 2 k)),
)
