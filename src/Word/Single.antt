-- ===== src/Word/Single.antt =====
-- Single bits of a word: powers of two, and what a shift leaves.
use native.Mathlib.Nat.{
  pow-succ', div-eq_of_lt, div-eq_of_lt-le, one-le-pow, div-add-mod, mod-lt, zero-div,
}
use hdu_riscv_lab.Prelude.{
  ℕ, zero, suc, ◌+◌, ◌-◌, ◌*◌, ◌/◌, ◌^◌, ◌<◌, ◌≤◌, ◌≡◌, ◌≢◌, refl, ap, arith, ltb, leb, ◌==◌,
  if◌then◌else◌, Bool-cases, inl, inr,
}
use hdu_riscv_lab.Word.Bits.{bit, div-pow-suc}

pub pow-le : (k d j : ℕ) → k + d ≡ j → 2 ^ k ≤ 2 ^ j
pow-le k d zero e = rw (is_zero) (omega arith)
  where
    is_zero : k ≡ 0
    is_zero = omega arith
pow-le k zero j e = rw (sum) (omega arith)
  where
    sum : k ≡ j
    sum = omega arith
pow-le k (suc d) (suc j) e = omega (arith, pow-succ' 2 j, pow-le k d j (omega arith))

pub shifted_out : (w k : ℕ) → w < 2 ^ k → w / 2 ^ k ≡ 0
shifted_out w k below = div-eq_of_lt below

-- A word that is not 0 after a shift by `k` has a set bit from `k` on.
pub high_bit : (n w k : ℕ) → w < 2 ^ n → w / 2 ^ k ≢ 0 → (j : ℕ) × (k ≤ j) × (j < n) × (bit j w ≡ 1)
high_bit zero w k below h =
    absurd (h (shifted_out w k (ground (arith, below, pow-le 0 k k (omega arith)))))
high_bit (suc n) w k below h = elim (Bool-cases (ltb w (2 ^ n))) [
  | inl small ↦
      let (j, from, to, on) = high_bit n w k (ground arith) h in (j, from, omega arith, on)
  | inr large ↦ (n, reaches, omega arith, is_one (ground arith))
]
  where
    reaches : k ≤ n
    reaches = elim (Bool-cases (leb k n)) [
      | inl within ↦ ground arith
      | inr without ↦
          let beyond : 2 ^ suc n ≤ 2 ^ k = pow-le (suc n) (k - suc n) k (ground arith) in
          absurd (h (shifted_out w k (omega arith)))
    ]

    is_one : 2 ^ n ≤ w → bit n w ≡ 1
    is_one least =
        let one : w / 2 ^ n ≡ 1 =
          div-eq_of_lt-le (2 ^ n) (omega arith) (omega (arith, pow-succ' 2 n)) in
        rw one refl

-- A set bit is not lost by a shift by less.
pub low_shift : (w k j : ℕ) → k ≤ j → bit j w ≡ 1 → w / 2 ^ k ≢ 0
low_shift w k j le on gone =
    let small : w < 2 ^ k = omega (
      arith,
      one-le-pow k 2,
      div-add-mod w (2 ^ k),
      mod-lt w {m = 2 ^ k} (omega (arith, one-le-pow k 2)),
      ap (λ (t : ℕ). 2 ^ k * t) gone,
    ) in
    let none_left : w / 2 ^ j ≡ 0 =
      shifted_out w j (omega (arith, pow-le k (j - k) j (omega arith))) in
    absurd (omega arith)

pub bit-pow : (k b : ℕ) → bit k (2 ^ b) ≡ (if k == b then 1 else 0)
bit-pow zero zero = refl
bit-pow zero (suc b) = ground (arith, pow-succ' 2 b)
bit-pow (suc k) zero = rw (div-pow-suc 1 k) (ground (arith, zero-div (2 ^ k)))
bit-pow (suc k) (suc b) =
    let half : 2 ^ suc b / 2 ≡ 2 ^ b = omega (arith, pow-succ' 2 b) in
    rw (div-pow-suc (2 ^ suc b) k, half) (ground (arith, bit-pow k b))

pub bit-complement : (n k x : ℕ) → k < n → x < 2 ^ n → bit k (2 ^ n - 1 - x) ≡ 1 - bit k x
bit-complement zero k x h g = absurd (omega arith)
bit-complement (suc n) zero x h g = ground (arith, pow-succ' 2 n)
bit-complement (suc n) (suc k) x h g =
    let half : (2 ^ suc n - 1 - x) / 2 ≡ 2 ^ n - 1 - x / 2 = omega (arith, pow-succ' 2 n) in
    rw (div-pow-suc (2 ^ suc n - 1 - x) k, div-pow-suc x k, half)
      (bit-complement n k (x / 2) (omega arith) (omega (arith, pow-succ' 2 n)))

pub pow-lt : (b n : ℕ) → b < n → 2 ^ b < 2 ^ n
pow-lt b n h =
    omega (arith, pow-succ' 2 b, one-le-pow b 2, pow-le (suc b) (n - suc b) n (omega arith))
