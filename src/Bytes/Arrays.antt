-- ===== src/Bytes/Arrays.antt =====
-- Arrays of words as bytes: sizes, ranges, and the bytes of what was stored.
use native.Mathlib.Nat.{mul-le-mul_left}
use hdu_riscv_lab.Prelude.{
  ℕ, zero, suc, ◌+◌, ◌*◌, ◌^◌, ◌≡◌, refl, ap, arith, List, [], ◌∷◌, ◌++◌, length, length-append,
  length-drop, length-take, take, drop, take-append-drop, get_or, ◌<◌, ◌≤◌, ◌⊎◌, inl, inr, ◌==◌,
  if◌then◌else◌,
}
use hdu_riscv_lab.Bytes.{to_bytes, of_bytes, array_bytes, array_of, slice, splice, AllBelow}
use hdu_riscv_lab.Bytes.Laws.{
  length-to_bytes, to_bytes-AllBelow, to_bytes-of_bytes_at, of_bytes-lt_within, AllBelow-append,
  AllBelow-take, AllBelow-drop, drop-drop, take-append_self, drop-append_self, of_bytes-to_bytes,
  slice-splice, slice-splice_apart,
}

pub length-array_bytes : (n : ℕ) (ws : List ℕ) → length (array_bytes n ws) ≡ n * length ws
length-array_bytes n [] = omega arith
length-array_bytes n (w ∷ ws) = omega (
  arith,
  length-append (to_bytes n w) (array_bytes n ws),
  length-to_bytes n w,
  length-array_bytes n ws,
)

pub length-array_of : (n count : ℕ) (bs : List ℕ) → length (array_of n count bs) ≡ count
length-array_of n zero bs = refl
length-array_of n (suc count) bs = ap suc (length-array_of n count (drop n bs))

-- Bytes stored into an array of words are the bytes of that array.
pub array_bytes-array_of :
    (n count : ℕ) (bs : List ℕ)
    → length bs ≡ n * count
    → AllBelow 256 bs
    → array_bytes n (array_of n count bs) ≡ bs
array_bytes-array_of n zero [] e h = refl
array_bytes-array_of n zero (b ∷ bs) e h = absurd (omega arith)
array_bytes-array_of n (suc count) bs e h =
    rw
      (
        to_bytes-of_bytes_at n (take n bs) (omega (arith, length-take n bs))
            (AllBelow-take 256 n bs h),
        array_bytes-array_of n count (drop n bs) (omega (arith, length-drop n bs))
            (AllBelow-drop 256 n bs h),
      )
      (take-append-drop n bs)

pub array_bytes-AllBelow : (n : ℕ) (ws : List ℕ) → AllBelow 256 (array_bytes n ws)
array_bytes-AllBelow n [] = tt
array_bytes-AllBelow n (w ∷ ws) =
    AllBelow-append 256 (to_bytes n w) (array_bytes n ws) (to_bytes-AllBelow n w)
      (array_bytes-AllBelow n ws)

pub array_of-AllBelow :
    (n count : ℕ) (bs : List ℕ) → AllBelow 256 bs → AllBelow (256 ^ n) (array_of n count bs)
array_of-AllBelow n zero bs h = tt
array_of-AllBelow n (suc count) bs h = (
  of_bytes-lt_within n (take n bs) (omega (arith, length-take n bs)) (AllBelow-take 256 n bs h),
  array_of-AllBelow n count (drop n bs) (AllBelow-drop 256 n bs h),
)

-- Word `i` of an array stored as bytes is made of the bytes at `n * i`.
pub get_or-array_of :
    (n count : ℕ) (bs : List ℕ) (i : ℕ)
    → i < count
    → get_or (array_of n count bs) i 0 ≡ of_bytes (slice (n * i) n bs)
get_or-array_of n zero bs i h = absurd (omega arith)
get_or-array_of n (suc count) bs zero h = let start : n * 0 ≡ 0 = omega arith in rw start
get_or-array_of n (suc count) bs (suc i) h =
    let shift : n * suc i ≡ n + n * i = omega arith in
    rw (shift, drop-drop n (n * i) bs) (get_or-array_of n count (drop n bs) i (omega arith))

take-append_self_at : (n : ℕ) (xs ys : List ℕ) → length xs ≡ n → take n (xs ++ ys) ≡ xs
take-append_self_at n xs ys e = rw (← e) (take-append_self xs ys)

drop-append_self_at : (n : ℕ) (xs ys : List ℕ) → length xs ≡ n → drop n (xs ++ ys) ≡ ys
drop-append_self_at n xs ys e = rw (← e) (drop-append_self xs ys)

pub get_or-array_bytes :
    (n : ℕ) (ws : List ℕ) (i : ℕ)
    → i < length ws
    → AllBelow (256 ^ n) ws
    → of_bytes (slice (n * i) n (array_bytes n ws)) ≡ get_or ws i 0
get_or-array_bytes n [] i h b = absurd (omega arith)
get_or-array_bytes n (w ∷ ws) zero h (b, bs) =
    let start : n * 0 ≡ 0 = omega arith in
    rw (start, take-append_self_at n (to_bytes n w) (array_bytes n ws) (length-to_bytes n w))
      (of_bytes-to_bytes n w b)
get_or-array_bytes n (w ∷ ws) (suc i) h (b, bs) =
    let shift : n * suc i ≡ n + n * i = omega arith in
    rw
      (
        shift,
        drop-drop n (n * i) (array_bytes n (w ∷ ws)),
        drop-append_self_at n (to_bytes n w) (array_bytes n ws) (length-to_bytes n w),
      )
      (get_or-array_bytes n ws i (omega arith) bs)

-- Storing one word of an array sets that word and keeps the others.
pub get_or-array_of-splice :
    (n count : ℕ) (new ws : List ℕ) (i j : ℕ)
    → length new ≡ n
    → length ws ≡ count
    → AllBelow (256 ^ n) ws
    → i < count
    → j < count
    → get_or (array_of n count (splice (n * i) new (array_bytes n ws))) j 0
      ≡ (if j == i then of_bytes new else get_or ws j 0)
get_or-array_of-splice n count new ws i j e l b hi hj =
    rw (get_or-array_of n count (splice (n * i) new (array_bytes n ws)) j hj) (elim (order j i) [
      | inl (inl before) ↦
          rw
            (
              slice-splice_apart (n * i) new (array_bytes n ws) (n * j) n room
                  (inl (ends j i before)),
              get_or-array_bytes n ws j (omega arith) b,
            )
            (ground arith)
      | inl (inr behind) ↦
          rw
            (
              slice-splice_apart (n * i) new (array_bytes n ws) (n * j) n room
                  (inr (omega (arith, ends i j behind))),
              get_or-array_bytes n ws j (omega arith) b,
            )
            (ground arith)
      | inr same ↦ rw same (
          ground (
            arith,
            ap (λ (m : ℕ). slice (n * i) m (splice (n * i) new (array_bytes n ws))) e,
            slice-splice (n * i) new (array_bytes n ws) room,
          ))
    ])
  where
    order : (a b : ℕ) → ((a < b) ⊎ (b < a)) ⊎ (a ≡ b)
    order a b = ground arith

    ends : (a b : ℕ) → a < b → n * a + n ≤ n * b
    ends a b h = omega (arith, mul-le-mul_left n h)

    room : n * i + length new ≤ length (array_bytes n ws)
    room = omega (arith, length-array_bytes n ws, ends i count hi, ap (λ (t : ℕ). n * t) l)
