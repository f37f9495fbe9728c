-- ===== src/Bytes/Laws.antt =====
-- Laws of byte buffers: round trips of words and arrays, and reads after writes.
use native.Mathlib.Nat.{pow-succ', one-le-pow}
use mathlib.Core.Path.{ap₂}
use hdu_riscv_lab.Prelude.{
  ℕ, zero, suc, ◌+◌, ◌-◌, ◌*◌, ◌/◌, ◌%◌, ◌^◌, ◌≤◌, ◌<◌, ◌≡◌, ◌⊎◌, refl, ap, ◌∙◌, arith, List, [],
  ◌∷◌, ◌++◌, length, length-append, length-drop, length-take, take, drop, get_or, set,
}
use hdu_riscv_lab.Bytes.{to_bytes, of_bytes, slice, splice, load, store, AllBelow}

pub length-to_bytes : (n v : ℕ) → length (to_bytes n v) ≡ n
length-to_bytes zero v = refl
length-to_bytes (suc n) v = ap suc (length-to_bytes n (v / 256))

pub to_bytes-AllBelow : (n v : ℕ) → AllBelow 256 (to_bytes n v)
to_bytes-AllBelow zero v = tt
to_bytes-AllBelow (suc n) v = (omega arith, to_bytes-AllBelow n (v / 256))

pub of_bytes-to_bytes : (n v : ℕ) → v < 256 ^ n → of_bytes (to_bytes n v) ≡ v
of_bytes-to_bytes zero v h = omega arith
of_bytes-to_bytes (suc n) v h =
    omega (arith, of_bytes-to_bytes n (v / 256) (omega (arith, pow-succ' 256 n)))

pub to_bytes-of_bytes : (bs : List ℕ) → AllBelow 256 bs → to_bytes (length bs) (of_bytes bs) ≡ bs
to_bytes-of_bytes [] h = refl
to_bytes-of_bytes (b ∷ bs) (h, hs) =
    let low : (b + 256 * of_bytes bs) % 256 ≡ b = omega arith in
    let high : (b + 256 * of_bytes bs) / 256 ≡ of_bytes bs = omega arith in
    rw (low, high, to_bytes-of_bytes bs hs)

module _ {ℓ} {A : Type ℓ} where
  pub take-append_self : (xs ys : List A) → take (length xs) (xs ++ ys) ≡ xs
  take-append_self [] ys = refl
  take-append_self (x ∷ xs) ys = ap (◌∷◌ x) (take-append_self xs ys)

  pub drop-append_self : (xs ys : List A) → drop (length xs) (xs ++ ys) ≡ ys
  drop-append_self [] ys = refl
  drop-append_self (x ∷ xs) ys = drop-append_self xs ys

pub AllBelow-append :
    (n : ℕ) (xs ys : List ℕ) → AllBelow n xs → AllBelow n ys → AllBelow n (xs ++ ys)
AllBelow-append n [] ys h g = g
AllBelow-append n (x ∷ xs) ys (h, hs) g = (h, AllBelow-append n xs ys hs g)

pub AllBelow-take : (n k : ℕ) (xs : List ℕ) → AllBelow n xs → AllBelow n (take k xs)
AllBelow-take n zero xs h = tt
AllBelow-take n (suc k) [] h = tt
AllBelow-take n (suc k) (x ∷ xs) (h, hs) = (h, AllBelow-take n k xs hs)

pub AllBelow-drop : (n k : ℕ) (xs : List ℕ) → AllBelow n xs → AllBelow n (drop k xs)
AllBelow-drop n zero xs h = h
AllBelow-drop n (suc k) [] h = tt
AllBelow-drop n (suc k) (x ∷ xs) (h, hs) = AllBelow-drop n k xs hs

pub AllBelow-set : (n : ℕ) (xs : List ℕ) (i v : ℕ) → v < n → AllBelow n xs → AllBelow n (set xs i v)
AllBelow-set n [] i v e h = tt
AllBelow-set n (x ∷ xs) zero v e (h, hs) = (e, hs)
AllBelow-set n (x ∷ xs) (suc i) v e (h, hs) = (h, AllBelow-set n xs i v e hs)

pub length-splice :
    (at : ℕ) (new bs : List ℕ) → at + length new ≤ length bs → length (splice at new bs) ≡ length bs
length-splice at new bs h = omega (
  arith,
  length-append (take at bs) (new ++ drop (at + length new) bs),
  length-append new (drop (at + length new) bs),
  length-take at bs,
  length-drop (at + length new) bs,
)

-- What was written is read back.
pub slice-splice :
    (at : ℕ) (new bs : List ℕ)
    → at + length new ≤ length bs
    → slice at (length new) (splice at new bs) ≡ new
slice-splice zero new bs h = take-append_self new _
slice-splice (suc at) new [] h = absurd (omega arith)
slice-splice (suc at) new (b ∷ bs) h =
    let shift : suc at + length new ≡ suc (at + length new) = omega arith in
    rw shift (slice-splice at new bs (omega arith))

pub splice-AllBelow :
    (n at : ℕ) (new bs : List ℕ) → AllBelow n new → AllBelow n bs → AllBelow n (splice at new bs)
splice-AllBelow n at new bs h g =
    AllBelow-append n (take at bs) _ (AllBelow-take n at bs g)
      (AllBelow-append n new _ h (AllBelow-drop n (at + length new) bs g))

pub to_bytes-of_bytes_at :
    (n : ℕ) (bs : List ℕ) → length bs ≡ n → AllBelow 256 bs → to_bytes n (of_bytes bs) ≡ bs
to_bytes-of_bytes_at n bs e h = rw (← e) (to_bytes-of_bytes bs h)

pub of_bytes-lt_within :
    (n : ℕ) (bs : List ℕ) → length bs ≤ n → AllBelow 256 bs → of_bytes bs < 256 ^ n
of_bytes-lt_within zero [] e h = omega arith
of_bytes-lt_within zero (b ∷ bs) e h = absurd (omega arith)
of_bytes-lt_within (suc n) [] e h = omega (arith, one-le-pow (suc n) 256)
of_bytes-lt_within (suc n) (b ∷ bs) e (h, hs) =
    omega (arith, of_bytes-lt_within n bs (omega arith) hs, pow-succ' 256 n)

pub length-load : (f : ℕ → ℕ) (at n : ℕ) → length (load f at n) ≡ n
length-load f at zero = refl
length-load f at (suc n) = ap suc (length-load f (suc at) n)

load-eq_of_get :
    (f : ℕ → ℕ) (at : ℕ) (bs : List ℕ)
    → ((i : ℕ) → i < length bs → f (at + i) ≡ get_or bs i 0)
    → load f at (length bs) ≡ bs
load-eq_of_get f at [] h = refl
load-eq_of_get f at (b ∷ bs) h =
    ap₂ ◌∷◌ (ap f (omega arith) ∙ h 0 (omega arith))
      (load-eq_of_get f (suc at) bs λ i g. ap f (omega arith) ∙ h (suc i) (omega arith))

pub load-store : (f : ℕ → ℕ) (at : ℕ) (bs : List ℕ) → load (store f at bs) at (length bs) ≡ bs
load-store f at bs = load-eq_of_get (store f at bs) at bs λ i h.
    let offset : at + i - at ≡ i = omega arith in
    ground (arith, ap (λ (t : ℕ). get_or bs t 0) offset)

-- A write does not reach what lies wholly before or behind it.
pub load-store_apart :
    (f : ℕ → ℕ) (at : ℕ) (bs : List ℕ) (from n : ℕ)
    → (from + n ≤ at) ⊎ (at + length bs ≤ from)
    → load (store f at bs) from n ≡ load f from n
load-store_apart f at bs from zero apart = refl
load-store_apart f at bs from (suc n) apart =
    ap₂ ◌∷◌ (ground arith) (load-store_apart f at bs (suc from) n (omega arith))

pub drop-drop : (m n : ℕ) (bs : List ℕ) → drop (m + n) bs ≡ drop n (drop m bs)
drop-drop zero n bs = let same : 0 + n ≡ n = omega arith in rw same
drop-drop (suc m) zero [] = let same : suc m + 0 ≡ suc m = omega arith in rw same
drop-drop (suc m) (suc n) [] = let same : suc m + suc n ≡ suc (m + suc n) = omega arith in rw same
drop-drop (suc m) n (b ∷ bs) =
    let same : suc m + n ≡ suc (m + n) = omega arith in rw same (drop-drop m n bs)

splice_zero-apart :
    (new bs : List ℕ) (from : ℕ)
    → length new ≤ length bs
    → length new ≤ from
    → drop from (new ++ drop (length new) bs) ≡ drop from bs
splice_zero-apart [] bs from h g = refl
splice_zero-apart (x ∷ new) [] from h g = absurd (omega arith)
splice_zero-apart (x ∷ new) (b ∷ bs) zero h g = absurd (omega arith)
splice_zero-apart (x ∷ new) (b ∷ bs) (suc from) h g =
    splice_zero-apart new bs from (omega arith) (omega arith)

-- A read that stays clear of the write sees the old bytes.
pub slice-splice_apart :
    (at : ℕ) (new bs : List ℕ) (from n : ℕ)
    → at + length new ≤ length bs
    → (from + n ≤ at) ⊎ (at + length new ≤ from)
    → slice from n (splice at new bs) ≡ slice from n bs
slice-splice_apart at new bs from zero h apart = refl
slice-splice_apart zero new bs from (suc n) h apart =
    let start : 0 + length new ≡ length new = omega arith in
    rw (start, splice_zero-apart new bs from (omega arith) (omega arith))
slice-splice_apart (suc at) new [] from (suc n) h apart = absurd (omega arith)
slice-splice_apart (suc at) new (b ∷ bs) zero (suc n) h apart =
    let shift : suc at + length new ≡ suc (at + length new) = omega arith in
    rw shift (ap (◌∷◌ b) (slice-splice_apart at new bs zero n (omega arith) (omega arith)))
slice-splice_apart (suc at) new (b ∷ bs) (suc from) (suc n) h apart =
    let shift : suc at + length new ≡ suc (at + length new) = omega arith in
    rw shift (slice-splice_apart at new bs from (suc n) (omega arith) (omega arith))
