-- ===== src/Bus/Map.antt =====
-- The device map: `add_dev` keeps the ranges apart, though it looks at two neighbours only.
use hdu_riscv_lab.Prelude.{
  ℕ, ◌+◌, ◌%◌, ◌^◌, ◌≤◌, ◌<◌, ◌≡◌, ◌↔◌, ◌⊎◌, inl, inr, refl, arith, Bool, false, List, [], ◌∷◌,
  some, ok, Option-cases,
}
use hdu_riscv_lab.Word.{add64}
use hdu_riscv_lab.Bus.{Entry, Bus, upper_bound, prev_upper_bound, insert, meets, add_dev}

-- The entries stand in order, none is empty, and each begins where the one before has ended or later.
abbrev pub Apart : ℕ → List Entry → Type 0
Apart n [] = Unit {0}
Apart n (e ∷ es) = (n ≤ e.lo) × (e.lo < e.hi) × Apart e.hi es

-- A range that no entry of the list touches.
abbrev pub IsFree : ℕ → ℕ → List Entry → Type 0
IsFree lo hi [] = Unit {0}
IsFree lo hi (e ∷ es) = ((hi ≤ e.lo) ⊎ (e.hi ≤ lo)) × IsFree lo hi es

pub prev_upper_bound_range :
    (n lo hi : ℕ) (es : List Entry) (f : Entry)
    → Apart n es
    → prev_upper_bound lo hi es ≡ some f
    → (n ≤ f.lo) × (f.lo < f.hi) × (f.lo ≤ lo)
unfolding prev_upper_bound
prev_upper_bound_range n lo hi [] f a e = cc
prev_upper_bound_range n lo hi (x ∷ es) f (a, b, rest) e =
    elim (Option-cases (prev_upper_bound lo hi es)) [
      | inl alone ↦ ground arith
      | inr (g, later) ↦ ground (arith, prev_upper_bound_range x.hi lo hi es g rest later)
    ]

IsFree-behind : (n lo hi : ℕ) (es : List Entry) → Apart n es → hi ≤ n → IsFree lo hi es
IsFree-behind n lo hi [] a h = tt
IsFree-behind n lo hi (x ∷ es) (a, b, rest) h =
    (inl (omega arith), IsFree-behind x.hi lo hi es rest (omega arith))

pub IsFree-of_neighbours :
    (n lo hi : ℕ) (es : List Entry)
    → Apart n es
    → lo < hi
    → meets (upper_bound lo hi es) lo hi ≡ false
    → meets (prev_upper_bound lo hi es) lo hi ≡ false
    → IsFree lo hi es
unfolding upper_bound prev_upper_bound
IsFree-of_neighbours n lo hi [] a p u v = tt
IsFree-of_neighbours n lo hi (x ∷ es) (a, b, rest) p u v =
    elim (Option-cases (prev_upper_bound lo hi es)) [
      | inl alone ↦
          ground (arith, IsFree-of_neighbours x.hi lo hi es rest, IsFree-behind x.hi lo hi es rest)
      | inr (g, later) ↦ ground (
        arith,
        prev_upper_bound_range x.hi lo hi es g rest later,
        IsFree-of_neighbours x.hi lo hi es rest,
        IsFree-behind x.hi lo hi es rest,
      )
    ]

neighbours_of_free :
    (lo hi : ℕ) (es : List Entry)
    → IsFree lo hi es
    → (meets (upper_bound lo hi es) lo hi ≡ false)
      × (meets (prev_upper_bound lo hi es) lo hi ≡ false)
unfolding upper_bound prev_upper_bound
neighbours_of_free lo hi [] f = (refl, refl)
neighbours_of_free lo hi (x ∷ es) (f, rest) = ground (arith, neighbours_of_free lo hi es rest)

module _ (b : Bus) (start_addr length dev : ℕ) (raw_addr : Bool) where
  -- On a map whose ranges are apart, an aligned range that does not wrap is accepted exactly when it
  -- touches no range of the map.
  pub add_dev_iff :
      Apart 0 b.devices
      → 0 < length
      → start_addr + length < 2 ^ 64
      → start_addr % length ≡ 0
      → ((b' : Bus) × (add_dev b start_addr length dev raw_addr ≡ ok (some b')))
        ↔ IsFree start_addr (start_addr + length) b.devices
  unfolding add_dev
  add_dev_iff apart pos wraps aligned = (
    λ found.
        IsFree-of_neighbours 0 start_addr (start_addr + length) b.devices apart (omega arith)
          (ground (arith, no_wrap, found.1)) (ground (arith, no_wrap, found.1)),
    λ free.
        let clear = neighbours_of_free start_addr (start_addr + length) b.devices free in
        (record b { devices = insert new b.devices }, ground (arith, no_wrap, clear)),
  )
    where
      new : Entry
      new = record { lo = start_addr; hi = start_addr + length; dev = dev; raw_addr = raw_addr }

      no_wrap : add64 start_addr length ≡ start_addr + length
      no_wrap = omega arith
