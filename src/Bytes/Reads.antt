-- ===== src/Bytes/Reads.antt =====
-- The buffers that reads fill: at most as many bytes as asked for, each below 256.
use hdu_riscv_lab.Prelude.{
  ℕ, zero, suc, ◌+◌, ◌-◌, ◌^◌, ◌≤◌, ◌<◌, arith, List, [], ◌∷◌, ◌++◌, length, drop, get_or,
  length-take, length-append,
}
use hdu_riscv_lab.Bytes.{of_bytes, slice, load, store, AllBelow}
use hdu_riscv_lab.Bytes.Laws.{
  AllBelow-append, AllBelow-take, AllBelow-drop, of_bytes-lt_within, length-load,
}

abbrev pub IsRead : ℕ → List ℕ → Type 0
IsRead size bytes = (length bytes ≤ size) × AllBelow 256 bytes

pub []-IsRead : (size : ℕ) → IsRead size []
[]-IsRead size = (omega arith, tt)

load-AllBelow : (f : ℕ → ℕ) (at n : ℕ) → ((i : ℕ) → f i < 256) → AllBelow 256 (load f at n)
load-AllBelow f at zero h = tt
load-AllBelow f at (suc n) h = (h at, load-AllBelow f (suc at) n h)

pub load-IsRead : (f : ℕ → ℕ) (at n : ℕ) → ((i : ℕ) → f i < 256) → IsRead n (load f at n)
load-IsRead f at n h = (omega (arith, length-load f at n), load-AllBelow f at n h)

pub slice-IsRead : (at n : ℕ) (bs : List ℕ) → AllBelow 256 bs → IsRead n (slice at n bs)
slice-IsRead at n bs h =
    (omega (arith, length-take n (drop at bs)), AllBelow-take 256 n _ (AllBelow-drop 256 at bs h))

pub append-IsRead :
    (m n : ℕ) (xs ys : List ℕ) → IsRead m xs → IsRead n ys → IsRead (m + n) (xs ++ ys)
append-IsRead m n xs ys (h, a) (g, b) =
    (omega (arith, length-append xs ys), AllBelow-append 256 xs ys a b)

pub of_bytes-IsRead :
    (size : ℕ) (bytes : List ℕ) → size ≤ 8 → IsRead size bytes → of_bytes bytes < 2 ^ 64
of_bytes-IsRead size bytes fits (h, a) = of_bytes-lt_within 8 bytes (omega arith) a

pub get_or-AllBelow : (n : ℕ) (bs : List ℕ) (i : ℕ) → 0 < n → AllBelow n bs → get_or bs i 0 < n
get_or-AllBelow n [] i pos h = pos
get_or-AllBelow n (b ∷ bs) zero pos (h, hs) = h
get_or-AllBelow n (b ∷ bs) (suc i) pos (h, hs) = get_or-AllBelow n bs i pos hs

pub store-byte :
    (f : ℕ → ℕ) (at : ℕ) (bs : List ℕ)
    → ((i : ℕ) → f i < 256)
    → AllBelow 256 bs
    → (i : ℕ) → store f at bs i < 256
store-byte f at bs h g i = ground (arith, h i, get_or-AllBelow 256 bs (i - at) (omega arith) g)
