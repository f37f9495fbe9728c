-- ===== src/Bytes.antt =====
-- Buffers of bytes: `memcpy` to and from words on a little-endian machine.
pub mod Laws
pub mod Arrays
pub mod Reads
use hdu_riscv_lab.Prelude.{
  ℕ, zero, suc, ◌+◌, ◌-◌, ◌*◌, ◌/◌, ◌%◌, ◌<◌, Bool, ◌&&◌, ltb, leb, if◌then◌else◌, List, [], ◌∷◌,
  ◌++◌, length, take, drop, get_or,
}

-- The bytes of a word, lowest first, and the word that bytes make.
abbrev pub to_bytes : ℕ → ℕ → List ℕ
to_bytes zero v = []
to_bytes (suc n) v = v % 256 ∷ to_bytes n (v / 256)

abbrev pub of_bytes : List ℕ → ℕ
of_bytes [] = 0
of_bytes (b ∷ bs) = b + 256 * of_bytes bs

-- An array of words of `n` bytes, as bytes and back; `count` words are read.
abbrev pub array_bytes : ℕ → List ℕ → List ℕ
array_bytes n [] = []
array_bytes n (w ∷ ws) = to_bytes n w ++ array_bytes n ws

abbrev pub array_of : ℕ → ℕ → List ℕ → List ℕ
array_of n zero bs = []
array_of n (suc count) bs = of_bytes (take n bs) ∷ array_of n count (drop n bs)

-- `memcpy(dst, src + at, size)`, and `memcpy(dst + at, src, size)` with the whole of `src`.
abbrev pub slice : ℕ → ℕ → List ℕ → List ℕ
slice at size bs = take size (drop at bs)

abbrev pub splice : ℕ → List ℕ → List ℕ → List ℕ
splice at new bs = take at bs ++ (new ++ drop (at + length new) bs)

-- The same on a memory that is a function of the address.
abbrev pub load : (ℕ → ℕ) → ℕ → ℕ → List ℕ
load f at zero = []
load f at (suc n) = f at ∷ load f (suc at) n

abbrev pub store : (ℕ → ℕ) → ℕ → List ℕ → ℕ → ℕ
store f at bs i = if leb at i && ltb i (at + length bs) then get_or bs (i - at) 0 else f i

-- Every entry is below `n`.
abbrev pub AllBelow : ℕ → List ℕ → Type 0
AllBelow n [] = Unit {0}
AllBelow n (x ∷ xs) = (x < n) × AllBelow n xs
