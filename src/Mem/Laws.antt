-- ===== src/Mem/Laws.antt =====
-- Accesses to a memory: read-back, frames, bounds, comparison with the other memory, files.
use native.Mathlib.Nat.{mod-le}
use hdu_riscv_lab.Prelude.{
  ℕ, zero, suc, ◌+◌, ◌%◌, ◌^◌, ◌≤◌, ◌<◌, ◌≡◌, ◌⊎◌, ◌↔◌, refl, ap, arith, true, leb, if◌then◌else◌,
  List, [], ◌∷◌, length, length-take, take, none, some,
}
use hdu_riscv_lab.Word.{add64}
use hdu_riscv_lab.Bytes.Laws.{load-store}
use hdu_riscv_lab.Mem.{Mem, do_read, do_write, write_at, agrees, load_binary}

take_all : (xs : List ℕ) → take (length xs) xs ≡ xs
take_all [] = refl
take_all (x ∷ xs) = ap (◌∷◌ x) (take_all xs)

module _ (m : Mem) (start_addr size : ℕ) (buffer : List ℕ) where
  -- An access that does not wrap is accepted exactly where it ends in the memory, if need be after
  -- the address was reduced; reads and writes agree on that.
  pub do_write-do_read_iff :
      (do_read m start_addr size ≡ none) ↔ (do_write m start_addr size buffer ≡ none)
  unfolding do_read do_write
  do_write-do_read_iff = ground arith

  -- What an accepted write stored is what a read at the same address gives.
  pub do_read-do_write_self :
      size ≤ length buffer
      → {m' : Mem} → do_write m start_addr size buffer ≡ some m'
      → do_read m' start_addr size ≡ some (take size buffer)
  unfolding do_read do_write write_at
  do_read-do_write_self enough e = ground (
    arith,
    length-take size buffer,
    load-store m.mem start_addr (take size buffer),
    load-store m.mem (start_addr % m.mem_size) (take size buffer),
  )

  -- The cell that an address without wrap-around refers to.
  abbrev pub at : ℕ
  at = if leb (add64 start_addr size) m.mem_size then start_addr else start_addr % m.mem_size

  -- An accepted write whose range does not wrap stays inside the memory, keeps its size, and changes
  -- the bytes of its own range only.
  pub do_write_frame :
      start_addr + size < 2 ^ 64
      → {m' : Mem} → do_write m start_addr size buffer ≡ some m'
      → (at + size ≤ m.mem_size)
        × (m'.mem_size ≡ m.mem_size)
        × ((i : ℕ) → (i < at) ⊎ (at + size ≤ i) → m'.mem i ≡ m.mem i)
  unfolding do_write write_at
  do_write_frame wraps e = (
    ground (arith, mod-le start_addr m.mem_size),
    ground arith,
    λ i apart. ground (arith, length-take size buffer, mod-le start_addr m.mem_size),
  )

-- An accepted write whose range does not wrap stays inside the memory and keeps its size; a read at
-- the same address gives what was stored, and the bytes outside the range are not changed.
pub do_write-do_read :
    (m m' : Mem) (start_addr size : ℕ) (buffer : List ℕ)
    → size ≤ length buffer
    → start_addr + size < 2 ^ 64
    → do_write m start_addr size buffer ≡ some m'
    → (do_read m' start_addr size ≡ some (take size buffer))
      × (at m start_addr size buffer + size ≤ m.mem_size)
      × (m'.mem_size ≡ m.mem_size)
      × ((i : ℕ)
          → (i < at m start_addr size buffer) ⊎ (at m start_addr size buffer + size ≤ i)
          → m'.mem i ≡ m.mem i)
do_write-do_read m m' start_addr size buffer enough wraps e =
    let (inside, same_size, frame) = do_write_frame m start_addr size buffer wraps e in
    (do_read-do_write_self m start_addr size buffer enough e, inside, same_size, frame)

equal_of_agrees :
    (f g : ℕ → ℕ) (at n : ℕ) → agrees f g at n ≡ true → (i : ℕ) → i < n → f (at + i) ≡ g (at + i)
unfolding agrees
equal_of_agrees f g at zero h i below = absurd (omega arith)
equal_of_agrees f g at (suc n) h zero below =
    let start : at + 0 ≡ at = omega arith in rw start (ground arith)
equal_of_agrees f g at (suc n) h (suc i) below =
    let shift : at + suc i ≡ suc at + i = omega arith in
    rw shift (equal_of_agrees f g (suc at) n (ground arith) i (omega arith))

agrees_of_equal :
    (f g : ℕ → ℕ) (at n : ℕ) → ((i : ℕ) → i < n → f (at + i) ≡ g (at + i)) → agrees f g at n ≡ true
unfolding agrees
agrees_of_equal f g at zero h = refl
agrees_of_equal f g at (suc n) h =
    let start : at + 0 ≡ at = omega arith in
    let first : f at ≡ g at = rw start at (h 0 (omega arith)) in
    let rest : agrees f g (suc at) n ≡ true = agrees_of_equal f g (suc at) n λ i below.
      let shift : suc at + i ≡ at + suc i = omega arith in rw shift (h (suc i) (omega arith)) in
    ground arith

-- With the comparison on, an accepted write keeps the simulation running exactly when the bytes of its
-- range are then those of the other memory.
pub do_write-running_iff :
    (m m' : Mem) (start_addr size : ℕ) (buffer : List ℕ)
    → m.running ≡ true
    → m.diff_mem_write ≡ true
    → do_write m start_addr size buffer ≡ some m'
    → (m'.running ≡ true) ↔ (
        (i : ℕ)
        → i < size
        → m'.mem (at m start_addr size buffer + i) ≡ m.diff_mem (at m start_addr size buffer + i))
unfolding do_write write_at
do_write-running_iff m m' start_addr size buffer run on e = (
  λ h. equal_of_agrees m'.mem m.diff_mem (at m start_addr size buffer) size (ground arith),
  λ h.
      let agreed = agrees_of_equal m'.mem m.diff_mem (at m start_addr size buffer) size h in
      ground arith,
)

-- A file that fits is found behind `start_addr`, byte by byte.
pub do_read-load_binary :
    (m : Mem) (start_addr : ℕ) (file : List ℕ)
    → start_addr < m.mem_size
    → start_addr + length file ≤ m.mem_size
    → m.mem_size < 2 ^ 64
    → do_read (load_binary m start_addr file) start_addr (length file) ≡ some file
unfolding do_read load_binary
do_read-load_binary m start_addr file inside fits limit =
    ground (arith, take_all file, load-store m.mem start_addr file)
