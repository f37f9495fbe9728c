-- ===== src/Bus/Dispatch.antt =====
-- Dispatch: which device an access reaches, and what a write on the bus changes.
use hdu_riscv_lab.Prelude.{
  ℕ, zero, suc, ◌+◌, ◌^◌, ◌≤◌, ◌<◌, ◌≡◌, ◌↔◌, inl, inr, arith, true, List, [], ◌∷◌, get_elem?,
  length, get_elem?-set_self, get_elem?-lt, take, some, ok, Option-cases,
}
use hdu_riscv_lab.Word.{u64_max}
use hdu_riscv_lab.Bus.{Entry, Bus, prev_upper_bound, locate, pa_read, pa_write, dev_addr}
use hdu_riscv_lab.Device.{mem, do_read, do_write}
use hdu_riscv_lab.Mem.{Mem}
use hdu_riscv_lab.Mem
use hdu_riscv_lab.Mem.Laws.{do_read-do_write_self}
use hdu_riscv_lab.Bus.Map.{Apart, prev_upper_bound_range}

-- The entry's range holds the access.
abbrev pub Holds : Entry → ℕ → ℕ → Type 0
Holds e start_addr size = (e.lo ≤ start_addr) × (start_addr + size ≤ e.hi)

-- All ends are 64-bit addresses.
abbrev pub Fits : List Entry → Type 0
Fits [] = Unit {0}
Fits (e ∷ es) = (e.hi < 2 ^ 64) × Fits es

get_elem?-range :
    (n : ℕ) (es : List Entry) (i : ℕ) (e : Entry)
    → Apart n es
    → get_elem? es i ≡ some e
    → (n ≤ e.lo) × (e.lo < e.hi)
get_elem?-range n [] i e a h = cc
get_elem?-range n (x ∷ es) zero e (p, q, a) h = ground arith
get_elem?-range n (x ∷ es) (suc i) e (p, q, a) h = omega (arith, get_elem?-range x.hi es i e a h)

prev_upper_bound-index :
    (start_addr : ℕ) (es : List Entry) (e : Entry)
    → prev_upper_bound start_addr u64_max es ≡ some e
    → (i : ℕ) × (get_elem? es i ≡ some e)
unfolding prev_upper_bound
prev_upper_bound-index start_addr [] e h = cc
prev_upper_bound-index start_addr (x ∷ es) e h =
    elim (Option-cases (prev_upper_bound start_addr u64_max es)) [
      | inl alone ↦ (0, ground arith)
      | inr (f, later) ↦
          let (i, found) = prev_upper_bound-index start_addr es f later in (suc i, ground arith)
    ]

-- The search finds the entry that holds an address.
prev_upper_bound_holds :
    (n start_addr : ℕ) (es : List Entry) (e : Entry) (i : ℕ)
    → Apart n es
    → Fits es
    → get_elem? es i ≡ some e
    → e.lo ≤ start_addr
    → start_addr < e.hi
    → prev_upper_bound start_addr u64_max es ≡ some e
unfolding prev_upper_bound
prev_upper_bound_holds n start_addr [] e i a fits at h g = cc
prev_upper_bound_holds n start_addr (x ∷ es) e zero (p, q, a) (fit, fits) at h g =
    elim (Option-cases (prev_upper_bound start_addr u64_max es)) [
      | inl alone ↦ ground arith
      | inr (f, later) ↦ ground (arith, prev_upper_bound_range x.hi start_addr u64_max es f a later)
    ]
prev_upper_bound_holds n start_addr (x ∷ es) e (suc i) (p, q, a) (fit, fits) at h g = ground (
  arith,
  get_elem?-range x.hi es i e a at,
  prev_upper_bound_holds x.hi start_addr es e i a fits at h g,
)

-- On a map whose ranges are apart, an access of at least one byte that does not wrap is given to an
-- entry exactly when that entry stands in the map and its range holds the access.
pub locate_iff :
    (es : List Entry) (e : Entry) (start_addr size : ℕ)
    → Apart 0 es
    → Fits es
    → 0 < size
    → start_addr + size < 2 ^ 64
    → (locate es start_addr size ≡ some e)
      ↔ ((i : ℕ) × (get_elem? es i ≡ some e) × Holds e start_addr size)
unfolding locate
locate_iff es e start_addr size a fits pos wraps = (forth, back)
  where
    forth :
        locate es start_addr size ≡ some e
        → (i : ℕ) × (get_elem? es i ≡ some e) × Holds e start_addr size
    forth h = elim (Option-cases (prev_upper_bound start_addr u64_max es)) [
      | inl none_there ↦ absurd (ground arith)
      | inr (f, found) ↦
          let same : f ≡ e = ground arith in
          let (i, at) = prev_upper_bound-index start_addr es f found in
          (i, ground arith, (ground arith, ground arith))
    ]

    back :
        (i : ℕ) × (get_elem? es i ≡ some e) × Holds e start_addr size
        → locate es start_addr size ≡ some e
    back (i, at, (low, high)) =
        ground (arith, prev_upper_bound_holds 0 start_addr es e i a fits at low (omega arith))

-- A write that the bus accepts at a memory is read back at the same address.
pub pa_read-pa_write :
    (b b' : Bus) (e : Entry) (m : Mem) (start_addr size : ℕ) (buffer : List ℕ)
    → locate b.devices start_addr size ≡ some e
    → get_elem? b.heap e.dev ≡ some (mem m)
    → size ≤ length buffer
    → pa_write b start_addr size buffer ≡ ok (b', true)
    → pa_read b' start_addr size ≡ ok (some (take size buffer))
unfolding pa_read pa_write do_read do_write
pa_read-pa_write b b' e m start_addr size buffer found at enough w =
    elim (Option-cases (Mem.do_write m (dev_addr e start_addr) size buffer)) [
      | inl refused ↦ absurd (ground arith)
      | inr (m', stored) ↦ ground (
        arith,
        get_elem?-lt b.heap e.dev at,
        get_elem?-set_self b.heap e.dev (mem m'),
        do_read-do_write_self m (dev_addr e start_addr) size buffer enough stored,
      )
    ]
