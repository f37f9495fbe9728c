-- ===== src/Sram/Memory.antt =====
-- The crossbar of the simulator (difftest/src/sim_mycpu.cpp): a memory of `size` bytes at 0x80000000 in
-- a range of 0x80000000 bytes. It is a memory for the data channel.
use native.Mathlib.Nat.{div-add-mod, mul-mod_right, mod-lt, one-le-pow}
use hdu_riscv_lab.Prelude.{
  ℕ, zero, suc, ◌+◌, ◌-◌, ◌*◌, ◌/◌, ◌%◌, ◌^◌, ◌<◌, ◌≤◌, ◌≡◌, refl, ap, sym, ◌∙◌, arith, true, false,
  ◌&&◌, ltb, leb, if◌then◌else◌, List, [], ◌∷◌, ◌++◌, length, get_elem?, set, drop, length-take,
  length-drop, Bool-cases, inl, inr, some, ok,
}
use hdu_riscv_lab.Word.{add64, sub64}
use hdu_riscv_lab.Word.Bits.{bit_and-mask}
use hdu_riscv_lab.Bytes.{slice, load, store}
use hdu_riscv_lab.Bytes.Laws.{length-load}
use hdu_riscv_lab.Mem.{Mem, write_at}
use hdu_riscv_lab.Mem
use hdu_riscv_lab.Device.{Device, mem, clint}
use hdu_riscv_lab.Device
use hdu_riscv_lab.Sram.Xbar.{
  Range, Xbar, xbar, do_read, do_write, located, prev_upper_bound, given, read_size, read_addr,
}
use hdu_riscv_lab.Sram.Channel.{IsMemory}

abbrev pub base : ℕ
base = 0x80000000

abbrev pub ram : Range
ram = record { lo = base; hi = 0x100000000; byte_mode = false; dev = 0 }

abbrev pub with_memory : Mem → Xbar
with_memory m = record { devices = ram ∷ []; heap = mem m ∷ [] }

-- The byte at an address of the range.
abbrev pub byte_at : Xbar → ℕ → ℕ
byte_at x i = elim x.heap [
  | mem m ∷ rest ↦ if leb base i && ltb i 0x100000000 then m.mem (i - base) else 0
  | clint n c ∷ rest ↦ 0
  | [] ↦ 0
]

located-ram : (m : Mem) (a : ℕ) → base ≤ a → located (with_memory m) a ≡ some ram
unfolding prev_upper_bound
located-ram m a h = ground arith

drop-all : (bs : List ℕ) (n : ℕ) → length bs ≡ n → drop n bs ≡ []
drop-all [] zero e = refl
drop-all [] (suc n) e = refl
drop-all (b ∷ bs) zero e = absurd (omega arith)
drop-all (b ∷ bs) (suc n) e = drop-all bs n (omega arith)

append-nil : (bs : List ℕ) → bs ++ [] ≡ bs
append-nil [] = refl
append-nil (b ∷ bs) = ap (λ t. b ∷ t) (append-nil bs)

given_all :
    (bytes buffer : List ℕ) → length buffer ≡ length bytes → given 0 buffer (some bytes) ≡ ok bytes
given_all bytes buffer e =
    let fits : leb (0 + length bytes) (length buffer) ≡ true = ground arith in
    let whole : drop (0 + length bytes) buffer ≡ [] =
      drop-all buffer (0 + length bytes) (omega arith) in
    rw (fits, whole, append-nil bytes) refl

-- The bytes of the memory, read by their address on the bus.
load-byte_at :
    (m : Mem) (at n : ℕ)
    → base ≤ at
    → at + n ≤ 0x100000000
    → load m.mem (at - base) n ≡ load (byte_at (with_memory m)) at n
load-byte_at m at zero low high = refl
load-byte_at m at (suc n) low high =
    let inside : (leb base at && ltb at 0x100000000) ≡ true = ground arith in
    let next : suc (at - base) ≡ suc at - base = omega arith in
    rw (inside, next, load-byte_at m (suc at) n (omega arith) (omega arith)) refl

-- An aligned block lies in the range with its first byte.
pub aligned : (a n : ℕ) → (a - a % n) % n ≡ 0
aligned a n =
    let quotient : a - a % n ≡ n * (a / n) = omega (arith, div-add-mod a n) in
    rw quotient (mul-mod_right n (a / n))

pub do_read_hit :
    (x : Xbar) (a size : ℕ) (buffer : List ℕ) (e : Range) (d : Device)
    → located x a ≡ some e
    → (leb e.lo a && leb (add64 a 1) e.hi) ≡ true
    → get_elem? x.heap e.dev ≡ some d
    → do_read x a size buffer
      ≡ given
          (read_addr e a size % read_size e size)
          buffer
          (Device.do_read d (read_addr e a size % sub64 e.hi e.lo) (read_size e size))
unfolding do_read
do_read_hit x a size buffer e d found inside there = rw (do_read, found, inside, there) refl

pub do_read_ram :
    (m : Mem) (a k : ℕ) (buffer : List ℕ)
    → m.mem_size ≤ base
    → base ≤ a - a % 2 ^ k
    → a - a % 2 ^ k + 2 ^ k ≤ base + m.mem_size
    → length buffer ≡ 2 ^ k
    → do_read (with_memory m) a (2 ^ k) buffer
      ≡ ok (load (byte_at (with_memory m)) (a - a % 2 ^ k) (2 ^ k))
unfolding Device.do_read Mem.do_read
do_read_ram m a k buffer small low high e =
    let at = a - a % 2 ^ k in
    let rest : a % 2 ^ k < 2 ^ k = mod-lt a (one-le-pow k 2 (omega arith)) in
    let inside : (leb base a && leb (add64 a 1) 0x100000000) ≡ true = ground arith in
    let offset : at % 0x80000000 ≡ at - base = omega arith in
    let fits : leb (add64 (at - base) (2 ^ k)) m.mem_size ≡ true = ground arith in
    do_read_hit (with_memory m) a (2 ^ k) buffer ram (mem m) (located-ram m a (omega arith)) inside
      refl
    ∙ rw (bit_and-mask k a, aligned a (2 ^ k), offset, fits)
        (given_all (load m.mem (at - base) (2 ^ k)) buffer
            (e ∙ sym (length-load m.mem (at - base) (2 ^ k)))
          ∙ ap ok (load-byte_at m at (2 ^ k) low (omega arith)))

do_write_hit :
    (x : Xbar) (a size : ℕ) (buffer : List ℕ) (at : ℕ) (e : Range) (d d' : Device)
    → located x a ≡ some e
    → (leb e.lo a && leb (add64 a size) e.hi) ≡ true
    → get_elem? x.heap e.dev ≡ some d
    → Device.do_write d (a % sub64 e.hi e.lo) size (drop at buffer) ≡ some d'
    → do_write x a size buffer at ≡ ok (record x { heap = set x.heap e.dev d' }, buffer)
unfolding do_write
do_write_hit x a size buffer at e d d' found inside there stored =
    rw (do_write, found, inside, there, stored) refl

-- The bytes of the range after a store.
byte_at-store :
    (m m' : Mem) (a : ℕ) (bs : List ℕ)
    → base ≤ a
    → a + length bs ≤ 0x100000000
    → ((i : ℕ) → m'.mem i ≡ store m.mem (a - base) bs i)
    → (i : ℕ) → byte_at (with_memory m') i ≡ store (byte_at (with_memory m)) a bs i
byte_at-store m m' a bs low high e i = elim (Bool-cases (leb base i && ltb i 0x100000000)) [
  | inl inside ↦
      let place : i - base - (a - base) ≡ i - a = omega arith in
      rw inside (e (i - base) ∙ rw place (ground arith))
  | inr outside ↦ rw outside (ground arith)
]

pub do_write_ram :
    (m : Mem) (a size : ℕ) (wdata : List ℕ) (at : ℕ)
    → m.mem_size ≤ base
    → 0 < size
    → base ≤ a
    → a + size ≤ base + m.mem_size
    → at + size ≤ length wdata
    → (m' : Mem) × (do_write (with_memory m) a size wdata at ≡ ok (with_memory m', wdata))
      × (m'.mem_size ≡ m.mem_size)
      × ((i : ℕ)
          → byte_at (with_memory m') i ≡ store (byte_at (with_memory m)) a (slice at size wdata) i)
unfolding Device.do_write Mem.do_write write_at
do_write_ram m a size wdata at small pos low high enough =
    let m' = write_at m (a - base) size (drop at wdata) in
    let inside : (leb base a && leb (add64 a size) 0x100000000) ≡ true = ground arith in
    let offset : a % 0x80000000 ≡ a - base = omega arith in
    let fits : leb (add64 (a - base) size) m.mem_size ≡ true = ground arith in
    let size_of : length (slice at size wdata) ≡ size =
      omega (arith, length-take size (drop at wdata), length-drop at wdata) in
    (
      m',
      do_write_hit (with_memory m) a size wdata at ram (mem m) (mem m') (located-ram m a low) inside
          refl (rw (offset, Device.do_write, Mem.do_write, fits) refl),
      refl,
      byte_at-store m m' a (slice at size wdata) low (omega arith) (λ i. refl),
    )

-- The simulator's crossbar keeps the promise of `IsMemory` for a memory of `size` bytes.
abbrev pub memory_of : (size : ℕ) → size ≤ base → IsMemory Xbar xbar base (base + size)
memory_of size small = record {
  view = byte_at;
  IsGood = λ x. (m : Mem) × (x ≡ with_memory m) × (m.mem_size ≡ size);
  reads = λ x a k buffer (m, same, sized) low high e.
      rw same (do_read_ram m a k buffer (omega arith) low (omega arith) e);
  writes = λ x a n wdata at (m, same, sized) pos low high e. rw same (
      let (m', wrote, kept, stored) =
        do_write_ram m a n wdata at (omega arith) pos low (omega arith) e in
      (with_memory m', wrote, (m', refl, omega arith), stored));
}
