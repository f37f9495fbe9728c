-- ===== src/Sram/Misses.antt =====
-- Where the crossbar of difftest/src/nscscc_sram_xbar.hpp puts what it reads, and what a write to an
-- address of no device does to the pin that it only should read.
use hdu_riscv_lab.Prelude.{
  ℕ, ◌+◌, ◌%◌, ◌^◌, ◌≤◌, ◌≡◌, ◌≢◌, ◌↔◌, bit_and, ap, sym, refl, ◌∙◌, arith, true, false, ◌&&◌, leb,
  ◌==◌, List, [], ◌∷◌, length, get_elem?, none, some, ok, faults, Bool, Bool-cases, inl, inr, ◌>>=◌,
  zero, suc, ◌<◌, ◌-◌, ◌||◌, not, if◌then◌else◌,
}
use native.Mathlib.Nat.{mod-one}
use hdu_riscv_lab.Word.{add64, sub64, has_bit}
use hdu_riscv_lab.Word.Bits.{bit_and-mask, bit_and-le}
use hdu_riscv_lab.Bytes.{to_bytes, splice}
use hdu_riscv_lab.Bytes.Laws.{length-to_bytes, length-splice}
use hdu_riscv_lab.Device.{Device}
use hdu_riscv_lab.Device
use hdu_riscv_lab.Sram.{Pins}
use hdu_riscv_lab.Sram.Slave.{
  Beat, write_ranges, data_writes, data_channel, strb_to_range, ranges, run_end, data_base,
}
use hdu_riscv_lab.Sram.Xbar.{
  Range, Xbar, xbar, do_read, do_write, located, prev_upper_bound, given, marked, read_addr,
  read_size,
}
use hdu_riscv_lab.Sram.Memory.{base, with_memory, do_read_hit, aligned}
use hdu_riscv_lab.Sram.Runs.{IsApart, strb_to_range-IsRuns}
use hdu_riscv_lab.Mem.{Mem}

offset_zero : (e : Range) (a k : ℕ) → read_addr e a (2 ^ k) % read_size e (2 ^ k) ≡ 0
offset_zero e a k = elim (Bool-cases e.byte_mode) [
  | inl bytes ↦ rw bytes (mod-one a)
  | inr words ↦ rw (words, bit_and-mask k a) (aligned a (2 ^ k))
]

-- A read of `2 ^ k` bytes that finds a device puts what the device gives at the begin of the buffer; so
-- it does for a device of bytes, whose byte at the address `a` belongs to byte `a % 2 ^ k` of the buffer.
pub do_read_lane :
    (x : Xbar) (a k : ℕ) (buffer : List ℕ) (e : Range) (d : Device)
    → located x a ≡ some e
    → (leb e.lo a && leb (add64 a 1) e.hi) ≡ true
    → get_elem? x.heap e.dev ≡ some d
    → do_read x a (2 ^ k) buffer
      ≡ given 0 buffer
          (Device.do_read d (read_addr e a (2 ^ k) % sub64 e.hi e.lo) (read_size e (2 ^ k)))
do_read_lane x a k buffer e d found inside there =
    do_read_hit x a (2 ^ k) buffer e d found inside there ∙ rw (offset_zero e a k) refl

located_below : (m : Mem) (a : ℕ) → a < base → located (with_memory m) a ≡ none
unfolding prev_upper_bound
located_below m a below = ground arith

-- An access below the memory finds no device.
do_write_missed :
    (m : Mem) (a size : ℕ) (buffer : List ℕ) (at : ℕ)
    → a < base
    → do_write (with_memory m) a size buffer at
      ≡ (marked at buffer >>= λ buffer'. ok (with_memory m, buffer'))
unfolding do_write
do_write_missed m a size buffer at below = rw (do_write, located_below m a below) refl

do_read_missed :
    (m : Mem) (a size : ℕ) (buffer : List ℕ)
    → a < base
    → do_read (with_memory m) a size buffer ≡ marked 0 buffer
unfolding do_read
do_read_missed m a size buffer below = rw (do_read, located_below m a below) refl

-- Whether a range starts at byte 5 or behind.
abbrev late : List (ℕ × ℕ) → Bool
late [] = false
late ((addr, len) ∷ rest) = leb 5 addr || late rest

write_ranges_missed :
    (m : Mem) (at l : ℕ) (wdata : List ℕ) (rs : List (ℕ × ℕ))
    → at + 8 ≤ base
    → length wdata ≡ 8
    → IsApart l rs
    → (late rs ≡ true → write_ranges xbar (with_memory m) at wdata rs ≡ faults)
      × (late rs ≡ false
          → (wdata' : List ℕ) × (write_ranges xbar (with_memory m) at wdata rs
              ≡ ok (with_memory m, wdata')))
unfolding write_ranges
write_ranges_missed m at l wdata [] low full apart = (λ e. cc, λ e. (wdata, refl))
write_ranges_missed m at l wdata ((addr, len) ∷ rest) low full (after, pos, inside, more) =
    rw (write_ranges, do_write_missed m (at + addr) len wdata addr (omega arith))
      (elim (Bool-cases (leb 5 addr)) [
        | inl far ↦
            let past : leb (addr + 4) (length wdata) ≡ false = ground arith in
            rw (far, past) (λ e. refl, λ e. cc)
        | inr near ↦
            let fits : leb (addr + 4) (length wdata) ≡ true = ground arith in
            let room : addr + 4 ≤ length wdata = ground arith in
            rw (near, fits)
              (write_ranges_missed m at (suc (addr + len))
                (splice addr (to_bytes 4 0xdec0dee3) wdata) rest low
                (length-splice addr (to_bytes 4 0xdec0dee3) wdata room ∙ full) more)
      ])

-- Whether a run of set bits starts at bit 5, 6 or 7, as a test, which a table of all strobes compares
-- with `late`.
abbrev late_start : ℕ → Bool
late_start wen =
    (has_bit wen 5 && not (has_bit wen 4))
    || (has_bit wen 6 && not (has_bit wen 5))
    || (has_bit wen 7 && not (has_bit wen 6))

abbrev all_below : ℕ → (ℕ → Bool) → Bool
all_below zero p = true
all_below (suc n) p = p n && all_below n p

all_below-at : (n i : ℕ) (p : ℕ → Bool) → all_below n p ≡ true → i < n → p i ≡ true
all_below-at zero i p all less = absurd (omega arith)
all_below-at (suc n) i p all less = elim (Bool-cases (i == n)) [
  | inl last ↦ let same : i ≡ n = ground arith in rw same (ground arith)
  | inr earlier ↦ all_below-at n i p (ground arith) (ground arith)
]

abbrev row_agrees : ℕ → Bool
row_agrees wen = if late (strb_to_range wen) then late_start wen else not (late_start wen)

table : all_below 256 row_agrees ≡ true
unfolding strb_to_range ranges run_end
table = refl

late-late_start : (wen : ℕ) → wen < 2 ^ 8 → late (strb_to_range wen) ≡ late_start wen
late-late_start wen small =
    let same : row_agrees wen ≡ true = all_below-at 256 wen row_agrees table small in
    elim (Bool-cases (late (strb_to_range wen))) [
      | inl far ↦ ground arith
      | inr near ↦ ground arith
    ]

-- A run of set bits of the strobe starts at bit 5, 6 or 7.
abbrev pub LateStart : ℕ → Type 0
LateStart wen = (k : ℕ) × (5 ≤ k) × (k < 8) × (has_bit wen k ≡ true) × (has_bit wen (k - 1) ≡ false)

late_start-LateStart : (wen : ℕ) → late_start wen ≡ true → LateStart wen
late_start-LateStart wen h = elim (Bool-cases (has_bit wen 5 && not (has_bit wen 4))) [
  | inl five ↦ (5, omega arith, omega arith, ground arith, ground arith)
  | inr other ↦ elim (Bool-cases (has_bit wen 6 && not (has_bit wen 5))) [
    | inl six ↦ (6, omega arith, omega arith, ground arith, ground arith)
    | inr seventh ↦ (7, omega arith, omega arith, ground arith, ground arith)
  ]
]

LateStart-late_start : (wen : ℕ) → LateStart wen → late_start wen ≡ true
LateStart-late_start wen (k, low, high, on, off) = elim (Bool-cases (k == 5)) [
  | inl five ↦
      let same : k ≡ 5 = ground arith in
      let b = ap (has_bit wen) (sym same) ∙ on in
      let c = ap (λ t. has_bit wen (t - 1)) (sym same) ∙ off in ground arith
  | inr other ↦ elim (Bool-cases (k == 6)) [
    | inl six ↦
        let same : k ≡ 6 = ground arith in
        let b = ap (has_bit wen) (sym same) ∙ on in
        let c = ap (λ t. has_bit wen (t - 1)) (sym same) ∙ off in ground arith
    | inr seventh ↦
        let same : k ≡ 7 = ground arith in
        let b = ap (has_bit wen) (sym same) ∙ on in
        let c = ap (λ t. has_bit wen (t - 1)) (sym same) ∙ off in ground arith
  ]
]

data_writes-write_ranges :
    (x : Xbar) (address_mask : ℕ) (pin : Pins)
    → data_writes xbar address_mask x pin
      ≡ write_ranges xbar x
          (data_base address_mask pin)
          (to_bytes 8 pin.data_sram_wdata)
          (strb_to_range pin.data_sram_wen)
unfolding data_writes
data_writes-write_ranges x address_mask pin = elim (Bool-cases (pin.data_sram_wen == 0)) [
  | inr some_set ↦ rw some_set refl
  | inl none_set ↦
      let zero_strobe : pin.data_sram_wen ≡ 0 = ground arith in
      unfold write_ranges in unfold strb_to_range in unfold ranges in rw zero_strobe refl
]

-- What the program's crossbar, which has the memory and nothing else, makes of a request for a block below
-- the memory: it is undefined exactly if a run of the strobe starts at byte 5 or behind, where
-- the 4 bytes of the mark go past the end of the data pin.
pub data_channel_missed :
    (m : Mem) (address_mask : ℕ) (b : Beat Xbar)
    → b.slave ≡ with_memory m
    → b.pins.data_sram_en ≢ 0
    → b.pins.data_sram_wen < 2 ^ 8
    → bit_and b.pins.data_sram_addr address_mask + 8 ≤ base
    → (data_channel xbar address_mask b ≡ faults) ↔ LateStart b.pins.data_sram_wen
unfolding data_channel
data_channel_missed m address_mask b same on byte below =
    let pin = b.pins in
    let wen = pin.data_sram_wen in
    let at = bit_and pin.data_sram_addr address_mask in
    let block = bit_and-le 31 at 0xfffffff8 (omega arith) in
    let enabled : (pin.data_sram_en == 0) ≡ false = ground arith in
    let writes =
      ap (λ x. data_writes xbar address_mask x pin) same
      ∙ data_writes-write_ranges (with_memory m) address_mask pin in
    let (undefined, defined) =
      write_ranges_missed m (data_base address_mask pin) 0 (to_bytes 8 pin.data_sram_wdata)
        (strb_to_range wen) (omega (arith, block)) (length-to_bytes 8 pin.data_sram_wdata)
        (strb_to_range-IsRuns wen).0.0 in
    let reads = do_read_missed m at 8 (to_bytes 8 pin.data_sram_rdata) (omega arith) in
    elim (Bool-cases (late (strb_to_range wen))) [
      | inl far ↦ (
        λ e. late_start-LateStart wen (sym (late-late_start wen byte) ∙ far),
        λ starts. rw (enabled, writes, undefined far) refl,
      )
      | inr near ↦
          let (wdata', wrote) = defined near in
          let fits : leb (0 + 4) (length (to_bytes 8 pin.data_sram_rdata)) ≡ true =
            ground (arith, length-to_bytes 8 pin.data_sram_rdata) in
          (
            rw (enabled, writes, wrote, reads, fits) (λ e. cc),
            λ starts.
                let starts_late = LateStart-late_start wen starts in
                let starts_early = sym (late-late_start wen byte) ∙ near in absurd cc,
          )
    ]
