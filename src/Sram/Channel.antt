-- ===== src/Sram/Channel.antt =====
-- The data channel of `nscscc_sram_slave` (difftest/src/nscscc_sram_slave.hpp) on a device that behaves
-- as a memory. `IsMemory` is what the class that implements `do_read` and `do_write` promises.
use hdu_riscv_lab.Prelude.{
  ℕ, suc, ◌+◌, ◌-◌, ◌%◌, ◌^◌, ◌<◌, ◌≤◌, ◌≡◌, ◌≢◌, refl, ap, sym, ◌∙◌, arith, false, ◌&&◌, ltb, leb,
  ◌==◌, if◌then◌else◌, List, [], ◌∷◌, length, get_or, drop, length-take, length-drop, Bool-cases,
  inl, inr, bit_and, ok,
}
use hdu_riscv_lab.Word.{has_bit}
use hdu_riscv_lab.Word.Bits.{bit_and-lt}
use hdu_riscv_lab.Bytes.{to_bytes, of_bytes, slice, load, store}
use hdu_riscv_lab.Bytes.Laws.{length-to_bytes, of_bytes-to_bytes}
use hdu_riscv_lab.Sram.{Pins}
use hdu_riscv_lab.Sram.Slave.{
  Slave, Beat, write_ranges, data_writes, data_base, data_channel, strb_to_range,
}
use hdu_riscv_lab.Sram.Runs.{covered, IsApart, IsApart-covered, strb_to_range-IsRuns}
use hdu_riscv_lab.Sram.Strobe.{
  bit_and-block, get_or-slice, store_inside, store_outside, no_range, differ, two_ranges, strobed,
  strobed_bit,
}

-- In the states `IsGood` the device holds the bytes `view` at the addresses from `lo` to below `hi`. A
-- read is of an aligned block of `2 ^ k` bytes.
pub record IsMemory (S : Type 0) (device : Slave S) (lo hi : ℕ) : Type 1 where
  pub view : S → ℕ → ℕ
  pub IsGood : S → Type 0
  pub reads :
      (s : S) (a k : ℕ) (buffer : List ℕ)
      → IsGood s
      → lo ≤ a - a % 2 ^ k
      → a - a % 2 ^ k + 2 ^ k ≤ hi
      → length buffer ≡ 2 ^ k
      → device.do_read s a (2 ^ k) buffer ≡ ok (load (view s) (a - a % 2 ^ k) (2 ^ k))
  pub writes :
      (s : S) (a size : ℕ) (wdata : List ℕ) (at : ℕ)
      → IsGood s
      → 0 < size
      → lo ≤ a
      → a + size ≤ hi
      → at + size ≤ length wdata
      → (s' : S) × (device.do_write s a size wdata at ≡ ok (s', wdata))
        × IsGood s'
        × ((i : ℕ) → view s' i ≡ store (view s) a (slice at size wdata) i)

module _ {S : Type 0} (device : Slave S) (lo hi : ℕ) (memory : IsMemory S device lo hi) where
  abbrev Stored : ℕ → List ℕ → List (ℕ × ℕ) → (ℕ → ℕ) → (ℕ → ℕ) → Type 0
  Stored base wdata rs f g =
      (i : ℕ)
      → g i ≡ (if leb base i && covered rs (i - base) then get_or wdata (i - base) 0 else f i)

  -- The first range and the rest.
  Stored-cons :
      (base a n : ℕ) (wdata : List ℕ) (rs : List (ℕ × ℕ)) (f g h : ℕ → ℕ)
      → a + n ≤ length wdata
      → IsApart (suc (a + n)) rs
      → ((i : ℕ) → g i ≡ store f (base + a) (slice a n wdata) i)
      → Stored base wdata rs g h
      → Stored base wdata ((a, n) ∷ rs) f h
  Stored-cons base a n wdata rs f g h fits apart first later i =
      elim (Bool-cases (leb base i && (leb a (i - base) && ltb (i - base) (a + n)))) [
        | inl here ↦
            let passed : covered rs (i - base) ≡ false = elim (Bool-cases (covered rs (i - base))) [
              | inl held ↦
                  let (low, high) = IsApart-covered rs (suc (a + n)) (i - base) apart held in
                  absurd (ground (arith, here))
              | inr free ↦ free
            ] in
            let stored : g i ≡ get_or wdata (i - base) 0 =
              first i
              ∙ store_inside f (base + a) (slice a n wdata) i (ground (arith, size))
              ∙ get_or-slice wdata a n (i - (base + a)) (ground arith)
              ∙ ap (λ t. get_or wdata t 0) (ground arith) in
            two_ranges (leb base i) _ _ (later i) (λ e. (passed, stored))
              (λ e. absurd (differ here e))
        | inr away ↦
            let same : g i ≡ f i =
              first i ∙ store_outside f (base + a) (slice a n wdata) i (ground (arith, size)) in
            two_ranges (leb base i) _ _ (later i) (λ e. absurd (differ e away)) (λ e. same)
      ]
    where
      size : length (slice a n wdata) ≡ n
      size = omega (arith, length-take n (drop a wdata), length-drop a wdata)

  write_ranges-Stored :
      (rs : List (ℕ × ℕ)) (s : S) (base l : ℕ) (wdata : List ℕ)
      → IsApart l rs
      → memory.IsGood s
      → lo ≤ base
      → base + 8 ≤ hi
      → length wdata ≡ 8
      → (s' : S) × (write_ranges device s base wdata rs ≡ ok (s', wdata))
        × memory.IsGood s'
        × Stored base wdata rs (memory.view s) (memory.view s')
  unfolding write_ranges
  write_ranges-Stored [] s base l wdata apart good low high e =
      (s, refl, good, λ i. no_range (memory.view s i) _ (leb base i))
  write_ranges-Stored ((a, n) ∷ rest) s base l wdata (from, pos, to, apart) good low high e =
      let (s1, eq1, good1, view1) =
        memory.writes s (base + a) n wdata a good pos (omega arith) (omega arith) (omega arith) in
      let (s2, eq2, good2, view2) =
        write_ranges-Stored rest s1 base (suc (a + n)) wdata apart good1 low high e in
      (s2, rw eq1 eq2, good2, Stored-cons base a n wdata rest _ _ _ (omega arith) apart view1 view2)

  wide : {n : ℕ} → n < 2 ^ 64 → n < 256 ^ 8
  wide h = h

  -- A write strobe on the aligned block of 8 bytes: what `data_writes` does.
  data_writes-Stored :
      (address_mask : ℕ) (s : S) (pin : Pins)
      → memory.IsGood s
      → lo ≤ data_base address_mask pin
      → data_base address_mask pin + 8 ≤ hi
      → (s' : S) × (data_writes device address_mask s pin ≡ ok (s', to_bytes 8 pin.data_sram_wdata))
        × memory.IsGood s'
        × Stored
            (data_base address_mask pin)
            (to_bytes 8 pin.data_sram_wdata)
            (strobed pin.data_sram_wen)
            (memory.view s)
            (memory.view s')
  unfolding data_writes
  data_writes-Stored address_mask s pin good low high = elim (Bool-cases (pin.data_sram_wen == 0)) [
    | inl idle ↦
        rw idle
          (s, refl, good, λ i. no_range (memory.view s i) _ (leb (data_base address_mask pin) i))
    | inr busy ↦ rw busy (
        write_ranges-Stored (strb_to_range pin.data_sram_wen) s (data_base address_mask pin) 0
          (to_bytes 8 pin.data_sram_wdata) (strb_to_range-IsRuns pin.data_sram_wen).0.0 good low
          high (length-to_bytes 8 pin.data_sram_wdata))
  ]

  -- On a device that is a memory, the data channel with its enable set stores exactly the bytes of the
  -- 8-byte block whose bit of the write strobe is set and then reads the block: nothing else of the
  -- memory, and of the pins only the read data, changes. The address and its mask are words of 32 bits,
  -- the block lies in the memory.
  pub data_channel_lem :
      (address_mask : ℕ) (b : Beat S)
      → b.pins.data_sram_en ≢ 0
      → b.pins.data_sram_addr < 2 ^ 32
      → b.pins.data_sram_wdata < 2 ^ 64
      → memory.IsGood b.slave
      → lo ≤ data_base address_mask b.pins
      → data_base address_mask b.pins + 8 ≤ hi
      → (s' : S) × (data_channel device address_mask b
          ≡ ok (record b {
            slave = s';
            pins = record b.pins {
              data_sram_rdata = of_bytes (load (memory.view s') (data_base address_mask b.pins) 8);
            };
          }))
        × memory.IsGood s'
        × ((i : ℕ)
            → memory.view s' i ≡ (
                if leb (data_base address_mask b.pins) i
                  && (ltb (i - data_base address_mask b.pins) 8
                      && has_bit b.pins.data_sram_wen (i - data_base address_mask b.pins))
                then get_or
                    (to_bytes 8 b.pins.data_sram_wdata)
                    (i - data_base address_mask b.pins)
                    0
                else memory.view b.slave i))
  unfolding data_channel
  data_channel_lem address_mask b on address word good low high =
      let pin = b.pins in
      let base = data_base address_mask pin in
      let enabled : (pin.data_sram_en == 0) ≡ false = ground arith in
      let (s', wrote, good', stored) = data_writes-Stored address_mask b.slave pin good low high in
      let at : bit_and pin.data_sram_addr address_mask
            - bit_and pin.data_sram_addr address_mask % 2 ^ 3
          ≡ base =
        sym (
          bit_and-block (bit_and pin.data_sram_addr address_mask)
            (bit_and-lt 32 pin.data_sram_addr address_mask address)) in
      let got : device.do_read s' (bit_and pin.data_sram_addr address_mask) 8
            (to_bytes 8 pin.data_sram_rdata)
          ≡ ok (load (memory.view s') base 8) =
        rw at at (
          memory.reads s' (bit_and pin.data_sram_addr address_mask) 3
            (to_bytes 8 pin.data_sram_rdata) good' (omega (arith, low, at))
            (omega (arith, high, at)) (length-to_bytes 8 pin.data_sram_rdata)) in
      (
        s',
        rw (enabled, wrote, got, of_bytes-to_bytes 8 pin.data_sram_wdata (wide word)) refl,
        good',
        λ i. stored i ∙ rw (strobed_bit pin.data_sram_wen (i - base)) refl,
      )
