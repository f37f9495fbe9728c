-- ===== src/Bus/Examples.antt =====
-- Runs of a bus with a memory, and the theorems about the bus at concrete accesses.
use hdu_riscv_lab.Prelude.{
  ℕ, ◌+◌, ◌^◌, ◌≡◌, ◌↔◌, refl, true, false, List, [], ◌∷◌, get_elem?, take, ◌==◌, some, ok, arith,
}
use hdu_riscv_lab.Word.{u32, sext32}
use hdu_riscv_lab.Bytes.{store}
use hdu_riscv_lab.Mem.{Mem}
use hdu_riscv_lab.Mem
use hdu_riscv_lab.Device.{mem, do_read, do_write}
use hdu_riscv_lab.Bus.{
  Entry, Bus, prev_upper_bound, locate, add_dev, pa_read, pa_write, pa_lr, pa_sc, amo_result,
  amoadd, amomax, pa_amo_op,
}
use hdu_riscv_lab.Bus.Map.{IsFree, add_dev_iff}
use hdu_riscv_lab.Bus.Dispatch.{Holds, locate_iff}
use hdu_riscv_lab.Bus.Reservation.{pa_lr-pa_write-pa_sc}
use hdu_riscv_lab.Bus.Atomic.{amo32, amo_result-IsWord, amomax_upper_bits}

abbrev zeros : ℕ → ℕ
zeros i = 0

abbrev ram : (ℕ → ℕ) → Mem
ram bytes = record {
  mem = bytes;
  mem_size = 0x40;
  allow_warp = false;
  diff_mem_write = false;
  diff_mem = zeros;
  running = true;
}

-- A memory of 64 bytes at 0x1000, behind a range of 256.
abbrev ram_entry : Entry
ram_entry = record { lo = 0x1000; hi = 0x1100; dev = 0; raw_addr = false }

abbrev idle : (ℕ → ℕ) → List Entry → Bus
idle bytes devices = record {
  lr_pa = 0;
  lr_size = 0;
  lr_hart = 0;
  lr_valid = false;
  devices = devices;
  heap = mem (ram bytes) ∷ [];
}

abbrev bus : Bus
bus = idle zeros (ram_entry ∷ [])

abbrev word : List ℕ
word = 7 ∷ 0 ∷ 0 ∷ 0 ∷ []

abbrev stored : Bus
stored = idle (store zeros 8 (take 4 word)) (ram_entry ∷ [])

written : pa_write bus 0x1008 4 word ≡ ok (stored, true)
unfolding pa_write locate prev_upper_bound do_write Mem.do_write Mem.write_at
written = refl

atomic :
    (b : Bus) × (pa_amo_op stored 0x1008 4 amoadd 3 ≡ ok (b, some 7))
    × (pa_read b 0x1008 4 ≡ ok (some (10 ∷ 0 ∷ 0 ∷ 0 ∷ [])))
unfolding pa_amo_op pa_read pa_write amo_result locate prev_upper_bound do_read do_write Mem.do_read
    Mem.do_write Mem.write_at
atomic = (_, refl, refl)

add_dev_iff_example :
    ((b' : Bus) × (add_dev bus 0x1100 0x100 0 false ≡ ok (some b')))
    ↔ IsFree 0x1100 (0x1100 + 0x100) bus.devices
add_dev_iff_example =
    add_dev_iff bus 0x1100 0x100 0 false (omega arith) (omega arith) (omega arith) refl

locate_iff_example :
    (locate bus.devices 0x1008 4 ≡ some ram_entry)
    ↔ ((i : ℕ) × (get_elem? bus.devices i ≡ some ram_entry) × Holds ram_entry 0x1008 4)
locate_iff_example =
    locate_iff bus.devices ram_entry 0x1008 4 (omega arith) (omega arith) (omega arith)
      (omega arith)

refused : pa_sc stored 0x1008 4 word 0 ≡ ok (stored, true, true)
unfolding pa_sc
refused = refl

abbrev reserved : Bus
reserved = record bus { lr_pa = 0x1008; lr_size = 4; lr_valid = true }

abbrev ended : Bus
ended = record stored { lr_pa = 0x1008; lr_size = 4 }

reserves : pa_lr bus 0x1008 4 0 ≡ ok (reserved, some (0 ∷ 0 ∷ 0 ∷ 0 ∷ []))
unfolding pa_lr pa_read locate prev_upper_bound do_read Mem.do_read
reserves = refl

ends : pa_write reserved 0x1008 4 word ≡ ok (ended, true)
unfolding pa_write locate prev_upper_bound do_write Mem.do_write Mem.write_at
ends = refl

fails : pa_sc ended 0x1008 4 word 0 ≡ ok (ended, true, true)
unfolding pa_sc
fails = refl

pa_lr-pa_write-pa_sc_example : true ≡ (0x1008 == 0x1008)
pa_lr-pa_write-pa_sc_example =
    pa_lr-pa_write-pa_sc bus reserved ended ended 0x1008 4 0 0x1008 4 word word (omega arith)
      (omega arith) reserves ends fails

amo_result-IsWord_example :
    (w : ℕ) × (amo_result amomax 3 (sext32 0xffff_fff0) ≡ ok w)
    × (u32 w ≡ amo32 amomax (u32 3) 0xffff_fff0)
amo_result-IsWord_example =
    amo_result-IsWord 3 0xffff_fff0 (omega arith) refl amomax (λ e. cc) (λ e. cc)

amomax_upper_bits_example :
    (w : ℕ) × (amo_result amomax (2 ^ 32 + 3) (sext32 5) ≡ ok w)
    × (u32 w ≡ u32 (2 ^ 32 + 3))
    × (amo32 amomax (u32 (2 ^ 32 + 3)) 5 ≡ 5)
amomax_upper_bits_example =
    amomax_upper_bits (2 ^ 32 + 3) 5 (omega arith) (omega arith) (omega arith) (omega arith)
