-- ===== src/Sram/Examples.antt =====
-- Beats of the pins on the simulator's crossbar, and the theorems about them.
use hdu_riscv_lab.Prelude.{
  ℕ, ◌-◌, ◌%◌, ◌≤◌, ◌≡◌, ◌↔◌, refl, arith, true, false, ◌&&◌, ltb, leb, if◌then◌else◌, [], ◌∷◌,
  get_or, ok, faults, some,
}
use hdu_riscv_lab.Word.{has_bit, u64_max}
use hdu_riscv_lab.Bytes.{to_bytes, of_bytes, load}
use hdu_riscv_lab.Mem.{Mem}
use hdu_riscv_lab.Device.{mem}
use hdu_riscv_lab.Bus.{Bus}
use hdu_riscv_lab.Bus
use hdu_riscv_lab.Sram.{Pointers, blank}
use hdu_riscv_lab.Sram.Slave.{Beat, data_channel, strb_to_range, ranges, run_end}
use hdu_riscv_lab.Sram.Xbar.{Range, Xbar, xbar, add_dev, located, prev_upper_bound}
use hdu_riscv_lab.Sram.Runs.{IsRuns, strb_to_range-IsRuns}
use hdu_riscv_lab.Sram.Channel.{data_channel_lem}
use hdu_riscv_lab.Sram.Memory.{with_memory, byte_at, memory_of}
use hdu_riscv_lab.Sram.Misses.{LateStart, data_channel_missed}
use hdu_riscv_lab.Sram.Lookup.{as_entry?, entries, added, added_to_bus, add_dev-as_entry}

abbrev ram : Mem
ram = record {
  mem = λ i. i % 256;
  mem_size = 0x1000;
  allow_warp = false;
  diff_mem_write = false;
  diff_mem = λ i. 0;
  running = true;
}

-- Bytes 0, 1 and 5 of the block at 0x80000010 are written.
abbrev store_beat : Beat Xbar
store_beat = record {
  slave = with_memory ram;
  pins = record blank {
    data_sram_en = 1;
    data_sram_wen = 0x23;
    data_sram_addr = 0x80000014;
    data_sram_wdata = 0x8877665544332211;
  };
  running = true;
}

data_channel_lem_example :
    (x : Xbar) × (data_channel xbar 0xffffffff store_beat
      ≡ ok (record store_beat {
        slave = x;
        pins = record store_beat.pins {
          data_sram_rdata = of_bytes (load (byte_at x) 0x80000010 8);
        };
      }))
    × ((m : Mem) × (x ≡ with_memory m) × (m.mem_size ≡ 0x1000))
    × ((i : ℕ)
        → byte_at x i ≡ (
            if leb 0x80000010 i && (ltb (i - 0x80000010) 8 && has_bit 0x23 (i - 0x80000010))
            then get_or (to_bytes 8 0x8877665544332211) (i - 0x80000010) 0
            else byte_at (with_memory ram) i))
data_channel_lem_example =
    data_channel_lem xbar 0x80000000 0x80001000 (memory_of 0x1000 (omega arith)) 0xffffffff
      store_beat (omega arith) (omega arith) (omega arith) (ram, refl, refl) (omega arith)
      (omega arith)

strb_to_range-IsRuns_example :
    IsRuns 0x23 0 (strb_to_range 0x23)
    × ((rounds : ℕ) → 8 ≤ rounds → ranges 0x23 rounds 0 ≡ strb_to_range 0x23)
strb_to_range-IsRuns_example = strb_to_range-IsRuns 0x23

two_runs : strb_to_range 0x23 ≡ (0, 2) ∷ (5, 1) ∷ []
unfolding strb_to_range ranges run_end
two_runs = refl

-- A request below the memory whose run of bits begins at bit 5.
abbrev stray_beat : Beat Xbar
stray_beat = record {
  slave = with_memory ram;
  pins = record blank {
    data_sram_en = 1;
    data_sram_addr = 0x1000;
    data_sram_wen = 0x20;
    data_sram_wdata = 0x110000000000;
  };
  running = true;
}

data_channel_missed_example : (data_channel xbar 0xffffffff stray_beat ≡ faults) ↔ LateStart 0x20
data_channel_missed_example =
    data_channel_missed ram 0xffffffff stray_beat refl (omega arith) (omega arith) (omega arith)

stray_beat-faults : data_channel xbar 0xffffffff stray_beat ≡ faults
stray_beat-faults = data_channel_missed_example.1 (5, omega arith, omega arith, refl, refl)

-- A device of bytes at 0x10000000.
abbrev bytes : Range
bytes = record { lo = 0x10000000; hi = 0x10001000; byte_mode = true; dev = 0 }

abbrev byte_bar : Xbar
byte_bar = record { devices = bytes ∷ []; heap = mem ram ∷ [] }

located-bytes : located byte_bar 0x10000003 ≡ some bytes
unfolding prev_upper_bound
located-bytes = refl

abbrev bus : Bus
bus = record {
  lr_pa = 0;
  lr_size = 0;
  lr_hart = 0;
  lr_valid = false;
  devices = entries byte_bar.devices;
  heap = mem ram ∷ [];
}

add_dev-as_entry_example :
    (added (add_dev byte_bar 0x80000000 0x80000000 1 true)
      ≡ added_to_bus (Bus.add_dev bus 0x80000000 0x80000000 1 false))
    × ((a : ℕ) → as_entry? (located byte_bar a) ≡ Bus.prev_upper_bound a u64_max bus.devices)
add_dev-as_entry_example =
    add_dev-as_entry byte_bar bus 0x80000000 0x80000000 1 true refl (omega arith, omega arith, tt)
      (omega arith)

abbrev wires : Pointers
wires = record {
  inst_sram_en = 1;
  inst_sram_wen = 2;
  inst_sram_addr = 4;
  inst_sram_wdata = 8;
  inst_sram_rdata = 12;
  data_sram_en = 16;
  data_sram_wen = 17;
  data_sram_addr = 20;
  data_sram_wdata = 24;
  data_sram_rdata = 32;
}
