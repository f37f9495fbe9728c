-- ===== src/Sram/Slave.antt =====
-- `nscscc_sram_slave` of difftest/src/nscscc_sram_slave.hpp: what a device does on a beat of the pins.
-- `Slave` are the two virtual functions, on the state of the class that implements them. They are given
-- the bytes of the pin that the pointer leads to; `do_write` has the offset of its pointer, too.
-- `assert` is the simulator's own, which clears `running` and goes on.
use hdu_riscv_lab.Prelude.{
  ℕ, zero, suc, ◌+◌, ◌-◌, Bool, ◌&&◌, ltb, ◌==◌, if◌then◌else◌, List, [], ◌∷◌, bit_and, Outcome, ok,
  ◌>>=◌,
}
use hdu_riscv_lab.Word.{has_bit}
use hdu_riscv_lab.Bytes.{to_bytes, of_bytes}
use hdu_riscv_lab.Sram.{Pins}

pub record Slave (S : Type 0) : Type 0 where
  pub do_read : S → ℕ → ℕ → List ℕ → Outcome (List ℕ)
  pub do_write : S → ℕ → ℕ → List ℕ → ℕ → Outcome (S × List ℕ)

-- The inner loop of `strb_to_range`, with `n` bits left from bit `r` on: it ends at bit 8 at the latest.
unfoldable pub run_end : ℕ → ℕ → ℕ → ℕ
run_end wen zero r = r
run_end wen (suc n) r =
    let more = run_end wen n (suc r) in if has_bit wen r && ltb r 8 then more else r

-- The outer loop, which ends where `l` is 8 or more; each round adds 1 or more to `l`.
unfoldable pub ranges : ℕ → ℕ → ℕ → List (ℕ × ℕ)
ranges wen zero l = []
ranges wen (suc n) l =
    let r = run_end wen (8 - l) l in
    let behind_run = ranges wen n (suc r) in
    let behind_bit = ranges wen n (suc l) in
    if ltb l 8 then (if has_bit wen l then (l, r - l) ∷ behind_run else behind_bit) else []

unfoldable pub strb_to_range : ℕ → List (ℕ × ℕ)
strb_to_range wen = ranges wen 8 0

-- A beat: the state of the device, the pins and `running`.
pub record Beat (S : Type 0) : Type 0 where
  pub slave : S
  pub pins : Pins
  pub running : Bool

module _ {S : Type 0} (device : Slave S) where
  -- The loop over the ranges, from the address of byte 0 on.
  unfoldable pub write_ranges : S → ℕ → List ℕ → List (ℕ × ℕ) → Outcome (S × List ℕ)
  write_ranges s base wdata [] = ok (s, wdata)
  write_ranges s base wdata ((addr, len) ∷ rest) =
      device.do_write s (base + addr) len wdata addr >>= λ (s', wdata').
      write_ranges s' base wdata' rest

abbrev pub data_base : ℕ → Pins → ℕ
data_base address_mask pin = bit_and (bit_and pin.data_sram_addr address_mask) 0xfffffff8

module _ {S : Type 0} (device : Slave S) (address_mask : ℕ) where
  unfoldable pub inst_channel : Beat S → Outcome (Beat S)
  inst_channel b =
      let pin = b.pins in
      if pin.inst_sram_en == 0
      then ok b
      else (device.do_read b.slave (bit_and pin.inst_sram_addr address_mask) 4
            (to_bytes 4 pin.inst_sram_rdata)
          >>= λ rdata. ok (record b {
            pins = record pin { inst_sram_rdata = of_bytes rdata };
            running = b.running && (pin.inst_sram_wen == 0);
          }))

  -- The writes that come before the read of the data channel.
  unfoldable pub data_writes : S → Pins → Outcome (S × List ℕ)
  data_writes s pin =
      if pin.data_sram_wen == 0
      then ok (s, to_bytes 8 pin.data_sram_wdata)
      else write_ranges device s (data_base address_mask pin) (to_bytes 8 pin.data_sram_wdata)
          (strb_to_range pin.data_sram_wen)

  unfoldable pub data_channel : Beat S → Outcome (Beat S)
  data_channel b =
      let pin = b.pins in
      if pin.data_sram_en == 0
      then ok b
      else (data_writes b.slave pin >>= λ (s, wdata).
          device.do_read s (bit_and pin.data_sram_addr address_mask) 8
            (to_bytes 8 pin.data_sram_rdata)
          >>= λ rdata. ok (record b {
            slave = s;
            pins = record pin {
              data_sram_wdata = of_bytes wdata;
              data_sram_rdata = of_bytes rdata;
            };
          }))

  unfoldable pub beat : Beat S → Outcome (Beat S)
  beat b = inst_channel b >>= λ b'. data_channel b'
