-- ===== src/Device.antt =====
-- `mmio_dev` of difftest/src/mmio_dev.hpp: the abstract device, as the sum of the classes that
-- implement it. A call returns the device after it and the buffer, or `none` for `false`.
use hdu_riscv_lab.Prelude.{ℕ, List, Option, none, some}
use hdu_riscv_lab.Mem.{Mem}
use hdu_riscv_lab.Mem
use hdu_riscv_lab.Clint.{Clint}
use hdu_riscv_lab.Clint

pub data Device : Type 0 where
  mem : Mem → Device
  clint : ℕ → Clint → Device

unfoldable pub do_read : Device → ℕ → ℕ → Option (List ℕ)
do_read (mem m) start_addr size = Mem.do_read m start_addr size
do_read (clint nr_hart c) start_addr size = Clint.do_read nr_hart c start_addr size

unfoldable pub do_write : Device → ℕ → ℕ → List ℕ → Option Device
do_write (mem m) start_addr size buffer = elim (Mem.do_write m start_addr size buffer) [
  | none ↦ none
  | some m' ↦ some (mem m')
]
do_write (clint nr_hart c) start_addr size buffer =
    elim (Clint.do_write nr_hart c start_addr size buffer) [
      | none ↦ none
      | some c' ↦ some (clint nr_hart c')
    ]
