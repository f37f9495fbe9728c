-- ===== src/Mem.antt =====
-- `mmio_mem` of difftest/src/mmio_mem.hpp: a memory of `mem_size` bytes on the bus.
-- `mem` gives the byte at an address. The memory that `set_diff_mem` names is another object, which
-- only comparisons read: its bytes are the field `diff_mem`, there when `diff_mem_write` is set.
-- `running` is the simulator's global, which a failed comparison clears.
pub mod Laws
pub mod Examples
use hdu_riscv_lab.Prelude.{
  ℕ, zero, suc, ◌+◌, ◌-◌, ◌%◌, Bool, true, false, ◌&&◌, ◌||◌, ltb, leb, ◌==◌, if◌then◌else◌, List,
  length, take, Option, none, some,
}
use hdu_riscv_lab.Word.{add64}
use hdu_riscv_lab.Bytes.{load, store}

pub record Mem : Type 0 where
  pub mem : ℕ → ℕ
  pub mem_size : ℕ
  pub allow_warp : Bool
  pub diff_mem_write : Bool
  pub diff_mem : ℕ → ℕ
  pub running : Bool

-- The constructor. `new` leaves the bytes as they are: `garbage`.
unfoldable pub new_mem : ℕ → (ℕ → ℕ) → Mem
new_mem size_bytes garbage = record {
  mem = garbage;
  mem_size = size_bytes;
  allow_warp = false;
  diff_mem_write = false;
  diff_mem = garbage;
  running = true;
}

-- The constructor from a file with the bytes `file`: what does not fit is not read.
unfoldable pub mem_of_file : ℕ → (ℕ → ℕ) → List ℕ → Mem
mem_of_file size_bytes garbage file =
    let file_size = if ltb size_bytes (length file) then size_bytes else length file in
    record (new_mem size_bytes garbage) { mem = store garbage 0 (take file_size file) }

unfoldable pub do_read : Mem → ℕ → ℕ → Option (List ℕ)
do_read m start_addr size =
    if leb (add64 start_addr size) m.mem_size
    then some (load m.mem start_addr size)
    else if m.allow_warp
    then (let start_addr = start_addr % m.mem_size in
        if leb (add64 start_addr size) m.mem_size then some (load m.mem start_addr size) else none)
    else none

-- The loop that compares the `n` bytes from `at` on with the other memory.
unfoldable pub agrees : (ℕ → ℕ) → (ℕ → ℕ) → ℕ → ℕ → Bool
agrees mem diff_mem at zero = true
agrees mem diff_mem at (suc n) = mem at == diff_mem at && agrees mem diff_mem (suc at) n

-- `memcpy` into the memory, and the comparison where it is on.
unfoldable pub write_at : Mem → ℕ → ℕ → List ℕ → Mem
write_at m start_addr size buffer =
    let mem = store m.mem start_addr (take size buffer) in
    record m {
      mem = mem;
      running =
          if m.diff_mem_write
          then m.running && agrees mem m.diff_mem start_addr size
          else m.running;
    }

unfoldable pub do_write : Mem → ℕ → ℕ → List ℕ → Option Mem
do_write m start_addr size buffer =
    if leb (add64 start_addr size) m.mem_size
    then some (write_at m start_addr size buffer)
    else if m.allow_warp
    then (let start_addr = start_addr % m.mem_size in
        if leb (add64 start_addr size) m.mem_size
        then some (write_at m start_addr size buffer)
        else none)
    else none

-- `load_binary`: a file that does not fit behind `start_addr` is read as if it had `mem_size` bytes.
unfoldable pub load_binary : Mem → ℕ → List ℕ → Mem
load_binary m start_addr file =
    let file_size =
      if leb m.mem_size start_addr || ltb (m.mem_size - start_addr) (length file)
      then m.mem_size
      else length file in
    record m { mem = store m.mem start_addr (take file_size file) }

-- What `save_binary` writes to its file.
unfoldable pub save_binary : Mem → List ℕ
save_binary m = load m.mem 0 m.mem_size

-- The argument is not used.
unfoldable pub set_allow_warp : Mem → Bool → Mem
set_allow_warp m value = record m { allow_warp = true }

unfoldable pub set_diff_mem : Mem → (ℕ → ℕ) → Mem
set_diff_mem m diff_mem_addr = record m { diff_mem = diff_mem_addr; diff_mem_write = true }
