-- ===== src/Clint.antt =====
-- `rv_clint` of difftest/src/rv_clint.hpp: the timer and software interrupts of `nr_hart` harts.
-- A read gives the bytes put into the buffer, a write takes them; `none` is the result `false`.
-- A `memcpy` past the end of a register, which needs an address that wraps, is cut off here.
pub mod Laws
pub mod Timer
pub mod Examples
use hdu_riscv_lab.Prelude.{
  ℕ, ◌+◌, ◌-◌, ◌*◌, ◌%◌, Bool, ◌&&◌, ltb, leb, if◌then◌else◌, List, map, take, replicate, get_or,
  Option, none, some, Outcome, ok, aborts, ◌==◌,
}
use hdu_riscv_lab.Word.{u64, add64}
use hdu_riscv_lab.Bytes.{to_bytes, of_bytes, array_bytes, array_of, slice, splice}

pub record Clint : Type 0 where
  pub mtime : ℕ
  pub mtimecmp : List ℕ
  pub msip : List ℕ

module _ (nr_hart : ℕ) where
  unfoldable pub init : Clint
  init = record { mtime = 0; mtimecmp = replicate nr_hart 0; msip = replicate nr_hart 0 }

  -- The tests that `do_read` and `do_write` share.
  abbrev pub in_mtime : ℕ → ℕ → Bool
  in_mtime start_addr size = leb 0xbff8 start_addr && leb (add64 start_addr size) 0xc000

  abbrev pub in_mtimecmp : ℕ → ℕ → Bool
  in_mtimecmp start_addr size =
      leb 0x4000 start_addr && leb (add64 start_addr size) (0x4000 + 8 * nr_hart)

  abbrev pub in_msip : ℕ → ℕ → Bool
  in_msip start_addr size = leb (add64 start_addr size) (4 * nr_hart)

  unfoldable pub do_read : Clint → ℕ → ℕ → Option (List ℕ)
  do_read c start_addr size =
      if leb 0x4000 start_addr
      then if in_mtime start_addr size
        then some (slice (start_addr - 0xbff8) size (to_bytes 8 c.mtime))
        else if in_mtimecmp start_addr size
        then some (slice (start_addr - 0x4000) size (array_bytes 8 c.mtimecmp))
        else none
      else if in_msip start_addr size
      then some (slice start_addr size (array_bytes 4 c.msip))
      else none

  unfoldable pub do_write : Clint → ℕ → ℕ → List ℕ → Option Clint
  do_write c start_addr size buffer =
      let new = take size buffer in
      if leb 0x4000 start_addr
      then if in_mtime start_addr size
        then some
            (record c { mtime = of_bytes (splice (start_addr - 0xbff8) new (to_bytes 8 c.mtime)) })
        else if in_mtimecmp start_addr size
        then some (record c {
          mtimecmp =
              array_of 8 nr_hart (splice (start_addr - 0x4000) new (array_bytes 8 c.mtimecmp));
        })
        else none
      else if in_msip start_addr size
      then some (record c {
        msip = map (λ w. w % 2) (array_of 4 nr_hart (splice start_addr new (array_bytes 4 c.msip)));
      })
      else none

  unfoldable pub tick : Clint → Clint
  tick c = record c { mtime = u64 (c.mtime + 1) }

  unfoldable pub synchronize : Clint → ℕ → Clint
  synchronize c time = record c { mtime = time }

  -- The interrupt lines of a hart; a hart that is not there fails an assertion.
  unfoldable pub m_s_irq : Clint → ℕ → Outcome Bool
  m_s_irq c hart_id = if leb nr_hart hart_id then aborts else ok (get_or c.msip hart_id 0 % 2 == 1)

  unfoldable pub m_t_irq : Clint → ℕ → Outcome Bool
  m_t_irq c hart_id =
      if leb nr_hart hart_id then aborts else ok (ltb (get_or c.mtimecmp hart_id 0) c.mtime)

-- `get_mtime`.
unfoldable pub get_mtime : Clint → ℕ
get_mtime c = c.mtime
