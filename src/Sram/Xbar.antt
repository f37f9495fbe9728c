-- ===== src/Sram/Xbar.antt =====
-- `nscscc_sram_xbar` of difftest/src/nscscc_sram_xbar.hpp: the map from address ranges to the devices of
-- the simulated processor. The `std::map` is its list of entries in the order of the keys, which are
-- the start, the end and the flag `byte_mode`; an entry holds the index of its device in `heap`.
use hdu_riscv_lab.Prelude.{
  ℕ, ◌+◌, ◌-◌, ◌%◌, Bool, true, false, not, ◌&&◌, ◌||◌, ltb, leb, ◌==◌, if◌then◌else◌, List, [],
  ◌∷◌, length, get_elem?, set, drop, Option, none, some, min, max, bit_and, Outcome, ok, faults,
  ◌>>=◌,
}
use hdu_riscv_lab.Word.{u64_max, add64, sub64}
use hdu_riscv_lab.Bytes.{to_bytes, splice}
use hdu_riscv_lab.Device.{Device}
use hdu_riscv_lab.Device
use hdu_riscv_lab.Sram.Slave.{Slave}

pub record Range : Type 0 where
  pub lo : ℕ
  pub hi : ℕ
  pub byte_mode : Bool
  pub dev : ℕ

pub record Xbar : Type 0 where
  pub devices : List Range
  pub heap : List Device

-- `std::tuple` compares its parts from the first on; `false` comes before `true`.
abbrev pub key_leb : ℕ → ℕ → Bool → ℕ → ℕ → Bool → Bool
key_leb lo hi byte lo' hi' byte' =
    ltb lo lo' || ((lo == lo') && (ltb hi hi' || ((hi == hi') && (not byte || byte'))))

abbrev pub same_key : Range → Range → Bool
same_key e f =
    (e.lo == f.lo) && (e.hi == f.hi) && (if e.byte_mode then f.byte_mode else not f.byte_mode)

unfoldable pub upper_bound : ℕ → ℕ → Bool → List Range → Option Range
upper_bound lo hi byte [] = none
upper_bound lo hi byte (e ∷ es) =
    if key_leb e.lo e.hi e.byte_mode lo hi byte then upper_bound lo hi byte es else some e

-- `none` where the upper bound is `begin()`.
unfoldable pub prev_upper_bound : ℕ → ℕ → Bool → List Range → Option Range
prev_upper_bound lo hi byte [] = none
prev_upper_bound lo hi byte (e ∷ es) =
    let later = prev_upper_bound lo hi byte es in
    if key_leb e.lo e.hi e.byte_mode lo hi byte
    then elim later [ none ↦ some e | some f ↦ some f ]
    else none

unfoldable pub insert : Range → List Range → List Range
insert new [] = new ∷ []
insert new (e ∷ es) =
    let rest = insert new es in
    if key_leb e.lo e.hi e.byte_mode new.lo new.hi new.byte_mode
    then (if same_key e new then new ∷ es else e ∷ rest)
    else new ∷ e ∷ es

abbrev pub meets : Option Range → ℕ → ℕ → Bool
meets none lo hi = false
meets (some e) lo hi = ltb (max e.lo lo) (min e.hi hi)

-- `none` is the result `false`. A `length` of 0 divides by zero.
unfoldable pub add_dev : Xbar → ℕ → ℕ → ℕ → Bool → Outcome (Option Xbar)
add_dev x start_addr length dev byte_mode =
    let end_addr = add64 start_addr length in
    if length == 0
    then faults
    else if not (start_addr % length == 0)
    then ok none
    else if meets (upper_bound start_addr end_addr byte_mode x.devices) start_addr end_addr
    then ok none
    else if meets (prev_upper_bound start_addr end_addr byte_mode x.devices) start_addr end_addr
    then ok none
    else ok (
        some (record x {
          devices =
              insert (record { lo = start_addr; hi = end_addr; byte_mode = byte_mode; dev = dev })
                x.devices;
        }))

-- `*((uint32_t *)buffer) = 0xdec0dee3` at an offset into the bytes of a pin.
abbrev pub marked : ℕ → List ℕ → Outcome (List ℕ)
marked at buffer =
    if leb (at + 4) (length buffer) then ok (splice at (to_bytes 4 0xdec0dee3) buffer) else faults

abbrev pub located : Xbar → ℕ → Option Range
located x start_addr = prev_upper_bound start_addr u64_max true x.devices

-- What a device gives, at an offset into the buffer; a refusal leaves it.
abbrev pub given : ℕ → List ℕ → Option (List ℕ) → Outcome (List ℕ)
given at buffer none = ok buffer
given at buffer (some bytes) =
    if leb (at + length bytes) (length buffer) then ok (splice at bytes buffer) else faults

-- The size and the address that a device is given.
abbrev pub read_size : Range → ℕ → ℕ
read_size e size = if e.byte_mode then 1 else size

abbrev pub read_addr : Range → ℕ → ℕ → ℕ
read_addr e start_addr size =
    if e.byte_mode then start_addr else start_addr - bit_and start_addr (size - 1)

unfoldable pub do_read : Xbar → ℕ → ℕ → List ℕ → Outcome (List ℕ)
do_read x start_addr size buffer = elim (located x start_addr) [
  | none ↦ marked 0 buffer
  | some e ↦
      if leb e.lo start_addr && leb (add64 start_addr 1) e.hi
      then elim (get_elem? x.heap e.dev) [
        | none ↦ faults
        | some d ↦
            given (read_addr e start_addr size % read_size e size) buffer
              (Device.do_read d (read_addr e start_addr size % sub64 e.hi e.lo) (read_size e size))
      ]
      else marked 0 buffer
]

-- The state and the buffer afterwards; what the device returns is not looked at.
unfoldable pub do_write : Xbar → ℕ → ℕ → List ℕ → ℕ → Outcome (Xbar × List ℕ)
do_write x start_addr size buffer at = elim (located x start_addr) [
  | none ↦ marked at buffer >>= λ buffer'. ok (x, buffer')
  | some e ↦
      if leb e.lo start_addr && leb (add64 start_addr size) e.hi
      then elim (get_elem? x.heap e.dev) [
        | none ↦ faults
        | some d ↦ elim (Device.do_write d (start_addr % sub64 e.hi e.lo) size (drop at buffer)) [
          | none ↦ ok (x, buffer)
          | some d' ↦ ok (record x { heap = set x.heap e.dev d' }, buffer)
        ]
      ]
      else marked at buffer >>= λ buffer'. ok (x, buffer')
]

abbrev pub xbar : Slave Xbar
xbar = record { do_read = do_read; do_write = do_write }
