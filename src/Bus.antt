-- ===== src/Bus.antt =====
-- `rv_systembus` of difftest/src/rv_systembus.hpp: the map from address ranges to devices, the
-- reservation of `lr`, and the atomic memory operations.
-- The `std::map` is its list of entries in the order of the keys (first the start, then the end).
-- Devices are shared objects: an entry holds the index of its device in `heap`.
pub mod Map
pub mod Dispatch
pub mod Reservation
pub mod Atomic
pub mod Devices
pub mod Typed
pub mod Examples
use hdu_riscv_lab.Prelude.{
  ℕ, ◌+◌, ◌-◌, ◌%◌, Bool, true, false, not, ◌&&◌, ◌||◌, ltb, leb, ◌==◌, if◌then◌else◌, List, [],
  ◌∷◌, get_elem?, set, take, Option, none, some, min, max, bit_and, bit_or, bit_xor, Outcome, ok,
  aborts, faults, ◌>>=◌,
}
use hdu_riscv_lab.Word.{u64_max, add64, sub64, sext32, signed64}
use hdu_riscv_lab.Word.Int.{ltb_ℤ}
use hdu_riscv_lab.Bytes.{to_bytes, of_bytes}
use hdu_riscv_lab.Device.{Device, do_read, do_write}

pub record Entry : Type 0 where
  pub lo : ℕ
  pub hi : ℕ
  pub dev : ℕ
  pub raw_addr : Bool

pub record Bus : Type 0 where
  pub lr_pa : ℕ
  pub lr_size : ℕ
  pub lr_hart : ℕ
  pub lr_valid : Bool
  pub devices : List Entry
  pub heap : List Device

-- `std::pair` compares by its first parts, then by its second.
abbrev pub key_leb : ℕ → ℕ → ℕ → ℕ → Bool
key_leb lo hi lo' hi' = ltb lo lo' || (lo == lo' && leb hi hi')

-- `upper_bound(key)`: the first entry behind the key; `none` is `end()`.
unfoldable pub upper_bound : ℕ → ℕ → List Entry → Option Entry
upper_bound lo hi [] = none
upper_bound lo hi (e ∷ es) = if key_leb e.lo e.hi lo hi then upper_bound lo hi es else some e

-- `prev(upper_bound(key))`: the last entry up to the key; `none` where `upper_bound` is `begin()`.
unfoldable pub prev_upper_bound : ℕ → ℕ → List Entry → Option Entry
prev_upper_bound lo hi [] = none
prev_upper_bound lo hi (e ∷ es) =
    let later = prev_upper_bound lo hi es in
    if key_leb e.lo e.hi lo hi then elim later [ none ↦ some e | some f ↦ some f ] else none

-- `devices[key] = value`.
unfoldable pub insert : Entry → List Entry → List Entry
insert new [] = new ∷ []
insert new (e ∷ es) =
    let rest = insert new es in
    if key_leb e.lo e.hi new.lo new.hi
    then (if e.lo == new.lo && e.hi == new.hi then new ∷ es else e ∷ rest)
    else new ∷ e ∷ es

abbrev pub overlaps : Entry → ℕ → ℕ → Bool
overlaps e lo hi = ltb (max e.lo lo) (min e.hi hi)

abbrev pub meets : Option Entry → ℕ → ℕ → Bool
meets none lo hi = false
meets (some e) lo hi = overlaps e lo hi

-- `none` is the result `false`. A `length` of 0 divides by zero.
unfoldable pub add_dev : Bus → ℕ → ℕ → ℕ → Bool → Outcome (Option Bus)
add_dev b start_addr length dev raw_addr =
    let end_addr = add64 start_addr length in
    if length == 0
    then faults
    else if not (start_addr % length == 0)
    then ok none
    else if meets (upper_bound start_addr end_addr b.devices) start_addr end_addr
    then ok none
    else if meets (prev_upper_bound start_addr end_addr b.devices) start_addr end_addr
    then ok none
    else ok (
        some (record b {
          devices =
              insert (record { lo = start_addr; hi = end_addr; dev = dev; raw_addr = raw_addr })
                b.devices;
        }))

-- The search that `pa_read` and `pa_write` make: the entry whose range holds the access.
unfoldable pub locate : List Entry → ℕ → ℕ → Option Entry
locate devices start_addr size = elim (prev_upper_bound start_addr u64_max devices) [
  | none ↦ none
  | some e ↦ if leb e.lo start_addr && leb (add64 start_addr size) e.hi then some e else none
]

-- The address that the device is given.
abbrev pub dev_addr : Entry → ℕ → ℕ
dev_addr e start_addr = if e.raw_addr then start_addr else start_addr % sub64 e.hi e.lo

unfoldable pub pa_read : Bus → ℕ → ℕ → Outcome (Option (List ℕ))
pa_read b start_addr size = elim (locate b.devices start_addr size) [
  | none ↦ ok none
  | some e ↦ elim (get_elem? b.heap e.dev) [
    | none ↦ faults
    | some d ↦ ok (do_read d (dev_addr e start_addr) size)
  ]
]

-- A store ends the reservation by this test.
abbrev pub ends_reservation : Bus → ℕ → ℕ → Bool
ends_reservation b start_addr size =
    leb start_addr b.lr_pa && leb (add64 b.lr_pa size) (add64 start_addr size)

abbrev pub drop_reservation : Bus → ℕ → ℕ → Bus
drop_reservation b start_addr size = record b {
  lr_valid = if ends_reservation b start_addr size then false else b.lr_valid;
}

-- The bus after the call, and the result.
unfoldable pub pa_write : Bus → ℕ → ℕ → List ℕ → Outcome (Bus × Bool)
pa_write b start_addr size buffer =
    let b = drop_reservation b start_addr size in
    elim (locate b.devices start_addr size) [
      | none ↦ ok (b, false)
      | some e ↦ elim (get_elem? b.heap e.dev) [
        | none ↦ faults
        | some d ↦ elim (do_write d (dev_addr e start_addr) size buffer) [
          | none ↦ ok (b, false)
          | some d' ↦ ok (record b { heap = set b.heap e.dev d' }, true)
        ]
      ]
    ]

unfoldable pub pa_lr : Bus → ℕ → ℕ → ℕ → Outcome (Bus × Option (List ℕ))
pa_lr b pa size hart_id =
    let b = record b { lr_pa = pa; lr_size = size; lr_valid = true; lr_hart = hart_id } in
    pa_read b pa size >>= λ dst. ok (b, dst)

-- The condition under which `sc` stores nothing.
abbrev pub sc_refused : Bus → ℕ → ℕ → ℕ → Bool
sc_refused b pa size hart_id =
    not b.lr_valid || not (b.lr_pa == pa) || not (b.lr_size == size) || not (b.lr_hart == hart_id)

-- The results are that of the function and `sc_fail`.
unfoldable pub pa_sc : Bus → ℕ → ℕ → List ℕ → ℕ → Outcome (Bus × Bool × Bool)
pa_sc b pa size src hart_id =
    if sc_refused b pa size hart_id
    then ok (record b { lr_valid = if hart_id == b.lr_hart then false else b.lr_valid }, true, true)
    else pa_write (record b { lr_valid = false }) pa size src >>= λ r. ok (r.0, r.1, false)

pub data AmoFunct : Type 0 where
  amolr amosc amoswap amoadd amoxor amoand amoor amomin amomax amominu amomaxu : AmoFunct

-- What an atomic operation stores, from the register `src` and the old value `res`.
unfoldable pub amo_result : AmoFunct → ℕ → ℕ → Outcome ℕ
amo_result amoswap src res = ok src
amo_result amoadd src res = ok (add64 src res)
amo_result amoand src res = ok (bit_and src res)
amo_result amoor src res = ok (bit_or src res)
amo_result amoxor src res = ok (bit_xor src res)
amo_result amomax src res = ok (if ltb_ℤ (signed64 src) (signed64 res) then res else src)
amo_result amomin src res = ok (if ltb_ℤ (signed64 res) (signed64 src) then res else src)
amo_result amomaxu src res = ok (max src res)
amo_result amominu src res = ok (min src res)
amo_result amolr src res = aborts
amo_result amosc src res = aborts

-- The old value: 4 bytes are sign-extended, else 8 are read.
abbrev pub amo_old : ℕ → List ℕ → ℕ
amo_old size bytes = if size == 4 then sext32 (of_bytes bytes) else of_bytes bytes

-- `none` is the result `false`, and `some dst` the result `true`.
unfoldable pub pa_amo_op : Bus → ℕ → ℕ → AmoFunct → ℕ → Outcome (Bus × Option ℕ)
pa_amo_op b pa size op src = do
  bytes ← pa_read b pa size
  elim bytes [
    | none ↦ ok (b, none)
    | some bytes ↦ amo_result op src (amo_old size bytes) >>= λ to_write.
        pa_write b pa size (to_bytes 8 to_write) >>= λ r.
        ok (r.0, if r.1 then some (amo_old size bytes) else none)
  ]
