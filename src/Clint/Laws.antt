-- ===== src/Clint/Laws.antt =====
-- Register accesses of the CLINT: well-formedness, agreement of reads and writes, read-back.
use hdu_riscv_lab.Prelude.{
  ℕ, zero, suc, ◌+◌, ◌-◌, ◌%◌, ◌^◌, ◌≤◌, ◌<◌, ◌≡◌, ◌↔◌, arith, List, [], ◌∷◌, length, length-take,
  length-map, length-replicate, take, map, Option, none, some, replicate,
}
use hdu_riscv_lab.Bytes.{to_bytes, array_bytes, array_of, splice, AllBelow}
use hdu_riscv_lab.Bytes.Laws.{
  length-to_bytes, to_bytes-AllBelow, to_bytes-of_bytes_at, of_bytes-lt_within, length-splice,
  slice-splice, splice-AllBelow, AllBelow-take,
}
use hdu_riscv_lab.Bytes.Arrays.{
  length-array_bytes, length-array_of, array_bytes-array_of, array_bytes-AllBelow,
  array_of-AllBelow,
}
use hdu_riscv_lab.Clint.{Clint, init, do_read, do_write, tick}

module _ (nr_hart : ℕ) where
  -- The registers have their sizes, and an msip register holds a single bit.
  pub record IsWf (c : Clint) : Type 0 where
    pub time_fits : c.mtime < 2 ^ 64
    pub cmp_count : length c.mtimecmp ≡ nr_hart
    pub cmp_fits : AllBelow (2 ^ 64) c.mtimecmp
    pub sip_count : length c.msip ≡ nr_hart
    pub sip_fits : AllBelow 2 c.msip

  replicate-AllBelow : (n k : ℕ) → 0 < k → AllBelow k (replicate n 0)
  replicate-AllBelow zero k h = tt
  replicate-AllBelow (suc n) k h = (h, replicate-AllBelow n k h)

  pub init-IsWf : IsWf (init nr_hart)
  unfolding init
  init-IsWf = record {
    time_fits = omega arith;
    cmp_count = length-replicate nr_hart 0;
    cmp_fits = replicate-AllBelow nr_hart (2 ^ 64) (omega arith);
    sip_count = length-replicate nr_hart 0;
    sip_fits = replicate-AllBelow nr_hart 2 (omega arith);
  }

  tick-IsWf : (c : Clint) → IsWf c → IsWf (tick nr_hart c)
  unfolding tick
  tick-IsWf c w = record {
    time_fits = omega arith;
    cmp_count = w.cmp_count;
    cmp_fits = w.cmp_fits;
    sip_count = w.sip_count;
    sip_fits = w.sip_fits;
  }

  map_mod-AllBelow : (ws : List ℕ) → AllBelow 2 (map (λ w. w % 2) ws)
  map_mod-AllBelow [] = tt
  map_mod-AllBelow (w ∷ ws) = (omega arith, map_mod-AllBelow ws)

  -- The state after an access that may be refused.
  abbrev pub after : Clint → Option Clint → Clint
  after c none = c
  after c (some c') = c'

  -- A write of bytes whose range does not wrap keeps the registers well-formed, accepted or not.
  pub do_write-IsWf :
      (c : Clint) (start_addr size : ℕ) (buffer : List ℕ)
      → IsWf c
      → start_addr + size < 2 ^ 64
      → AllBelow 256 buffer
      → IsWf (after c (do_write nr_hart c start_addr size buffer))
  unfolding do_write
  do_write-IsWf c start_addr size buffer w fits bytes = ground (
    arith,
    length-take size buffer,
    length-to_bytes 8 c.mtime,
    length-splice (start_addr - 0xbff8) (take size buffer) (to_bytes 8 c.mtime),
    of_bytes-lt_within 8 (splice (start_addr - 0xbff8) (take size buffer) (to_bytes 8 c.mtime)),
    splice-AllBelow 256 (start_addr - 0xbff8) (take size buffer) (to_bytes 8 c.mtime)
        (AllBelow-take 256 size buffer bytes) (to_bytes-AllBelow 8 c.mtime),
    length-array_of 8 nr_hart
        (splice (start_addr - 0x4000) (take size buffer) (array_bytes 8 c.mtimecmp)),
    array_of-AllBelow 8 nr_hart _ (
        splice-AllBelow 256 (start_addr - 0x4000) (take size buffer) (array_bytes 8 c.mtimecmp)
          (AllBelow-take 256 size buffer bytes) (array_bytes-AllBelow 8 c.mtimecmp)),
    length-map (array_of 4 nr_hart (splice start_addr (take size buffer) (array_bytes 4 c.msip)))
        (λ (w : ℕ). w % 2),
    length-array_of 4 nr_hart (splice start_addr (take size buffer) (array_bytes 4 c.msip)),
    map_mod-AllBelow
        (array_of 4 nr_hart (splice start_addr (take size buffer) (array_bytes 4 c.msip))),
  )

  -- A write is accepted exactly where a read is.
  pub do_read-do_write_iff :
      (c : Clint) (start_addr size : ℕ) (buffer : List ℕ)
      → (do_read nr_hart c start_addr size ≡ none)
        ↔ (do_write nr_hart c start_addr size buffer ≡ none)
  unfolding do_read do_write
  do_read-do_write_iff c start_addr size buffer = ground arith

  -- What was written to mtime or to an mtimecmp register is read back, whatever its size.
  pub do_read-do_write :
      (c c' : Clint) (start_addr size : ℕ) (buffer : List ℕ)
      → IsWf c
      → start_addr + size < 2 ^ 64
      → AllBelow 256 buffer
      → size ≤ length buffer
      → 0x4000 ≤ start_addr
      → do_write nr_hart c start_addr size buffer ≡ some c'
      → do_read nr_hart c' start_addr size ≡ some (take size buffer)
  unfolding do_read do_write
  do_read-do_write c c' start_addr size buffer w fits bytes enough high e = ground (
    arith,
    length-take size buffer,
    mtime_bytes,
    to_bytes-of_bytes_at 8 (splice (start_addr - 0xbff8) (take size buffer) (to_bytes 8 c.mtime)),
    length-splice (start_addr - 0xbff8) (take size buffer) (to_bytes 8 c.mtime),
    length-to_bytes 8 c.mtime,
    slice-splice (start_addr - 0xbff8) (take size buffer) (to_bytes 8 c.mtime),
    cmp_bytes,
    array_bytes-array_of 8 nr_hart
        (splice (start_addr - 0x4000) (take size buffer) (array_bytes 8 c.mtimecmp)),
    length-splice (start_addr - 0x4000) (take size buffer) (array_bytes 8 c.mtimecmp),
    length-array_bytes 8 c.mtimecmp,
    slice-splice (start_addr - 0x4000) (take size buffer) (array_bytes 8 c.mtimecmp),
  )
    where
      new_bytes : AllBelow 256 (take size buffer)
      new_bytes = AllBelow-take 256 size buffer bytes

      mtime_bytes :
          AllBelow 256 (splice (start_addr - 0xbff8) (take size buffer) (to_bytes 8 c.mtime))
      mtime_bytes =
          splice-AllBelow 256 (start_addr - 0xbff8) (take size buffer) (to_bytes 8 c.mtime)
            new_bytes (to_bytes-AllBelow 8 c.mtime)

      cmp_bytes :
          AllBelow 256 (splice (start_addr - 0x4000) (take size buffer) (array_bytes 8 c.mtimecmp))
      cmp_bytes =
          splice-AllBelow 256 (start_addr - 0x4000) (take size buffer) (array_bytes 8 c.mtimecmp)
            new_bytes (array_bytes-AllBelow 8 c.mtimecmp)
