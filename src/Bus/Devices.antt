-- ===== src/Bus/Devices.antt =====
-- What the devices of difftest/src hold: bytes, and reads and writes keep them.
use hdu_riscv_lab.Prelude.{
  ℕ, zero, suc, ◌-◌, ◌%◌, ◌<◌, leb, List, [], ◌∷◌, set, take, get_elem?, Option, none, some, IfSome,
  IfSome-if,
}
use hdu_riscv_lab.Word.{add64}
use hdu_riscv_lab.Bytes.{AllBelow}
use hdu_riscv_lab.Bytes.Laws.{to_bytes-AllBelow, AllBelow-take}
use hdu_riscv_lab.Bytes.Arrays.{array_bytes-AllBelow}
use hdu_riscv_lab.Bytes.Reads.{IsRead, load-IsRead, slice-IsRead, store-byte}
use hdu_riscv_lab.Mem.{Mem}
use hdu_riscv_lab.Mem
use hdu_riscv_lab.Clint
use hdu_riscv_lab.Device.{Device, mem, clint, do_read, do_write}

-- A memory holds bytes. The registers of a CLINT are read byte by byte.
abbrev pub HoldsBytes : Device → Type 0
HoldsBytes (mem m) = (i : ℕ) → m.mem i < 256
HoldsBytes (clint nr_hart c) = Unit {0}

abbrev pub AllHoldBytes : List Device → Type 0
AllHoldBytes [] = Unit {0}
AllHoldBytes (d ∷ ds) = HoldsBytes d × AllHoldBytes ds

pub do_read-IsRead :
    (d : Device) (at size : ℕ) → HoldsBytes d → IfSome (IsRead size) (do_read d at size)
unfolding do_read Mem.do_read Clint.do_read
do_read-IsRead (mem m) at size h =
    IfSome-if (IsRead size) (leb (add64 at size) m.mem_size) _ _ (load-IsRead m.mem at size h) (
      IfSome-if (IsRead size) m.allow_warp _ _
        (IfSome-if (IsRead size) (leb (add64 (at % m.mem_size) size) m.mem_size) _ _
          (load-IsRead m.mem (at % m.mem_size) size h) tt)
        tt)
do_read-IsRead (clint nr_hart c) at size h =
    IfSome-if (IsRead size) (leb 0x4000 at) _ _
      (IfSome-if (IsRead size) (Clint.in_mtime nr_hart at size) _ _
        (slice-IsRead (at - 0xbff8) size _ (to_bytes-AllBelow 8 c.mtime))
        (IfSome-if (IsRead size) (Clint.in_mtimecmp nr_hart at size) _ _
          (slice-IsRead (at - 0x4000) size _ (array_bytes-AllBelow 8 c.mtimecmp)) tt))
      (IfSome-if (IsRead size) (Clint.in_msip nr_hart at size) _ _
        (slice-IsRead at size _ (array_bytes-AllBelow 4 c.msip)) tt)

abbrev IsStored : Option Mem → Type 0
IsStored = IfSome (λ m'. HoldsBytes (mem m'))

write_at-HoldsBytes :
    (m : Mem) (at size : ℕ) (buffer : List ℕ)
    → HoldsBytes (mem m)
    → AllBelow 256 buffer
    → HoldsBytes (mem (Mem.write_at m at size buffer))
unfolding Mem.write_at
write_at-HoldsBytes m at size buffer h g =
    store-byte m.mem at (take size buffer) h (AllBelow-take 256 size buffer g)

mem_write-HoldsBytes :
    (m : Mem) (at size : ℕ) (buffer : List ℕ)
    → HoldsBytes (mem m)
    → AllBelow 256 buffer
    → IsStored (Mem.do_write m at size buffer)
unfolding Mem.do_write
mem_write-HoldsBytes m at size buffer h g =
    IfSome-if (λ m'. HoldsBytes (mem m')) (leb (add64 at size) m.mem_size) _ _
      (write_at-HoldsBytes m at size buffer h g)
      (IfSome-if (λ m'. HoldsBytes (mem m')) m.allow_warp _ _
        (IfSome-if (λ m'. HoldsBytes (mem m')) (leb (add64 (at % m.mem_size) size) m.mem_size) _ _
          (write_at-HoldsBytes m (at % m.mem_size) size buffer h g) tt)
        tt)

pub do_write-HoldsBytes :
    (d : Device) (at size : ℕ) (buffer : List ℕ)
    → HoldsBytes d
    → AllBelow 256 buffer
    → IfSome HoldsBytes (do_write d at size buffer)
unfolding do_write
do_write-HoldsBytes (mem m) at size buffer h g =
    from (Mem.do_write m at size buffer) (mem_write-HoldsBytes m at size buffer h g)
  where
    from :
        (o : Option Mem)
        → IsStored o
        → IfSome HoldsBytes (elim o [ none ↦ none | some m' ↦ some (mem m') ])
    from none w = tt
    from (some m') w = w
do_write-HoldsBytes (clint nr_hart c) at size buffer h g =
    from (Clint.do_write nr_hart c at size buffer)
  where
    from :
        (o : Option Clint.Clint)
        → IfSome HoldsBytes (elim o [ none ↦ none | some c' ↦ some (clint nr_hart c') ])
    from none = tt
    from (some c') = tt

pub get_elem?-HoldsBytes :
    (ds : List Device) (i : ℕ) → AllHoldBytes ds → IfSome HoldsBytes (get_elem? ds i)
get_elem?-HoldsBytes [] i h = tt
get_elem?-HoldsBytes (d ∷ ds) zero (h, hs) = h
get_elem?-HoldsBytes (d ∷ ds) (suc i) (h, hs) = get_elem?-HoldsBytes ds i hs

pub set-AllHoldBytes :
    (ds : List Device) (i : ℕ) (d : Device)
    → AllHoldBytes ds
    → HoldsBytes d
    → AllHoldBytes (set ds i d)
set-AllHoldBytes [] i d h g = tt
set-AllHoldBytes (e ∷ ds) zero d (h, hs) g = (g, hs)
set-AllHoldBytes (e ∷ ds) (suc i) d (h, hs) g = (h, set-AllHoldBytes ds i d hs g)
