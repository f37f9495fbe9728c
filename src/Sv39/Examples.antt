-- ===== src/Sv39/Examples.antt =====
-- A walk over a page table in memory, and the theorems about the TLB on its result.
use hdu_riscv_lab.Prelude.{ℕ, ◌^◌, ◌≡◌, refl, ◌↔◌, true, false, [], ◌∷◌, Option, some, none, ok}
use hdu_riscv_lab.Bytes.{store, to_bytes}
use hdu_riscv_lab.Mem.{Mem}
use hdu_riscv_lab.Mem
use hdu_riscv_lab.Device.{mem, do_read}
use hdu_riscv_lab.Bus.{Bus, locate, prev_upper_bound, pa_read}
use hdu_riscv_lab.Sv39.{
  TlbEntry, Sv39, init, walk, ptw, scan, local_tlb_get, new_entry, refill, local_tlbe_get,
  sfence_vma,
}
use hdu_riscv_lab.Sv39.Lookups.{Reachable, starts, looks_up, local_tlbe_get-ptw}
use hdu_riscv_lab.Sv39.Coherence.{entry_of}
use hdu_riscv_lab.Sv39.Walk.{Translates, ptw_iff}
use hdu_riscv_lab.Sv39.Tlb.{sfence_vma-local_tlb_get}

abbrev zeros : ℕ → ℕ
zeros i = 0

-- The root table: its first entry is a leaf, a page of 1 GiB at 0x80000000.
abbrev tables : Mem
tables = record {
  mem = store zeros 0 (to_bytes 8 0x200000cf);
  mem_size = 0x100;
  allow_warp = false;
  diff_mem_write = false;
  diff_mem = zeros;
  running = true;
}

abbrev bus : Bus
bus = record {
  lr_pa = 0;
  lr_size = 0;
  lr_hart = 0;
  lr_valid = false;
  devices = record { lo = 0x1000; hi = 0x1100; dev = 0; raw_addr = false } ∷ [];
  heap = mem tables ∷ [];
}

abbrev no_devices : Bus
no_devices = record bus { devices = [] }

abbrev blank : TlbEntry
blank = record {
  ppa = 0;
  vpa = 0;
  asid = 0;
  pagesize = 0;
  readable = false;
  writable = false;
  executable = false;
  user = false;
  global = false;
  accessed = false;
  dirty = false;
}

abbrev empty : Sv39
empty = record { random = 0; tlb = blank ∷ blank ∷ [] }

-- Mode 8, address space 0, the root at 0x1000.
abbrev satp : ℕ
satp = 0x8000000000000001

abbrev giga_page : TlbEntry
giga_page = record {
  ppa = 0x80000000;
  vpa = 0;
  asid = 0;
  pagesize = 3;
  readable = true;
  writable = true;
  executable = true;
  user = false;
  global = false;
  accessed = true;
  dirty = true;
}

abbrev filled : Sv39
filled = record { random = 1; tlb = giga_page ∷ blank ∷ [] }

walked : local_tlbe_get 2 empty bus satp 0x12345678 ≡ ok (filled, some giga_page)
unfolding local_tlbe_get refill local_tlb_get scan ptw walk new_entry pa_read locate
    prev_upper_bound do_read Mem.do_read
walked = refl

sfence_vma-local_tlb_get_example :
    local_tlb_get (sfence_vma filled 0x12345678 0) satp 0x12345678 ≡ ok none
sfence_vma-local_tlb_get_example = sfence_vma-local_tlb_get filled satp 0x12345678

-- Before the fence the page is found.
hits : local_tlb_get filled satp 0x12345678 ≡ ok (some 0)
unfolding local_tlb_get scan
hits = refl

-- Two tables: the first entry of the root at 0x1000 points to the table at 0x2000, whose entry 0x91 is
-- a leaf, a page of 2 MiB at 0x80000000.
abbrev two_levels : Bus
two_levels = record bus {
  devices = record { lo = 0x1000; hi = 0x3000; dev = 0; raw_addr = false } ∷ [];
  heap =
      mem record tables {
        mem = store (store zeros 0x1000 (to_bytes 8 0x801)) 0x488 (to_bytes 8 0x200000cf);
        mem_size = 0x2000;
      }
      ∷ [];
}

walked_twice : ptw two_levels satp 0x12345678 ≡ ok (some (0x200000cf, 2 ^ 21))
unfolding ptw walk pa_read locate prev_upper_bound do_read Mem.do_read
walked_twice = refl

ptw_iff_example :
    (ptw two_levels satp 0x12345678 ≡ ok (some (0x200000cf, 2 ^ 21)))
    ↔ Translates two_levels 0x12345678 satp 0x200000cf (2 ^ 21)
ptw_iff_example = ptw_iff two_levels 0x12345678 satp 0x200000cf (2 ^ 21)

-- The tables that the walk followed.
led : Translates two_levels 0x12345678 satp 0x200000cf (2 ^ 21)
led = (ptw_iff two_levels 0x12345678 satp 0x200000cf (2 ^ 21)).0 walked_twice

-- A lookup that fills the TLB, and one of another address in the same page that hits.
abbrev started : Sv39
started = init (giga_page ∷ blank ∷ [])

abbrev mega_page : TlbEntry
mega_page = new_entry satp 0x12345678 0x200000cf (2 ^ 21)

abbrev warm : Sv39
warm = record { random = 1; tlb = mega_page ∷ blank ∷ [] }

filled_again : local_tlbe_get 2 started two_levels satp 0x12345678 ≡ ok (warm, some mega_page)
unfolding local_tlbe_get refill local_tlb_get scan ptw walk init new_entry pa_read locate
    prev_upper_bound do_read Mem.do_read
filled_again = refl

hits_again : local_tlbe_get 2 warm two_levels satp 0x12200000 ≡ ok (warm, some mega_page)
unfolding local_tlbe_get local_tlb_get scan new_entry
hits_again = refl

warm-Reachable : Reachable 2 two_levels satp warm
warm-Reachable = looks_up 0x12345678 (some mega_page) (starts (giga_page ∷ blank ∷ [])) filled_again

local_tlbe_get-ptw_example :
    (found : Option (ℕ × ℕ)) × (ptw two_levels satp 0x12200000 ≡ ok found)
    × (some mega_page ≡ entry_of satp 0x12200000 found)
local_tlbe_get-ptw_example =
    local_tlbe_get-ptw 2 two_levels satp 0x12200000 warm warm (some mega_page) warm-Reachable
      hits_again
