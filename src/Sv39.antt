-- ===== src/Sv39.antt =====
-- `rv_sv39` of difftest/src/rv_sv39.hpp: the page-table walk and the TLB of `nr_tlb_entry` entries.
-- A `sv39_pte` is a word; a pointer to a TLB entry is the index of the entry, and NULL is `none`.
-- The code under MM_SANITIZER, which is not compiled, is left out.
pub mod Tlb
pub mod Walk
pub mod Pages
pub mod Coherence
pub mod Lookups
pub mod Examples
use hdu_riscv_lab.Prelude.{
  ℕ, zero, suc, ◌+◌, ◌-◌, ◌*◌, ◌/◌, ◌%◌, ◌^◌, Bool, true, false, not, ◌&&◌, ◌||◌, ◌==◌,
  if◌then◌else◌, List, [], ◌∷◌, map, set, get_elem?, Option, none, some, Outcome, ok, aborts,
  faults, ◌>>=◌, assert,
}
use hdu_riscv_lab.Word.{add64, get_bits, has_bit}
use hdu_riscv_lab.Bytes.{of_bytes}
use hdu_riscv_lab.Bus.{Bus, pa_read}
use hdu_riscv_lab.Csr.{satp_ppn, satp_asid, satp_mode, nonzero}

pub record TlbEntry : Type 0 where
  pub ppa : ℕ
  pub vpa : ℕ
  pub asid : ℕ
  pub pagesize : ℕ
  pub readable : Bool
  pub writable : Bool
  pub executable : Bool
  pub user : Bool
  pub global : Bool
  pub accessed : Bool
  pub dirty : Bool

pub record Sv39 : Type 0 where
  pub random : ℕ
  pub tlb : List TlbEntry

-- `x & -(1 << k)`.
abbrev pub page_of : ℕ → ℕ → ℕ
page_of x k = x - x % 2 ^ k

-- The constructor, on the entries that the memory held before.
abbrev pub invalidated : TlbEntry → TlbEntry
invalidated e = record e { pagesize = 0 }

unfoldable pub init : List TlbEntry → Sv39
init tlb = record { random = 0; tlb = map invalidated tlb }

-- The fields of a `sv39_pte`.
abbrev pub ppn0 : ℕ → ℕ
ppn0 = get_bits 10 9

abbrev pub ppn1 : ℕ → ℕ
ppn1 = get_bits 19 9

abbrev pub ppn2 : ℕ → ℕ
ppn2 = get_bits 28 26

abbrev pub reserved : ℕ → ℕ
reserved = get_bits 54 7

abbrev pub pbmt : ℕ → ℕ
pbmt = get_bits 61 2

-- The address that a `sv39_pte` holds; its parts do not overlap, so `|` is `+`.
abbrev pub pte_pa : ℕ → ℕ
pte_pa pte = ((ppn2 pte * 2 ^ 9 + ppn1 pte) * 2 ^ 9 + ppn0 pte) * 2 ^ 12

-- The fields of a `sv39_va`: `vpn_2`, `vpn_1` or `vpn_0` by the level, and `blank`.
abbrev pub vpn : ℕ → ℕ → ℕ
vpn i va =
    if i == 2 then get_bits 30 9 va else if i == 1 then get_bits 21 9 va else get_bits 12 9 va

abbrev pub va_blank : ℕ → ℕ
va_blank = get_bits 39 25

-- What a walk makes of a table entry: a fault, a leaf, or the next table.
abbrev pub pte_bad : ℕ → Bool
pte_bad pte =
    not (has_bit pte 0)
    || (not (has_bit pte 1) && has_bit pte 2)
    || nonzero (reserved pte)
    || nonzero (pbmt pte)

abbrev pub pte_leaf : ℕ → Bool
pte_leaf pte = has_bit pte 1 || has_bit pte 3

abbrev pub misaligned_superpage : ℕ → ℕ → Bool
misaligned_superpage i pte =
    (i == 2 && (nonzero (ppn1 pte) || nonzero (ppn0 pte))) || (i == 1 && nonzero (ppn0 pte))

-- The loop of `ptw` from level `i - 1` down, on the table at `pt_addr`. The result is the leaf and
-- the size of its page.
unfoldable pub walk : Bus → ℕ → ℕ → ℕ → Outcome (Option (ℕ × ℕ))
walk b va pt_addr zero = ok none
walk b va pt_addr (suc i) = pa_read b (add64 pt_addr (vpn i va * 8)) 8 >>= λ res. elim res [
  | none ↦ ok none
  | some bytes ↦
      let pte = of_bytes bytes in
      let rest = walk b va (pte_pa pte) i in
      if pte_bad pte
      then ok none
      else if pte_leaf pte
      then (if misaligned_superpage i pte then ok none else ok (some (pte, 2 ^ 12 * 2 ^ (9 * i))))
      else rest
]

unfoldable pub ptw : Bus → ℕ → ℕ → Outcome (Option (ℕ × ℕ))
ptw b satp va = if satp_mode satp == 8 then walk b va (satp_ppn satp * 2 ^ 12) 3 else ok none

-- The test of `local_tlb_get` on one entry.
abbrev pub page_hit : TlbEntry → ℕ → Bool
page_hit e va =
    if e.pagesize == 1
    then page_of va 12 == e.vpa
    else if e.pagesize == 2
    then page_of va 21 == e.vpa
    else if e.pagesize == 3
    then page_of va 30 == e.vpa
    else false

abbrev pub tlb_hit : ℕ → ℕ → TlbEntry → Bool
tlb_hit satp va e = (e.asid == satp_asid satp || e.global) && page_hit e va

-- The loop of `local_tlb_get` from index `i`; a second hit fails an assertion.
unfoldable pub scan : ℕ → ℕ → ℕ → Option ℕ → List TlbEntry → Outcome (Option ℕ)
scan satp va i res [] = ok res
scan satp va i res (e ∷ es) =
    let hit = tlb_hit satp va e in
    let rest = scan satp va (suc i) (if hit then some i else res) es in
    elim res [ none ↦ rest | some j ↦ if hit then aborts else rest ]

unfoldable pub local_tlb_get : Sv39 → ℕ → ℕ → Outcome (Option ℕ)
local_tlb_get s satp va = scan satp va 0 none s.tlb

-- The entry that a walk's result makes.
abbrev pub size_code : ℕ → ℕ
size_code page_size = if page_size == 2 ^ 12 then 1 else if page_size == 2 ^ 21 then 2 else 3

abbrev pub page_start : ℕ → ℕ → ℕ
page_start page_size va =
    if page_size == 2 ^ 12
    then va - va % 2 ^ 12
    else if page_size == 2 ^ 21
    then va - va % 2 ^ 21
    else va - va % 2 ^ 30

unfoldable pub new_entry : ℕ → ℕ → ℕ → ℕ → TlbEntry
new_entry satp va pte page_size = record {
  ppa = pte_pa pte;
  vpa = page_start page_size va;
  asid = satp_asid satp;
  pagesize = size_code page_size;
  readable = has_bit pte 1;
  writable = has_bit pte 2;
  executable = has_bit pte 3;
  user = has_bit pte 4;
  global = has_bit pte 5;
  accessed = has_bit pte 6;
  dirty = has_bit pte 7;
}

-- The address is the sign extension of its 39 lower bits.
abbrev pub canonical : ℕ → Bool
canonical va =
    (va_blank va == 2 ^ 25 - 1 && nonzero (vpn 2 va / 2 ^ 8))
    || (va_blank va == 0 && (vpn 2 va / 2 ^ 8 == 0))

-- `assert(local_tlb_get(satp, va) == res)`.
abbrev pub found_at : Option ℕ → ℕ → Bool
found_at none j = false
found_at (some i) j = i == j

abbrev pub write_back : ℕ → Sv39 → TlbEntry → Sv39
write_back nr_tlb_entry s e = record {
  random = (s.random + 1) % nr_tlb_entry;
  tlb = set s.tlb s.random e;
}

-- The slow path: the walk, and its result written to the entry `random`.
unfoldable pub refill : ℕ → Sv39 → Bus → ℕ → ℕ → Outcome (Sv39 × Option TlbEntry)
refill nr_tlb_entry s b satp va = ptw b satp va >>= λ leaf. elim leaf [
  | none ↦ ok (s, none)
  | some r ↦
      let e = new_entry satp va r.0 r.1 in
      let s' = write_back nr_tlb_entry s e in
      local_tlb_get s' satp va >>= λ again. assert (found_at again s.random) (ok (s', some e))
]

unfoldable pub local_tlbe_get : ℕ → Sv39 → Bus → ℕ → ℕ → Outcome (Sv39 × Option TlbEntry)
local_tlbe_get nr_tlb_entry s b satp va = assert (canonical va) (
    local_tlb_get s satp va >>= λ res. elim res [
      | some i ↦ ok (s, get_elem? s.tlb i)
      | none ↦ refill nr_tlb_entry s b satp va
    ])

-- What `sfence_vma` drops.
abbrev pub fenced : ℕ → ℕ → TlbEntry → Bool
fenced vaddr asid e =
    (e.asid == asid || asid == 0)
    && (vaddr == 0
        || (e.pagesize == 1 && page_of e.vpa 12 == page_of vaddr 12)
        || (e.pagesize == 2 && page_of e.vpa 21 == page_of vaddr 21)
        || (e.pagesize == 3 && page_of e.vpa 30 == page_of vaddr 30))

unfoldable pub sfence_vma : Sv39 → ℕ → ℕ → Sv39
sfence_vma s vaddr asid = record s {
  tlb = map (λ e. if fenced vaddr asid e then invalidated e else e) s.tlb;
}
