-- ===== src/Sv39/Lookups.antt =====
-- The lookups of difftest/src/rv_sv39.hpp from the constructor on, while the page tables in memory and
-- the register `satp` stay as they are.
use hdu_riscv_lab.Prelude.{
  ℕ, ◌≡◌, inl, inr, refl, if◌then◌else◌, List, [], ◌∷◌, map, Option, ok, Bool-cases,
}
use hdu_riscv_lab.Bus.{Bus}
use hdu_riscv_lab.Sv39.{TlbEntry, Sv39, ptw, init, local_tlbe_get, sfence_vma, invalidated, fenced}
use hdu_riscv_lab.Sv39.Coherence.{AllCoherent, entry_of, local_tlbe_get-IsWalked}

module _ (nr_tlb_entry : ℕ) (b : Bus) (satp : ℕ) where
  -- The constructor, and the calls that returned.
  pub data Reachable : Sv39 → Type 0 where
    starts : (held : List TlbEntry) → Reachable (init held)
    looks_up :
        {s s' : Sv39} (va : ℕ) (res : Option TlbEntry)
        → Reachable s
        → local_tlbe_get nr_tlb_entry s b satp va ≡ ok (s', res)
        → Reachable s'
    fences : {s : Sv39} (vaddr asid : ℕ) → Reachable s → Reachable (sfence_vma s vaddr asid)

  invalidated-AllCoherent : (es : List TlbEntry) → AllCoherent b satp (map invalidated es)
  invalidated-AllCoherent [] = tt
  invalidated-AllCoherent (e ∷ es) = (inl refl, invalidated-AllCoherent es)

  fenced-AllCoherent :
      (vaddr asid : ℕ) (es : List TlbEntry)
      → AllCoherent b satp es
      → AllCoherent b satp (map (λ e. if fenced vaddr asid e then invalidated e else e) es)
  fenced-AllCoherent vaddr asid [] c = tt
  fenced-AllCoherent vaddr asid (e ∷ es) (held, c) = (
    elim (Bool-cases (fenced vaddr asid e)) [
      | inl drops ↦ rw drops (inl refl)
      | inr keeps ↦ rw keeps held
    ],
    fenced-AllCoherent vaddr asid es c,
  )

  Reachable-AllCoherent : {s : Sv39} → Reachable s → AllCoherent b satp s.tlb
  unfolding init sfence_vma
  Reachable-AllCoherent (starts held) = invalidated-AllCoherent held
  Reachable-AllCoherent (looks_up {s} {s'} va res r h) =
      (local_tlbe_get-IsWalked b satp nr_tlb_entry va s s' res (Reachable-AllCoherent r) h).1
  Reachable-AllCoherent (fences {s} vaddr asid r) =
      fenced-AllCoherent vaddr asid s.tlb (Reachable-AllCoherent r)

  -- The TLB is transparent: whatever lookups and fences came since the constructor, a lookup that
  -- returns gives the entry that a walk of the tables gives, and none where the walk finds none, if
  -- the tables and `satp` have stayed the same.
  pub local_tlbe_get-ptw :
      (va : ℕ) (s s' : Sv39) (res : Option TlbEntry)
      → Reachable s
      → local_tlbe_get nr_tlb_entry s b satp va ≡ ok (s', res)
      → (found : Option (ℕ × ℕ)) × (ptw b satp va ≡ ok found) × (res ≡ entry_of satp va found)
  local_tlbe_get-ptw va s s' res r h =
      (local_tlbe_get-IsWalked b satp nr_tlb_entry va s s' res (Reachable-AllCoherent r) h).0
