-- ===== src/Sv39/Walk.antt =====
-- The page tables that the loop of `ptw` (difftest/src/rv_sv39.hpp) follows, as a relation on the
-- addresses of the tables.
use hdu_riscv_lab.Prelude.{
  arith, ℕ, zero, suc, ◌*◌, ◌%◌, ◌^◌, ◌≤◌, ◌≡◌, refl, sym, ◌∙◌, inl, inr, true, false, ◌==◌,
  Bool-cases, Option-cases, ◌⊎◌, ◌/◌, ◌+◌, List, ap, subst, some, ok, >>=-returns, ◌↔◌,
}
use hdu_riscv_lab.Word.{add64}
use hdu_riscv_lab.Bytes.{of_bytes}
use hdu_riscv_lab.Bus.{Bus, pa_read}
use hdu_riscv_lab.Csr.{satp_ppn, satp_mode}
use hdu_riscv_lab.Sv39.{vpn, pte_pa, pte_bad, pte_leaf, misaligned_superpage, walk, ptw}

-- What the Sv39 scheme asks of an entry that is in use: V is set, W only with R, and the bits 54 to 62,
-- which are reserved or are of the memory types, are 0.
abbrev pub InUse : ℕ → Type 0
InUse pte = (pte % 2 ≡ 1) × ((pte / 2 % 2 ≡ 1) ⊎ (pte / 4 % 2 ≡ 0)) × (pte / 2 ^ 54 % 2 ^ 9 ≡ 0)

-- It is a leaf if R or X is set, and points to a table otherwise.
abbrev pub IsLeaf : ℕ → Type 0
IsLeaf pte = (pte / 2 % 2 ≡ 1) ⊎ (pte / 8 % 2 ≡ 1)

abbrev pub IsPointer : ℕ → Type 0
IsPointer pte = (pte / 2 % 2 ≡ 0) × (pte / 8 % 2 ≡ 0)

-- The address in an entry: its 44 bits from bit 10 are the number of a page.
abbrev pub address : ℕ → ℕ
address pte = pte / 2 ^ 10 % 2 ^ 44 * 2 ^ 12

-- The 9 bits of `va` that choose the entry in a table of level `i`.
abbrev pub index : ℕ → ℕ → ℕ
index i va = va / 2 ^ (12 + 9 * i) % 2 ^ 9

pte_bad-InUse : (pte : ℕ) → pte_bad pte ≡ false → InUse pte
pte_bad-InUse pte h = (ground arith, ground arith, ground arith)

InUse-pte_bad : (pte : ℕ) → InUse pte → pte_bad pte ≡ false
InUse-pte_bad pte (valid, inl reads, zeros) = ground arith
InUse-pte_bad pte (valid, inr no_write, zeros) = ground arith

pte_leaf-IsLeaf : (pte : ℕ) → pte_leaf pte ≡ true → IsLeaf pte
pte_leaf-IsLeaf pte h = ground arith

IsLeaf-pte_leaf : (pte : ℕ) → IsLeaf pte → pte_leaf pte ≡ true
IsLeaf-pte_leaf pte h = ground arith

pte_leaf-IsPointer : (pte : ℕ) → pte_leaf pte ≡ false → IsPointer pte
pte_leaf-IsPointer pte h = (ground arith, ground arith)

IsPointer-pte_leaf : (pte : ℕ) → IsPointer pte → pte_leaf pte ≡ false
IsPointer-pte_leaf pte h = ground arith

pte_pa-address : (pte : ℕ) → pte_pa pte ≡ address pte
pte_pa-address pte = omega arith

vpn-index : (i va : ℕ) → i ≤ 2 → vpn i va ≡ index i va
vpn-index zero va p = refl
vpn-index (suc zero) va p = refl
vpn-index (suc (suc zero)) va p = refl
vpn-index (suc (suc (suc i))) va p = absurd (omega arith)

-- The test for a leaf of level `i` is that the page starts at a multiple of its size.
leaf-aligned_iff :
    (i pte : ℕ)
    → i ≤ 2
    → (misaligned_superpage i pte ≡ false) ↔ (address pte % (2 ^ 12 * 2 ^ (9 * i)) ≡ 0)
leaf-aligned_iff zero pte p = (λ h. omega arith, λ h. ground arith)
leaf-aligned_iff (suc zero) pte p = (λ h. ground arith, λ h. ground arith)
leaf-aligned_iff (suc (suc zero)) pte p = (λ h. ground arith, λ h. ground arith)
leaf-aligned_iff (suc (suc (suc i))) pte p = absurd (omega arith)

module _ (b : Bus) (va : ℕ) where
  -- The entry for `va` in the table of level `i` at `pt_addr`.
  abbrev pub Holds : ℕ → ℕ → ℕ → Type 0
  Holds pt_addr i pte =
      (bytes : List ℕ) × (pa_read b (add64 pt_addr (index i va * 8)) 8 ≡ ok (some bytes))
      × (of_bytes bytes ≡ pte)

  -- The tables lead from the one of level `i - 1` at `pt_addr` to the leaf `pte` of a page of `size`.
  pub data Leads (pte size : ℕ) : ℕ → ℕ → Type 0 where
    leaf :
        {pt_addr i : ℕ}
        → Holds pt_addr i pte
        → InUse pte
        → IsLeaf pte
        → 2 ^ 12 * 2 ^ (9 * i) ≡ size
        → address pte % size ≡ 0
        → Leads pte size pt_addr (suc i)
    points :
        {pt_addr i : ℕ} (entry : ℕ)
        → Holds pt_addr i entry
        → InUse entry
        → IsPointer entry
        → Leads pte size (address entry) i
        → Leads pte size pt_addr (suc i)

  reads_at :
      (pt_addr i : ℕ) (bytes : List ℕ)
      → suc i ≤ 3
      → pa_read b (add64 pt_addr (vpn i va * 8)) 8 ≡ ok (some bytes)
      → pa_read b (add64 pt_addr (index i va * 8)) 8 ≡ ok (some bytes)
  reads_at pt_addr i bytes p h = rw (sym (vpn-index i va (omega arith))) h

  reads_back :
      (pt_addr i : ℕ) (bytes : List ℕ)
      → suc i ≤ 3
      → pa_read b (add64 pt_addr (index i va * 8)) 8 ≡ ok (some bytes)
      → pa_read b (add64 pt_addr (vpn i va * 8)) 8 ≡ ok (some bytes)
  reads_back pt_addr i bytes p h = rw (vpn-index i va (omega arith)) h

  module _ (pte size : ℕ) where
    pub walk-Leads :
        (pt_addr i : ℕ)
        → i ≤ 3
        → walk b va pt_addr i ≡ ok (some (pte, size))
        → Leads pte size pt_addr i
    unfolding walk
    walk-Leads pt_addr zero p h = cc
    walk-Leads pt_addr (suc i) p h =
        let (res, next, read) = >>=-returns (pa_read b (add64 pt_addr (vpn i va * 8)) 8) _ h in
        elim (Option-cases res) [
          | inl nothing ↦ ground arith
          | inr (bytes, there) ↦
              let entry = of_bytes bytes in
              elim (Bool-cases (pte_bad entry)) [
                | inl bad ↦ ground arith
                | inr good ↦ elim (Bool-cases (pte_leaf entry)) [
                  | inl is_leaf ↦
                      let right : misaligned_superpage i entry ≡ false = ground arith in
                      let same : entry ≡ pte = ground arith in
                      let whole : 2 ^ 12 * 2 ^ (9 * i) ≡ size = ground arith in
                      leaf (bytes, reads_at pt_addr i bytes p (read ∙ ap ok there), same)
                        (rw (sym same) (pte_bad-InUse entry good))
                        (rw (sym same) (pte_leaf-IsLeaf entry is_leaf)) whole
                        (rw (sym same)
                          (rw (sym whole) ((leaf-aligned_iff i entry (omega arith)).0 right)))
                  | inr table ↦
                      let next_table = walk-Leads (pte_pa entry) i (omega arith) (ground arith) in
                      points entry (bytes, reads_at pt_addr i bytes p (read ∙ ap ok there), refl)
                        (pte_bad-InUse entry good) (pte_leaf-IsPointer entry table)
                        (subst (λ at. Leads pte size at i) (pte_pa-address entry) next_table)
                ]
              ]
        ]

    pub Leads-walk :
        (pt_addr i : ℕ)
        → i ≤ 3
        → Leads pte size pt_addr i
        → walk b va pt_addr i ≡ ok (some (pte, size))
    unfolding walk
    Leads-walk pt_addr i p (leaf {i = level} (bytes, at, same) used is_leaf whole aligned) =
        let right = (leaf-aligned_iff level pte (omega arith)).1 (rw whole aligned) in
        let read = reads_back pt_addr level bytes p at in
        let good = InUse-pte_bad pte used in let last = IsLeaf-pte_leaf pte is_leaf in ground arith
    Leads-walk pt_addr i p (points {i = level} entry (bytes, at, same) used table rest) =
        let read = reads_back pt_addr level bytes p at in
        let good = InUse-pte_bad entry used in
        let more = IsPointer-pte_leaf entry table in
        let found =
          subst (λ next. walk b va next level ≡ ok (some (pte, size))) (sym (pte_pa-address entry))
            (Leads-walk _ _ (omega arith) rest) in
        ground arith

  -- The tables of the register `satp`, in mode 8, lead to the leaf `pte` of a page of `size`.
  abbrev pub Translates : ℕ → ℕ → ℕ → Type 0
  Translates satp pte size = (satp_mode satp ≡ 8) × Leads pte size (satp_ppn satp * 2 ^ 12) 3

  -- The walk returns a leaf and the size of its page exactly if `satp` is in mode 8 and its tables lead
  -- to that leaf: at most three entries for `va` lead to it, each is valid, not writable without being
  -- readable, and has its bits 54 to 62 at 0; all but the last have neither R nor X and point to the
  -- next table, the last has one of them, and its page starts at a multiple of its size.
  pub ptw_iff :
      (satp pte size : ℕ) → (ptw b satp va ≡ ok (some (pte, size))) ↔ Translates satp pte size
  unfolding ptw
  ptw_iff satp pte size = elim (Bool-cases (satp_mode satp == 8)) [
    | inr off ↦ (λ h. ground arith, λ t. ground arith)
    | inl on ↦ (
      λ h. (
        ground arith,
        walk-Leads pte size (satp_ppn satp * 2 ^ 12) 3 (omega arith) (ground arith),
      ),
      λ t.
          let found = Leads-walk pte size (satp_ppn satp * 2 ^ 12) 3 (omega arith) t.1 in
          ground arith,
    )
  ]
