-- ===== src/Sv39/Coherence.antt =====
-- The TLB of difftest/src/rv_sv39.hpp against the page tables: a lookup gives what a walk would give.
use hdu_riscv_lab.Prelude.{
  arith, ℕ, zero, suc, ◌+◌, ◌*◌, ◌/◌, ◌^◌, ◌<◌, ◌≡◌, refl, sym, ◌∙◌, subst, ap, inl, inr, ◌⊎◌, true,
  Bool-cases, Option-cases, List, [], ◌∷◌, set, get_elem?, Option, none, some, ok, >>=-returns,
}
use hdu_riscv_lab.Bus.{Bus}
use hdu_riscv_lab.Sv39.{
  TlbEntry, Sv39, ptw, scan, local_tlb_get, local_tlbe_get, refill, new_entry, write_back, tlb_hit,
  page_hit, page_start, canonical, found_at,
}
use hdu_riscv_lab.Sv39.Tlb.{scan-some}
use hdu_riscv_lab.Sv39.Pages.{Leads-level, ptw_same}
use hdu_riscv_lab.Sv39.Walk.{ptw_iff}

-- The result of a walk as an entry.
abbrev pub entry_of : ℕ → ℕ → Option (ℕ × ℕ) → Option TlbEntry
entry_of satp va none = none
entry_of satp va (some r) = some (new_entry satp va r.0 r.1)

module _ (b : Bus) (satp : ℕ) where
  -- An entry that is not in use, or that a walk of these tables makes.
  abbrev pub IsCoherent : TlbEntry → Type 0
  IsCoherent e =
      (e.pagesize ≡ 0)
      ⊎ ((va pte size : ℕ) × (ptw b satp va ≡ ok (some (pte, size)))
          × (e ≡ new_entry satp va pte size))

  abbrev pub AllCoherent : List TlbEntry → Type 0
  AllCoherent [] = Unit {0}
  AllCoherent (e ∷ es) = IsCoherent e × AllCoherent es

  AllCoherent-get_elem? :
      (es : List TlbEntry) (i : ℕ) (e : TlbEntry)
      → AllCoherent es
      → get_elem? es i ≡ some e
      → IsCoherent e
  AllCoherent-get_elem? [] i e c h = cc
  AllCoherent-get_elem? (x ∷ es) zero e (held, c) h =
      (let same : x ≡ e = cc in subst IsCoherent same held)
  AllCoherent-get_elem? (x ∷ es) (suc i) e (held, c) h = AllCoherent-get_elem? es i e c h

  AllCoherent-set :
      (es : List TlbEntry) (i : ℕ) (e : TlbEntry)
      → AllCoherent es
      → IsCoherent e
      → AllCoherent (set es i e)
  AllCoherent-set [] i e c h = tt
  AllCoherent-set (x ∷ es) zero e (held, c) h = (h, c)
  AllCoherent-set (x ∷ es) (suc i) e (held, c) h = (held, AllCoherent-set es i e c h)

  -- What a scan finds is an entry of the list that matches.
  scan-hit :
      (va i j : ℕ) (es : List TlbEntry)
      → scan satp va i none es ≡ ok (some j)
      → (k : ℕ) × (e : TlbEntry) × (j ≡ i + k)
        × (get_elem? es k ≡ some e)
        × (tlb_hit satp va e ≡ true)
  unfolding scan
  scan-hit va i j [] h = cc
  scan-hit va i j (e ∷ es) h = elim (Bool-cases (tlb_hit satp va e)) [
    | inl hit ↦ (zero, e, ground (arith, scan-some satp va (suc i) i es (rw hit at h)), refl, hit)
    | inr miss ↦
        let (k, found, place, there, hit) = scan-hit va (suc i) j es (rw miss at h) in
        (suc k, found, omega arith, there, hit)
  ]

  -- The sizes that a walk returns.
  ptw-size :
      (va pte size : ℕ)
      → ptw b satp va ≡ ok (some (pte, size))
      → (size ≡ 2 ^ 12) ⊎ (size ≡ 2 ^ 21) ⊎ (size ≡ 2 ^ 30)
  ptw-size va pte size h =
      let (j, below, whole) = Leads-level b pte size va _ 3 ((ptw_iff b va satp pte size).0 h).1 in
      by_level j below whole
    where
      by_level :
          (j : ℕ)
          → j < 3
          → size ≡ 2 ^ 12 * 2 ^ (9 * j)
          → (size ≡ 2 ^ 12) ⊎ (size ≡ 2 ^ 21) ⊎ (size ≡ 2 ^ 30)
      by_level zero p e = inl e
      by_level (suc zero) p e = inr (inl e)
      by_level (suc (suc zero)) p e = inr (inr e)
      by_level (suc (suc (suc j))) p e = absurd (omega arith)

  -- An address that the entry of a walk matches is in its page.
  page_hit-same :
      (va va' pte size : ℕ)
      → (size ≡ 2 ^ 12) ⊎ (size ≡ 2 ^ 21) ⊎ (size ≡ 2 ^ 30)
      → page_hit (new_entry satp va pte size) va' ≡ true
      → (va / size ≡ va' / size) × (page_start size va ≡ page_start size va')
  unfolding new_entry
  page_hit-same va va' pte size (inl e) h = (let hit = rw e at h in rw e (ground arith))
  page_hit-same va va' pte size (inr (inl e)) h = (let hit = rw e at h in rw e (ground arith))
  page_hit-same va va' pte size (inr (inr e)) h = (let hit = rw e at h in rw e (ground arith))

  -- The walk of an address that a coherent entry matches gives that entry.
  hit-ptw :
      (va : ℕ) (e : TlbEntry)
      → IsCoherent e
      → tlb_hit satp va e ≡ true
      → (r : ℕ × ℕ) × (ptw b satp va ≡ ok (some r)) × (e ≡ new_entry satp va r.0 r.1)
  unfolding new_entry
  hit-ptw va e (inl unused) hit = absurd (ground arith)
  hit-ptw va e (inr (va0, pte, size, walked, made)) hit =
      let in_page : page_hit (new_entry satp va0 pte size) va ≡ true =
        subst (λ x. page_hit x va ≡ true) made (ground arith) in
      let (same, start) = page_hit-same va0 va pte size (ptw-size va0 pte size walked) in_page in
      (
        (pte, size),
        ptw_same b satp va0 va pte size same walked,
        made ∙ ap (λ v. record (new_entry satp va0 pte size) { vpa = v }) start,
      )

  -- What a lookup gives, and what it leaves.
  abbrev pub IsWalked : ℕ → Sv39 → Option TlbEntry → Type 0
  IsWalked va s' res =
      ((found : Option (ℕ × ℕ)) × (ptw b satp va ≡ ok found) × (res ≡ entry_of satp va found))
      × AllCoherent s'.tlb

  module _ (nr_tlb_entry : ℕ) (va : ℕ) (s s' : Sv39) (res : Option TlbEntry) where
    refill-IsWalked :
        AllCoherent s.tlb → refill nr_tlb_entry s b satp va ≡ ok (s', res) → IsWalked va s' res
    unfolding refill
    refill-IsWalked c h =
        let (found, filled, walked) = >>=-returns (ptw b satp va) _ h in
        elim (Option-cases found) [
          | inl fault ↦
              let out = rw fault at filled in
              let same : s ≡ s' = cc in
              let gone : none ≡ res = cc in
              ((none, walked ∙ ap ok fault, sym gone), subst (λ t. AllCoherent t.tlb) same c)
          | inr (r, there) ↦
              let new = new_entry satp va r.0 r.1 in
              let s2 = write_back nr_tlb_entry s new in
              let held : IsCoherent new = inr (va, r.0, r.1, walked ∙ ap ok there, refl) in
              let (again, checked, call) =
                >>=-returns (local_tlb_get s2 satp va) _ (rw there at filled) in
              elim (Bool-cases (found_at again s.random)) [
                | inr lost ↦ absurd (ground (arith, rw lost at checked))
                | inl at ↦
                    let out = rw at at checked in
                    let same : s2 ≡ s' = ground (arith, out) in
                    let given : some new ≡ res = ground (arith, out) in
                    (
                      (some r, walked ∙ ap ok there, sym given),
                      subst (λ t. AllCoherent t.tlb) same
                          (AllCoherent-set s.tlb s.random new c held),
                    )
              ]
        ]

    -- From a TLB whose entries were made from the tables,
    -- a lookup that returns gives the entry that the walk gives, or none where the walk finds none,
    -- and leaves such a TLB.
    pub local_tlbe_get-IsWalked :
        AllCoherent s.tlb
        → local_tlbe_get nr_tlb_entry s b satp va ≡ ok (s', res)
        → IsWalked va s' res
    unfolding local_tlbe_get
    local_tlbe_get-IsWalked c h = elim (Bool-cases (canonical va)) [
      | inr bad ↦ absurd (ground (arith, rw bad at h))
      | inl fits ↦
          let (place, next, call) = >>=-returns (local_tlb_get s satp va) _ (rw fits at h) in
          elim (Option-cases place) [
            | inl miss ↦ refill-IsWalked c (rw miss at next)
            | inr (i, hit) ↦
                let (k, e, at, there, matches) =
                  scan-hit va 0 i s.tlb (unfold local_tlb_get in call ∙ ap ok hit) in
                let (r, walked, made) =
                  hit-ptw va e (AllCoherent-get_elem? s.tlb k e c there) matches in
                let index : i ≡ k = omega arith in
                let out = rw hit at next in
                let same : s ≡ s' = ground (arith, out) in
                let given : get_elem? s.tlb i ≡ res = ground (arith, out) in
                (
                  (some r, walked, sym given ∙ ap (get_elem? s.tlb) index ∙ there ∙ ap some made),
                  subst (λ t. AllCoherent t.tlb) same c,
                )
          ]
    ]
