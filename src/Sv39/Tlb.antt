-- ===== src/Sv39/Tlb.antt =====
-- The TLB of difftest/src/rv_sv39.hpp: what a lookup finds, keeps, and what a fence drops.
use hdu_riscv_lab.Prelude.{
  ℕ, suc, ◌+◌, ◌<◌, ◌≡◌, inl, inr, refl, sym, ap, ◌∙◌, arith, true, false, if◌then◌else◌, List, [],
  ◌∷◌, length, map, set, get_elem?, get_elem?-set_self, length-set, subst, Option, none, some, ok,
  >>=-returns, Bool-cases, Option-cases,
}
use hdu_riscv_lab.Bus.{Bus}
use hdu_riscv_lab.Sv39.{
  TlbEntry, Sv39, scan, local_tlb_get, local_tlbe_get, refill, ptw, new_entry, write_back, tlb_hit,
  fenced, sfence_vma, invalidated, canonical, found_at,
}

-- Where no entry matches, the scan finds none.
abbrev NoHit : ℕ → ℕ → List TlbEntry → Type 0
NoHit satp va [] = Unit {0}
NoHit satp va (e ∷ es) = (tlb_hit satp va e ≡ false) × NoHit satp va es

scan-NoHit :
    (satp va i : ℕ) (es : List TlbEntry) → NoHit satp va es → scan satp va i none es ≡ ok none
unfolding scan
scan-NoHit satp va i [] h = refl
scan-NoHit satp va i (e ∷ es) (miss, rest) = rw miss (scan-NoHit satp va (suc i) es rest)

page_hit-fenced : (e : TlbEntry) (satp va : ℕ) → tlb_hit satp va e ≡ true → fenced va 0 e ≡ true
page_hit-fenced e satp va h = ground (arith, h)

fenced-NoHit :
    (satp va : ℕ) (es : List TlbEntry)
    → NoHit satp va (map (λ e. if fenced va 0 e then invalidated e else e) es)
fenced-NoHit satp va [] = tt
fenced-NoHit satp va (e ∷ es) = (
  elim (Bool-cases (fenced va 0 e)) [
    | inl drops ↦ rw drops (ground arith)
    | inr keeps ↦ rw keeps (elim (Bool-cases (tlb_hit satp va e)) [
      | inl hit ↦ absurd (ground (arith, page_hit-fenced e satp va hit, keeps))
      | inr miss ↦ miss
    ])
  ],
  fenced-NoHit satp va es,
)

-- After `sfence.vma` of an address for all address spaces, the TLB holds no translation of it, in
-- any address space, whatever the page sizes.
pub sfence_vma-local_tlb_get :
    (s : Sv39) (satp va : ℕ) → local_tlb_get (sfence_vma s va 0) satp va ≡ ok none
unfolding local_tlb_get sfence_vma
sfence_vma-local_tlb_get s satp va = scan-NoHit satp va 0 _ (fenced-NoHit satp va s.tlb)

-- After a hit the scan returns it or aborts.
pub scan-some :
    (satp va i j : ℕ) (es : List TlbEntry) {r : Option ℕ}
    → scan satp va i (some j) es ≡ ok r
    → r ≡ some j
unfolding scan
scan-some satp va i j [] h = ground (arith, h)
scan-some satp va i j (e ∷ es) {r} h = elim (Bool-cases (tlb_hit satp va e)) [
  | inl hit ↦ absurd (ground (arith, rw hit at h))
  | inr miss ↦ scan-some satp va (suc i) j es (rw miss at h)
]

-- What the scan finds lies in the list.
scan-lt :
    (satp va i j : ℕ) (es : List TlbEntry)
    → scan satp va i none es ≡ ok (some j)
    → j < i + length es
unfolding scan
scan-lt satp va i j [] h = absurd (ground (arith, h))
scan-lt satp va i j (e ∷ es) h = elim (Bool-cases (tlb_hit satp va e)) [
  | inl hit ↦ ground (arith, scan-some satp va (suc i) i es (rw hit at h))
  | inr miss ↦ omega (arith, scan-lt satp va (suc i) j es (rw miss at h))
]

module _ (nr_tlb_entry : ℕ) where
  local_tlbe_get_hit :
      (s : Sv39) (b : Bus) (satp va i : ℕ)
      → canonical va ≡ true
      → local_tlb_get s satp va ≡ ok (some i)
      → local_tlbe_get nr_tlb_entry s b satp va ≡ ok (s, get_elem? s.tlb i)
  unfolding local_tlbe_get
  local_tlbe_get_hit s b satp va i fits found = rw (fits, found) refl

  -- The entry that a lookup returned is one that the scan finds.
  abbrev IsCached : Sv39 → ℕ → ℕ → TlbEntry → Type 0
  IsCached s satp va e =
      (i : ℕ) × (local_tlb_get s satp va ≡ ok (some i)) × (get_elem? s.tlb i ≡ some e)

  write_back-IsCached :
      (s : Sv39) (satp va : ℕ) (e : TlbEntry) (again : Option ℕ)
      → local_tlb_get (write_back nr_tlb_entry s e) satp va ≡ ok again
      → found_at again s.random ≡ true
      → IsCached (write_back nr_tlb_entry s e) satp va e
  write_back-IsCached s satp va e none found at = absurd (ground (arith, at))
  write_back-IsCached s satp va e (some i) found at =
      let same : i ≡ s.random = ground (arith, at) in
      let lies : i < 0 + length (set s.tlb s.random e) =
        scan-lt satp va 0 i (set s.tlb s.random e) (unfold local_tlb_get in found) in
      (
        i,
        found,
        rw same (
            get_elem?-set_self s.tlb s.random e
              (omega (arith, same, lies, length-set s.tlb s.random e))),
      )

  refill-IsCached :
      (s s' : Sv39) (b : Bus) (satp va : ℕ) (e : TlbEntry)
      → refill nr_tlb_entry s b satp va ≡ ok (s', some e)
      → IsCached s' satp va e
  unfolding refill
  refill-IsCached s s' b satp va e h =
      let (leaf, filled, walked) = >>=-returns (ptw b satp va) _ h in
      elim (Option-cases leaf) [
        | inl fault ↦ absurd (ground (arith, rw fault at filled))
        | inr (r, found) ↦
            let new = new_entry satp va r.0 r.1 in
            let s2 = write_back nr_tlb_entry s new in
            let (again, checked, call) =
              >>=-returns (local_tlb_get s2 satp va) _ (rw found at filled) in
            elim (Bool-cases (found_at again s.random)) [
              | inr lost ↦ absurd (ground (arith, rw lost at checked))
              | inl at ↦
                  let held = rw at at checked in
                  let same_state : s2 ≡ s' = ground (arith, held) in
                  let same_entry : new ≡ e = ground (arith, held) in
                  rw (sym same_state, sym same_entry)
                    (write_back-IsCached s satp va new again call at)
            ]
      ]

  local_tlbe_get-IsCached :
      (s s' : Sv39) (b : Bus) (satp va : ℕ) (e : TlbEntry)
      → local_tlbe_get nr_tlb_entry s b satp va ≡ ok (s', some e)
      → (canonical va ≡ true) × IsCached s' satp va e
  unfolding local_tlbe_get
  local_tlbe_get-IsCached s s' b satp va e h = elim (Bool-cases (canonical va)) [
    | inr bad ↦ absurd (ground (arith, rw bad at h))
    | inl fits ↦
        let (res, next, call) = >>=-returns (local_tlb_get s satp va) _ (rw fits at h) in
        (
          fits,
          elim (Option-cases res) [
            | inl miss ↦ refill-IsCached s s' b satp va e (rw miss at next)
            | inr (i, hit) ↦
                let found = rw hit at next in
                let same : s ≡ s' = ground (arith, found) in
                subst (λ t. IsCached t satp va e) same (i, call ∙ ap ok hit, ground (arith, found))
          ],
        )
  ]

  -- A translation that succeeds is repeated by every later one of the same address in the same space,
  -- without a change of the TLB, whatever has become of the page tables in memory.
  pub local_tlbe_get-again :
      (s s' : Sv39) (b b' : Bus) (satp va : ℕ) (e : TlbEntry)
      → local_tlbe_get nr_tlb_entry s b satp va ≡ ok (s', some e)
      → local_tlbe_get nr_tlb_entry s' b' satp va ≡ ok (s', some e)
  local_tlbe_get-again s s' b b' satp va e h =
      let (fits, (i, found, entry)) = local_tlbe_get-IsCached s s' b satp va e h in
      local_tlbe_get_hit s' b' satp va i fits found ∙ ap (λ o. ok (s', o)) entry
