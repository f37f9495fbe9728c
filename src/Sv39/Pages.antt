-- ===== src/Sv39/Pages.antt =====
-- The pages of the walk in difftest/src/rv_sv39.hpp: addresses of one page have the same walk.
use hdu_riscv_lab.Prelude.{arith, ℕ, zero, suc, ◌*◌, ◌/◌, ◌^◌, ◌≤◌, ◌<◌, ◌≡◌, sym, some, ok}
use hdu_riscv_lab.Bus.{Bus}
use hdu_riscv_lab.Sv39.{ptw}
use hdu_riscv_lab.Sv39.Walk.{index, Holds, Leads, leaf, points, ptw_iff}

-- The indices of the tables above a page are those of every address in the page.
index_same :
    (i j va va' : ℕ)
    → j ≤ i
    → i ≤ 2
    → va / (2 ^ 12 * 2 ^ (9 * j)) ≡ va' / (2 ^ 12 * 2 ^ (9 * j))
    → index i va ≡ index i va'
index_same zero zero va va' p q h = omega arith
index_same (suc zero) zero va va' p q h = omega arith
index_same (suc zero) (suc zero) va va' p q h = omega arith
index_same (suc (suc zero)) zero va va' p q h = omega arith
index_same (suc (suc zero)) (suc zero) va va' p q h = omega arith
index_same (suc (suc zero)) (suc (suc zero)) va va' p q h = omega arith
index_same zero (suc j) va va' p q h = omega arith
index_same (suc zero) (suc (suc j)) va va' p q h = omega arith
index_same (suc (suc zero)) (suc (suc (suc j))) va va' p q h = omega arith
index_same (suc (suc (suc i))) j va va' p q h = omega arith

module _ (b : Bus) (pte size : ℕ) where
  -- The size of a page by the level of its leaf.
  pub Leads-level :
      (va pt_addr i : ℕ)
      → Leads b va pte size pt_addr i
      → (j : ℕ) × (j < i) × (size ≡ 2 ^ 12 * 2 ^ (9 * j))
  Leads-level va pt_addr i (leaf {i = j} held good is_leaf whole aligned) =
      (j, omega arith, sym whole)
  Leads-level va pt_addr i (points entry held good table rest) =
      let (j, below, whole) = Leads-level va _ _ rest in (j, omega arith, whole)

  module _ (va va' : ℕ) where
    Holds-same :
        (pt_addr i j entry : ℕ)
        → j ≤ i
        → i ≤ 2
        → size ≡ 2 ^ 12 * 2 ^ (9 * j)
        → va / size ≡ va' / size
        → Holds b va pt_addr i entry
        → Holds b va' pt_addr i entry
    Holds-same pt_addr i j entry p q whole same held =
        let same_index = index_same i j va va' p q (rw (sym whole) same) in rw (sym same_index) held

    -- The tables lead to the same leaf from every address in its page.
    Leads-same :
        (pt_addr i : ℕ)
        → i ≤ 3
        → va / size ≡ va' / size
        → Leads b va pte size pt_addr i
        → Leads b va' pte size pt_addr i
    Leads-same pt_addr i p same (leaf {i = j} held good is_leaf whole aligned) =
        leaf (Holds-same pt_addr j j pte (omega arith) (omega arith) (sym whole) same held) good
          is_leaf whole aligned
    Leads-same pt_addr i p same (points {i = k} entry held good table rest) =
        let (j, below, whole) = Leads-level va _ _ rest in
        points entry (Holds-same pt_addr k j entry (omega arith) (omega arith) whole same held) good
          table (Leads-same _ _ (omega arith) same rest)

module _ (b : Bus) (satp : ℕ) where
  -- Two addresses of one page have the same walk.
  pub ptw_same :
      (va va' pte size : ℕ)
      → va / size ≡ va' / size
      → ptw b satp va ≡ ok (some (pte, size))
      → ptw b satp va' ≡ ok (some (pte, size))
  ptw_same va va' pte size same h =
      let (on, leads) = (ptw_iff b va satp pte size).0 h in
      (ptw_iff b va' satp pte size).1
        (on, Leads-same b pte size va va' _ 3 (omega arith) same leads)
