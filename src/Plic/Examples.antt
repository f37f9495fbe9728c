-- ===== src/Plic/Examples.antt =====
-- An interrupt controller with 40 sources and 2 contexts, and the theorems about it on its states.
use hdu_riscv_lab.Prelude.{
  ℕ, ◌/◌, ◌%◌, ◌≤◌, ◌≡◌, ◌↔◌, refl, arith, true, not, ◌==◌, if◌then◌else◌, List, [], ◌∷◌, set,
  replicate, ok, some,
}
use hdu_riscv_lab.Bytes.{to_bytes}
use hdu_riscv_lab.Word.Bits.{bit}
use hdu_riscv_lab.Plic.{
  Plic, init, line, eligible, prio, get_int, read_claim, complete, do_write, best,
}
use hdu_riscv_lab.Plic.Choice.{IsBest, get_int-IsBest, line_iff}
use hdu_riscv_lab.Plic.Registers.{starts, steps, writes, Reachable-IsSized}
use hdu_riscv_lab.Plic.Sizes.{IsSized}
use hdu_riscv_lab.Plic.Claim.{bit_of, read_claim-complete}

-- Sources 3 and 5 have priorities 1 and 2, are enabled in context 0 and pending.
abbrev plic : Plic
plic = record {
  priority = 0 ∷ 0 ∷ 0 ∷ 1 ∷ 0 ∷ 2 ∷ replicate 35 0;
  pending = 0x28 ∷ 0 ∷ [];
  enable = (0x28 ∷ 0 ∷ []) ∷ (0 ∷ 0 ∷ []) ∷ [];
  threshold = 0 ∷ 0 ∷ [];
  claim = 5 ∷ 0 ∷ [];
  claimed = 0 ∷ 0 ∷ [];
}

plic-IsSized : IsSized 40 2 plic
plic-IsSized = record {
  priorities = refl;
  pendings = refl;
  contexts = refl;
  enables = (refl, (refl, tt));
  thresholds = refl;
  claims = refl;
  sources = (omega arith, (omega arith, tt));
  claimeds = refl;
}

get_int-IsBest_example :
    (m : ℕ) × (get_int 40 2 plic 0 ≡ ok (record plic { claim = set plic.claim 0 m }, not (m == 0)))
    × IsBest (eligible plic 0) (prio plic) 41 m
get_int-IsBest_example = get_int-IsBest 40 2 plic 0 (omega arith)

chosen : get_int 40 2 (record plic { claim = 0 ∷ 0 ∷ [] }) 0 ≡ ok (plic, true)
unfolding get_int best
chosen = refl

line_iff_example :
    (line plic.pending 1 ≡ true) ↔ ((j : ℕ) × (1 ≤ j) × (j / 32 ≡ 0) × (bit (j % 32) 0x28 ≡ 1))
line_iff_example = line_iff plic.pending 1 (omega arith)

read_claim-complete_example :
    (claimed completed : List ℕ) × (read_claim plic 0
      ≡ ok (record plic { claimed = claimed }, some (to_bytes 4 5)))
    × ((i : ℕ) → bit_of claimed i ≡ (if i == 5 then 1 else bit_of plic.claimed i))
    × (complete (record plic { claimed = claimed }) 5
        ≡ ok (some (record plic { claimed = completed })))
    × ((i : ℕ) → bit_of completed i ≡ (if i == 5 then 0 else bit_of plic.claimed i))
read_claim-complete_example = read_claim-complete 40 2 plic 0 plic-IsSized (omega arith)

abbrev with_priority : Plic
with_priority = record (init 40 2) { priority = set (replicate 41 0) 3 7 }

writes_priority : do_write 40 2 (init 40 2) 12 4 (to_bytes 4 7) ≡ ok (some with_priority)
unfolding do_write init
writes_priority = refl

Reachable-IsSized_example : IsSized 40 2 with_priority
Reachable-IsSized_example =
    Reachable-IsSized 40 2 (steps starts (writes 12 4 (to_bytes 4 7) writes_priority))
