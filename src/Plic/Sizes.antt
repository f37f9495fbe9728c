-- ===== src/Plic/Sizes.antt =====
-- The sizes of the arrays of `rv_plic` (difftest/src/rv_plic.hpp).
use hdu_riscv_lab.Prelude.{
  ℕ, zero, suc, ◌+◌, ◌<◌, ◌≡◌, ◌∙◌, arith, List, [], ◌∷◌, length, get_or, set, replicate,
}
use hdu_riscv_lab.Bytes.{AllBelow}
use hdu_riscv_lab.Plic.{Plic, nr_words}

-- Each row has `n` words.
abbrev pub AllSized : ℕ → List (List ℕ) → Type 0
AllSized n [] = Unit {0}
AllSized n (row ∷ rows) = (length row ≡ n) × AllSized n rows

-- The sizes of the arrays, and claims that are sources.
pub record IsSized (nr_source nr_context : ℕ) (p : Plic) : Type 0 where
  pub priorities : length p.priority ≡ nr_source + 1
  pub pendings : length p.pending ≡ nr_words nr_source
  pub contexts : length p.enable ≡ nr_context
  pub enables : AllSized (nr_words nr_source) p.enable
  pub thresholds : length p.threshold ≡ nr_context
  pub claims : length p.claim ≡ nr_context
  pub sources : AllBelow (nr_source + 1) p.claim
  pub claimeds : length p.claimed ≡ nr_words nr_source

pub AllSized-set :
    (n : ℕ) (rows : List (List ℕ)) (i : ℕ) (row : List ℕ)
    → length row ≡ n
    → AllSized n rows
    → AllSized n (set rows i row)
AllSized-set n [] i row e h = tt
AllSized-set n (r ∷ rows) zero row e (h, hs) = (e, hs)
AllSized-set n (r ∷ rows) (suc i) row e (h, hs) = (h, AllSized-set n rows i row e hs)

pub AllSized-get_or :
    (n : ℕ) (rows : List (List ℕ)) (i : ℕ)
    → i < length rows
    → AllSized n rows
    → length (get_or rows i []) ≡ n
AllSized-get_or n [] i below h = absurd (omega arith)
AllSized-get_or n (r ∷ rows) zero below (h, hs) = h
AllSized-get_or n (r ∷ rows) (suc i) below (h, hs) = AllSized-get_or n rows i (omega arith) hs

pub AllSized-replicate :
    (n count : ℕ) (row : List ℕ) → length row ≡ n → AllSized n (replicate count row)
AllSized-replicate n zero row e = tt
AllSized-replicate n (suc count) row e = (e, AllSized-replicate n count row e)

pub AllBelow-get_or :
    (n : ℕ) (xs : List ℕ) (i : ℕ) → i < length xs → AllBelow n xs → get_or xs i 0 < n
AllBelow-get_or n [] i below h = absurd (omega arith)
AllBelow-get_or n (x ∷ xs) zero below (h, hs) = h
AllBelow-get_or n (x ∷ xs) (suc i) below (h, hs) = AllBelow-get_or n xs i (omega arith) hs

pub AllBelow-replicate : (n count : ℕ) → 0 < n → AllBelow n (replicate count 0)
AllBelow-replicate n zero h = tt
AllBelow-replicate n (suc count) h = (h, AllBelow-replicate n count h)

module _ (nr_source nr_context : ℕ) (p : Plic) (w : IsSized nr_source nr_context p) where
  abbrev Wf : Plic → Type 0
  Wf = IsSized nr_source nr_context

  pub with_priority-IsSized :
      (xs : List ℕ) → (e : length xs ≡ length p.priority) → Wf (record p { priority = xs })
  with_priority-IsSized xs e = record {
    priorities = e ∙ w.priorities;
    pendings = w.pendings;
    contexts = w.contexts;
    enables = w.enables;
    thresholds = w.thresholds;
    claims = w.claims;
    sources = w.sources;
    claimeds = w.claimeds;
  }

  pub with_pending-IsSized :
      (xs : List ℕ) → (e : length xs ≡ length p.pending) → Wf (record p { pending = xs })
  with_pending-IsSized xs e = record {
    priorities = w.priorities;
    pendings = e ∙ w.pendings;
    contexts = w.contexts;
    enables = w.enables;
    thresholds = w.thresholds;
    claims = w.claims;
    sources = w.sources;
    claimeds = w.claimeds;
  }

  pub with_threshold-IsSized :
      (xs : List ℕ) → (e : length xs ≡ length p.threshold) → Wf (record p { threshold = xs })
  with_threshold-IsSized xs e = record {
    priorities = w.priorities;
    pendings = w.pendings;
    contexts = w.contexts;
    enables = w.enables;
    thresholds = e ∙ w.thresholds;
    claims = w.claims;
    sources = w.sources;
    claimeds = w.claimeds;
  }

  pub with_claimed-IsSized :
      (xs : List ℕ) → (e : length xs ≡ length p.claimed) → Wf (record p { claimed = xs })
  with_claimed-IsSized xs e = record {
    priorities = w.priorities;
    pendings = w.pendings;
    contexts = w.contexts;
    enables = w.enables;
    thresholds = w.thresholds;
    claims = w.claims;
    sources = w.sources;
    claimeds = e ∙ w.claimeds;
  }

  pub with_enable-IsSized :
      (xs : List (List ℕ))
      → (e : length xs ≡ length p.enable) → (rows : AllSized (nr_words nr_source) xs)
      → Wf (record p { enable = xs })
  with_enable-IsSized xs e rows = record {
    priorities = w.priorities;
    pendings = w.pendings;
    contexts = e ∙ w.contexts;
    enables = rows;
    thresholds = w.thresholds;
    claims = w.claims;
    sources = w.sources;
    claimeds = w.claimeds;
  }

  pub with_claim-IsSized :
      (xs : List ℕ)
      → (e : length xs ≡ length p.claim) → (below : AllBelow (nr_source + 1) xs)
      → Wf (record p { claim = xs })
  with_claim-IsSized xs e below = record {
    priorities = w.priorities;
    pendings = w.pendings;
    contexts = w.contexts;
    enables = w.enables;
    thresholds = w.thresholds;
    claims = e ∙ w.claims;
    sources = below;
    claimeds = w.claimeds;
  }
