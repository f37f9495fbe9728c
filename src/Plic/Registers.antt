-- ===== src/Plic/Registers.antt =====
-- The arrays of `rv_plic` (difftest/src/rv_plic.hpp): the sizes that the class declares are kept, and
-- each claim is a source.
use hdu_riscv_lab.Prelude.{
  ℕ, zero, suc, ◌+◌, ◌/◌, ◌%◌, ◌<◌, ◌≤◌, ◌≡◌, inl, inr, ◌∙◌, arith, Bool, ◌&&◌, ltb, leb, ◌==◌,
  if◌then◌else◌, List, [], length, get_or, set, replicate, length-set, length-replicate, Outcome,
  ok, ◌>>=◌, Bool-cases, Option, none, some, Ensures, Ensures-if, Ensures-ok, Ensures->>=, faults,
}
use hdu_riscv_lab.Word.{add64, sub64}
use hdu_riscv_lab.Bytes.Laws.{AllBelow-set}
use hdu_riscv_lab.Plic.{
  Plic, init, update_ext, get_int, read_word, put, word_of, do_read, do_write, read_claim, complete,
  nr_words, element, replaced, bad_priority, bad_enable, enable_context, threshold_context, best,
  eligible, prio,
}
use hdu_riscv_lab.Plic.Sizes.{
  IsSized, AllSized-set, AllSized-get_or, AllSized-replicate, AllBelow-replicate,
  with_priority-IsSized, with_pending-IsSized, with_threshold-IsSized, with_claimed-IsSized,
  with_enable-IsSized, with_claim-IsSized,
}

-- An element that is there, and a replacement that returns.
Ensures-element {ℓ κ λ'} :
    {A : Type ℓ} {B : Type κ} (P : B → Type λ') (xs : List A) (i : ℕ) (d : A) (next : A → Outcome B)
    → (i < length xs → Ensures P (next (get_or xs i d)))
    → Ensures P (element xs i d >>= next)
Ensures-element P xs i d next h = elim (Bool-cases (ltb i (length xs))) [
  | inl there ↦ rw there (h (ground arith))
  | inr gone ↦ rw gone tt
]

Ensures-word {ℓ κ} :
    {B : Type ℓ} (P : B → Type κ) (buffer : List ℕ) (next : ℕ → Outcome B)
    → ((value : ℕ) → Ensures P (next value))
    → Ensures P (word_of buffer >>= next)
Ensures-word P buffer next h = elim (Bool-cases (leb 4 (length buffer))) [
  | inl whole ↦ rw whole (h _)
  | inr short ↦ rw short tt
]

Ensures-replaced {ℓ κ λ'} :
    {A : Type ℓ} {B : Type κ} (P : B → Type λ') (xs : List A) (i : ℕ) (v : A)
    (next : List A → Outcome B)
    → (i < length xs → Ensures P (next (set xs i v)))
    → Ensures P (replaced xs i v >>= next)
Ensures-replaced P xs i v next h = elim (Bool-cases (ltb i (length xs))) [
  | inl there ↦ rw there (h (ground arith))
  | inr gone ↦ rw gone tt
]

-- What a read and a write leave.
abbrev After : (Plic → Type 0) → Plic × Option (List ℕ) → Type 0
After P (p, buffer) = P p

abbrev Written : (Plic → Type 0) → Option Plic → Type 0
Written P none = Unit
Written P (some p) = P p

module _ (nr_source nr_context : ℕ) where
  init-IsSized : IsSized nr_source nr_context (init nr_source nr_context)
  unfolding init
  init-IsSized = record {
    priorities = length-replicate (nr_source + 1) 0;
    pendings = length-replicate (nr_words nr_source) 0;
    contexts = length-replicate nr_context (replicate (nr_words nr_source) 0);
    enables =
        AllSized-replicate (nr_words nr_source) nr_context (replicate (nr_words nr_source) 0)
          (length-replicate (nr_words nr_source) 0);
    thresholds = length-replicate nr_context 0;
    claims = length-replicate nr_context 0;
    sources = AllBelow-replicate (nr_source + 1) nr_context (omega arith);
    claimeds = length-replicate (nr_words nr_source) 0;
  }

either-lt : (b : Bool) (i m j : ℕ) → i < j → m < j → (if b then i else m) < j
either-lt b i m j hi hm = ground arith

best-lt :
    (p : Plic) (context_id n i mp m j : ℕ) → m < j → i + n ≤ j → best p context_id n i mp m < j
unfolding best
best-lt p context_id zero i mp m j low le = low
best-lt p context_id (suc n) i mp m j low le =
    best-lt p context_id n (suc i) _ _ j
      (either-lt (eligible p context_id i && ltb mp (prio p i)) i m j (omega arith) low)
      (omega arith)

module _ (nr_source nr_context : ℕ) (p : Plic) (w : IsSized nr_source nr_context p) where
  abbrev Wf : Plic → Type 0
  Wf = IsSized nr_source nr_context

  update_ext-IsSized : (source_id : ℕ) (fired : Bool) → Ensures Wf (update_ext p source_id fired)
  unfolding update_ext
  update_ext-IsSized source_id fired = Ensures-element Wf p.pending (source_id / 32) 0 _ (λ _.
      Ensures-replaced Wf p.pending (source_id / 32) _ _ (λ _.
        with_pending-IsSized nr_source nr_context p w _ (length-set p.pending (source_id / 32) _)))

  get_int-IsSized :
      (context_id : ℕ)
      → Ensures (λ (r : Plic × Bool). Wf r.0) (get_int nr_source nr_context p context_id)
  unfolding get_int
  get_int-IsSized context_id =
      Ensures-replaced (λ (r : Plic × Bool). Wf r.0) p.claim context_id _ _
        (λ exists. with_claim-IsSized nr_source nr_context p w _ (length-set p.claim context_id _) (
          AllBelow-set (nr_source + 1) p.claim context_id _
            (best-lt p context_id nr_source 1 0 0 (nr_source + 1) (omega arith) (omega arith))
            w.sources))

  read_claim-IsSized : (context_id : ℕ) → Ensures (After Wf) (read_claim p context_id)
  unfolding read_claim
  read_claim-IsSized context_id = Ensures-element (After Wf) p.claim context_id 0 _ (λ _.
      Ensures-element (After Wf) p.claimed (get_or p.claim context_id 0 / 32) 0 _ (λ _.
        Ensures-replaced (After Wf) p.claimed (get_or p.claim context_id 0 / 32) _ _
          (λ _. with_claimed-IsSized nr_source nr_context p w _ (length-set p.claimed _ _))))

  complete-IsSized : (source : ℕ) → Ensures (Written Wf) (complete p source)
  unfolding complete
  complete-IsSized source = Ensures-element (Written Wf) p.claimed (source / 32) 0 _ (λ _.
      Ensures-replaced (Written Wf) p.claimed (source / 32) _ _
        (λ _. with_claimed-IsSized nr_source nr_context p w _ (length-set p.claimed _ _)))

  enable_write-IsSized :
      (context_id pos value : ℕ)
      → Ensures (Written Wf) (
          element p.enable context_id [] >>= λ words. replaced words pos value >>= λ words'.
          replaced p.enable context_id words' >>= λ enable.
          ok (some (record p { enable = enable })))
  enable_write-IsSized context_id pos value =
      Ensures-element (Written Wf) p.enable context_id [] _ (λ there.
        Ensures-replaced (Written Wf) (get_or p.enable context_id []) pos value _ (λ _.
          Ensures-replaced (Written Wf) p.enable context_id _ _ (λ _.
            with_enable-IsSized nr_source nr_context p w _ (length-set p.enable context_id _) (
              AllSized-set _ p.enable context_id _
                (length-set (get_or p.enable context_id []) pos value
                  ∙ AllSized-get_or _ p.enable context_id there w.enables)
                w.enables))))

  read_word-IsSized :
      (start_addr size : ℕ) → Ensures (After Wf) (read_word nr_source nr_context p start_addr size)
  unfolding read_word
  read_word-IsSized start_addr size =
      let end_addr = add64 start_addr size in
      Ensures-if (After Wf) (leb end_addr 0x1000) _ _
        (Ensures-if (After Wf) (bad_priority nr_source nr_context start_addr size) _ _ w
          (Ensures-element (After Wf) p.priority (start_addr / 4) 0 _ (λ _. w)))
        (Ensures-if (After Wf) (leb end_addr 0x1080) _ _
          (Ensures-if (After Wf) (ltb nr_source (sub64 start_addr 0x1000 / 4)) _ _ w
            (Ensures-element (After Wf) p.pending (sub64 start_addr 0x1000 / 4) 0 _ (λ _. w)))
          (Ensures-if (After Wf) (leb end_addr 0x2000) _ _ w (
            Ensures-if (After Wf) (leb end_addr 0x200000) _ _
              (Ensures-if (After Wf) (bad_enable nr_source nr_context start_addr) _ _ w (
                Ensures-element (After Wf) p.enable (enable_context start_addr) [] _
                  (λ _. Ensures-element (After Wf) _ (start_addr % 0x80) 0 _ (λ _. w))))
              (Ensures-if (After Wf) (ltb nr_context (threshold_context start_addr)) _ _ w (
                Ensures-if (After Wf) (start_addr % 0x1000 == 0) _ _
                  (Ensures-element (After Wf) p.threshold (threshold_context start_addr) 0 _
                    (λ _. w))
                  (Ensures-if (After Wf) (start_addr % 0x1000 == 4) _ _
                    (read_claim-IsSized (threshold_context start_addr)) w))))))

  do_read-IsSized :
      (start_addr size room : ℕ)
      → Ensures (After Wf) (do_read nr_source nr_context p start_addr size room)
  unfolding do_read
  do_read-IsSized start_addr size room =
      Ensures->>= (After Wf) (After Wf) (read_word nr_source nr_context p start_addr size) _
        (read_word-IsSized start_addr size) (λ r h. fits r h)
    where
      fits : (r : Plic × Option (List ℕ)) → After Wf r → Ensures (After Wf) (put room r)
      fits (q, none) h = h
      fits (q, some bytes) h = Ensures-if (After Wf) (leb 4 room) (ok (q, some bytes)) faults h tt

  do_write-IsSized :
      (start_addr size : ℕ) (buffer : List ℕ)
      → Ensures (Written Wf) (do_write nr_source nr_context p start_addr size buffer)
  unfolding do_write
  do_write-IsSized start_addr size buffer =
      let end_addr = add64 start_addr size in
      Ensures-if (Written Wf) (leb end_addr 0x1000) _ _
        (Ensures-if (Written Wf) (bad_priority nr_source nr_context start_addr size) _ _ tt (
          Ensures-word (Written Wf) buffer _ λ value.
            Ensures-replaced (Written Wf) p.priority (start_addr / 4) value _
              (λ _. with_priority-IsSized nr_source nr_context p w _ (length-set p.priority _ _))))
        (Ensures-if (Written Wf) (leb end_addr 0x1080) _ _ w (
          Ensures-if (Written Wf) (leb end_addr 0x2000) _ _ tt (
            Ensures-if (Written Wf) (leb end_addr 0x200000) _ _
              (Ensures-if (Written Wf) (bad_enable nr_source nr_context start_addr) _ _ tt (
                Ensures-word (Written Wf) buffer _ λ value.
                  enable_write-IsSized (enable_context start_addr) (start_addr % 0x80) value))
              (Ensures-if (Written Wf) (ltb nr_context (threshold_context start_addr)) _ _ tt (
                Ensures-if (Written Wf) (start_addr % 0x1000 == 0) _ _
                  (Ensures-word (Written Wf) buffer _ λ value.
                    Ensures-replaced (Written Wf) p.threshold (threshold_context start_addr) value _
                      (λ _.
                        with_threshold-IsSized nr_source nr_context p w _
                          (length-set p.threshold _ _)))
                  (Ensures-if (Written Wf) (start_addr % 0x1000 == 4) _ _
                    (Ensures-word (Written Wf) buffer _ λ value. complete-IsSized value) tt))))))

-- One call that returned.
pub data Step (nr_source nr_context : ℕ) : Plic → Plic → Type 0 where
  updates :
      {p p' : Plic} (source_id : ℕ) (fired : Bool)
      → update_ext p source_id fired ≡ ok p'
      → Step nr_source nr_context p p'
  gets :
      {p p' : Plic} {fired : Bool} (context_id : ℕ)
      → get_int nr_source nr_context p context_id ≡ ok (p', fired)
      → Step nr_source nr_context p p'
  reads :
      {p p' : Plic} {buffer : Option (List ℕ)} (start_addr size room : ℕ)
      → do_read nr_source nr_context p start_addr size room ≡ ok (p', buffer)
      → Step nr_source nr_context p p'
  writes :
      {p p' : Plic} (start_addr size : ℕ) (buffer : List ℕ)
      → do_write nr_source nr_context p start_addr size buffer ≡ ok (some p')
      → Step nr_source nr_context p p'

pub data Reachable (nr_source nr_context : ℕ) : Plic → Type 0 where
  starts : Reachable nr_source nr_context (init nr_source nr_context)
  steps :
      {p p' : Plic}
      → Reachable nr_source nr_context p
      → Step nr_source nr_context p p'
      → Reachable nr_source nr_context p'

module _ (nr_source nr_context : ℕ) where
  Step-IsSized :
      {p p' : Plic}
      → Step nr_source nr_context p p'
      → IsSized nr_source nr_context p
      → IsSized nr_source nr_context p'
  Step-IsSized {p} (updates source_id fired e) w =
      Ensures-ok (IsSized nr_source nr_context) _
        (update_ext-IsSized nr_source nr_context p w source_id fired) e
  Step-IsSized {p} (gets context_id e) w =
      Ensures-ok _ _ (get_int-IsSized nr_source nr_context p w context_id) e
  Step-IsSized {p} (reads start_addr size room e) w =
      Ensures-ok (After (IsSized nr_source nr_context)) _
        (do_read-IsSized nr_source nr_context p w start_addr size room) e
  Step-IsSized {p} (writes start_addr size buffer e) w =
      Ensures-ok (Written (IsSized nr_source nr_context)) _
        (do_write-IsSized nr_source nr_context p w start_addr size buffer) e

  -- From the constructor on, each call that returns keeps the sizes of the arrays, and each claim is a
  -- source or 0.
  pub Reachable-IsSized :
      {p : Plic} → Reachable nr_source nr_context p → IsSized nr_source nr_context p
  Reachable-IsSized starts = init-IsSized nr_source nr_context
  Reachable-IsSized (steps r s) = Step-IsSized s (Reachable-IsSized r)
