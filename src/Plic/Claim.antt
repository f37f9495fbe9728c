-- ===== src/Plic/Claim.antt =====
-- The bits of the words `pending` and `claimed` of `rv_plic` (difftest/src/rv_plic.hpp).
use hdu_riscv_lab.Prelude.{
  ℕ, ◌+◌, ◌-◌, ◌/◌, ◌%◌, ◌^◌, ◌<◌, ◌≤◌, ◌≡◌, refl, ◌∙◌, arith, Bool, true, false, ◌==◌,
  if◌then◌else◌, List, length, length-set, get_or, get_or-set_self, get_or-set_ne, set, ok,
  Bool-cases, inl, inr, some,
}
use hdu_riscv_lab.Word.Bits.{bit, bit-bit_and, bit-bit_or}
use hdu_riscv_lab.Word.Single.{bit-pow, bit-complement, pow-lt}
use hdu_riscv_lab.Bytes.{to_bytes}
use hdu_riscv_lab.Plic.{
  Plic, with_bit, without_bit, update_ext, read_claim, complete, element, replaced,
}
use hdu_riscv_lab.Plic.Sizes.{IsSized, AllBelow-get_or}

bit-with_bit : (k b w : ℕ) → bit k (with_bit b w) ≡ (if k == b then 1 else bit k w)
bit-with_bit k b w = rw (bit-bit_or k w (2 ^ b), bit-pow k b) (ground arith)

bit-without_bit :
    (k b w : ℕ) → k < 32 → b < 32 → bit k (without_bit b w) ≡ (if k == b then 0 else bit k w)
bit-without_bit k b w hk hb =
    rw
      (
        bit-bit_and k w (2 ^ 32 - 1 - 2 ^ b),
        bit-complement 32 k (2 ^ b) hk (pow-lt b 32 hb),
        bit-pow k b,
      )
      (ground arith)

bit-fired :
    (fired : Bool) (k b w : ℕ)
    → k < 32
    → b < 32
    → bit k (if fired then with_bit b (without_bit b w) else without_bit b w)
      ≡ (if k == b then (if fired then 1 else 0) else bit k w)
bit-fired false k b w hk hb = bit-without_bit k b w hk hb
bit-fired true k b w hk hb =
    rw (bit-with_bit k b (without_bit b w), bit-without_bit k b w hk hb) (ground arith)

-- Bit `i` of an array of words.
abbrev pub bit_of : List ℕ → ℕ → ℕ
bit_of words i = bit (i % 32) (get_or words (i / 32) 0)

same_place :
    (i source v x : ℕ)
    → i / 32 ≡ source / 32
    → (if i % 32 == source % 32 then v else x) ≡ (if i == source then v else x)
same_place i source v x e = ground arith

other_bit :
    (words : List ℕ) (source i w v : ℕ)
    → source / 32 < length words
    → bit (i % 32) w
      ≡ (if i % 32 == source % 32 then v else bit (i % 32) (get_or words (source / 32) 0))
    → bit_of (set words (source / 32) w) i ≡ (if i == source then v else bit_of words i)
other_bit words source i w v there e = elim (Bool-cases (i / 32 == source / 32)) [
  | inl same ↦
      let here : i / 32 ≡ source / 32 = ground arith in
      rw (here, get_or-set_self words (source / 32) w 0 there, e) (same_place i source v _ here)
  | inr apart ↦
      rw (get_or-set_ne words {i = source / 32} {j = i / 32} w 0 (λ z. ground arith)) (ground arith)
]

bit_of-with_bit :
    (words : List ℕ) (source i : ℕ)
    → source / 32 < length words
    → bit_of (set words (source / 32) (with_bit (source % 32) (get_or words (source / 32) 0))) i
      ≡ (if i == source then 1 else bit_of words i)
bit_of-with_bit words source i there =
    other_bit words source i _ 1 there
      (bit-with_bit (i % 32) (source % 32) (get_or words (source / 32) 0))

bit_of-without_bit :
    (words : List ℕ) (source i : ℕ)
    → source / 32 < length words
    → bit_of (set words (source / 32) (without_bit (source % 32) (get_or words (source / 32) 0))) i
      ≡ (if i == source then 0 else bit_of words i)
bit_of-without_bit words source i there = other_bit words source i _ 0 there (
    bit-without_bit (i % 32) (source % 32) (get_or words (source / 32) 0) (omega arith)
      (omega arith))

element_there :
    {A : Type 0} (xs : List A) (i : ℕ) (d : A) → i < length xs → element xs i d ≡ ok (get_or xs i d)
element_there xs i d h = ground arith

replaced_there :
    {A : Type 0} (xs : List A) (i : ℕ) (v : A) → i < length xs → replaced xs i v ≡ ok (set xs i v)
replaced_there xs i v h = ground arith

-- A read of the claim register of a context that exists gives the claim; the claim of that source is
-- then noted, and no other changes. The completion of it takes the note back.
pub read_claim-complete :
    (nr_source nr_context : ℕ) (p : Plic) (context_id : ℕ)
    → IsSized nr_source nr_context p
    → context_id < nr_context
    → (claimed completed : List ℕ) × (read_claim p context_id
        ≡ ok (record p { claimed = claimed }, some (to_bytes 4 (get_or p.claim context_id 0))))
      × ((i : ℕ)
          → bit_of claimed i ≡ (if i == get_or p.claim context_id 0 then 1 else bit_of p.claimed i))
      × (complete (record p { claimed = claimed }) (get_or p.claim context_id 0)
          ≡ ok (some (record p { claimed = completed })))
      × ((i : ℕ)
          → bit_of completed i
            ≡ (if i == get_or p.claim context_id 0 then 0 else bit_of p.claimed i))
unfolding read_claim complete
read_claim-complete nr_source nr_context p context_id w exists =
    let c = get_or p.claim context_id 0 in
    let old = get_or p.claimed (c / 32) 0 in
    let claimed = set p.claimed (c / 32) (with_bit (c % 32) old) in
    let completed = set claimed (c / 32) (without_bit (c % 32) (get_or claimed (c / 32) 0)) in
    let there : context_id < length p.claim = omega (arith, w.claims) in
    let source : c < nr_source + 1 = AllBelow-get_or _ p.claim context_id there w.sources in
    let fits : c / 32 < length p.claimed = omega (arith, w.claimeds) in
    let fits' : c / 32 < length claimed =
      omega (arith, length-set p.claimed (c / 32) (with_bit (c % 32) old)) in
    (
      claimed,
      completed,
      rw
          (
            element_there p.claim context_id 0 there,
            element_there p.claimed (c / 32) 0 fits,
            replaced_there p.claimed (c / 32) (with_bit (c % 32) old) fits,
          )
          refl,
      (λ i. bit_of-with_bit p.claimed c i fits),
      rw
          (
            element_there claimed (c / 32) 0 fits',
            replaced_there claimed (c / 32) (without_bit (c % 32) (get_or claimed (c / 32) 0))
                fits',
          )
          refl,
      (λ i.
          bit_of-without_bit claimed c i fits'
          ∙ twice i c _ _ (bit_of-with_bit p.claimed c i fits)),
    )
  where
    twice :
        (i c x y : ℕ)
        → x ≡ (if i == c then 1 else y)
        → (if i == c then 0 else x) ≡ (if i == c then 0 else y)
    twice i c x y e = ground arith

-- `update_ext` of a source that the bitmap has sets the bit of that source alone to `fired`.
pub update_ext_lem :
    (nr_source nr_context : ℕ) (p : Plic) (source_id : ℕ) (fired : Bool)
    → IsSized nr_source nr_context p
    → source_id ≤ nr_source
    → (pending : List ℕ) × (update_ext p source_id fired ≡ ok (record p { pending = pending }))
      × ((i : ℕ)
          → bit_of pending i
            ≡ (if i == source_id then (if fired then 1 else 0) else bit_of p.pending i))
unfolding update_ext
update_ext_lem nr_source nr_context p source_id fired w has =
    let old = get_or p.pending (source_id / 32) 0 in
    let cleared = without_bit (source_id % 32) old in
    let word = (if fired then with_bit (source_id % 32) cleared else cleared) in
    let fits : source_id / 32 < length p.pending = omega (arith, w.pendings) in
    (
      set p.pending (source_id / 32) word,
      rw
          (
            element_there p.pending (source_id / 32) 0 fits,
            replaced_there p.pending (source_id / 32) word fits,
          )
          refl,
      (λ i.
          other_bit p.pending source_id i word (if fired then 1 else 0) fits
            (bit-fired fired (i % 32) (source_id % 32) old (omega arith) (omega arith))),
    )
