-- ===== src/Sram/Lookup.antt =====
-- The map of `nscscc_sram_xbar` (difftest/src/nscscc_sram_xbar.hpp) compared with that of `rv_systembus`
-- (difftest/src/rv_systembus.hpp): the third part of a key makes no difference.
use hdu_riscv_lab.Prelude.{
  ℕ, ◌+◌, ◌%◌, ◌^◌, ◌<◌, ◌≡◌, ◌⊎◌, inl, inr, refl, sym, ◌∙◌, arith, Bool, true, false, ◌&&◌, ◌==◌,
  if◌then◌else◌, List, [], ◌∷◌, map, Option, none, some, Option-cases, Bool-cases, Outcome, ok,
  ◌>>=◌,
}
use hdu_riscv_lab.Word.{u64_max, add64}
use hdu_riscv_lab.Bus.{Entry, Bus}
use hdu_riscv_lab.Bus
use hdu_riscv_lab.Bus.Map.{Apart, IsFree, IsFree-of_neighbours, prev_upper_bound_range}
use hdu_riscv_lab.Sram.Xbar.{
  Range, Xbar, upper_bound, prev_upper_bound, insert, add_dev, meets, located, key_leb,
}

-- A range of the crossbar as one of the bus.
abbrev pub as_entry : Range → Entry
as_entry e = record { lo = e.lo; hi = e.hi; dev = e.dev; raw_addr = false }

abbrev pub as_entry? : Option Range → Option Entry
as_entry? none = none
as_entry? (some e) = some (as_entry e)

abbrev pub entries : List Range → List Entry
entries rs = map as_entry rs

key_leb-true :
    (lo hi : ℕ) (byte : Bool) (lo' hi' : ℕ)
    → key_leb lo hi byte lo' hi' true ≡ Bus.key_leb lo hi lo' hi'
key_leb-true lo hi true lo' hi' = ground arith
key_leb-true lo hi false lo' hi' = ground arith

last_entry :
    (e : Range) (later : Option Range)
    → as_entry? (elim later [ none ↦ some e | some f ↦ some f ])
      ≡ elim (as_entry? later) [ none ↦ some (as_entry e) | some f ↦ some f ]
last_entry e none = refl
last_entry e (some f) = refl

last_meets :
    (e : Entry) (later : Option Entry) (lo hi : ℕ)
    → Bus.meets later lo hi ≡ true
    → Bus.meets (elim later [ none ↦ some e | some f ↦ some f ]) lo hi ≡ true
last_meets e none lo hi h = cc
last_meets e (some f) lo hi h = h

if_false : {b : Bool} (x y : Option Entry) → b ≡ false → (if b then x else y) ≡ y
if_false x y e = rw e refl

no_later :
    (es : List Entry) (n lo hi : ℕ) → Apart n es → lo < n → Bus.prev_upper_bound lo hi es ≡ none
no_later es n lo hi a h = elim (Option-cases (Bus.prev_upper_bound lo hi es)) [
  | inl gone ↦ gone
  | inr (f, found) ↦ absurd (omega (arith, prev_upper_bound_range n lo hi es f a found))
]

-- The search for an access: both look for a key that no entry exceeds in its later parts.
pub located_entry :
    (rs : List Range) (start_addr : ℕ)
    → as_entry? (prev_upper_bound start_addr u64_max true rs)
      ≡ Bus.prev_upper_bound start_addr u64_max (entries rs)
unfolding prev_upper_bound Bus.prev_upper_bound
located_entry [] start_addr = refl
located_entry (e ∷ rs) start_addr =
    rw (key_leb-true e.lo e.hi e.byte_mode start_addr u64_max)
      (elim (Bool-cases (Bus.key_leb e.lo e.hi start_addr u64_max)) [
        | inl before ↦ rw before (
            last_entry e (prev_upper_bound start_addr u64_max true rs)
            ∙ rw (located_entry rs start_addr) refl)
        | inr behind ↦ rw behind refl
      ])

entries_if :
    (b : Bool) (rs rs' : List Range)
    → entries (if b then rs else rs') ≡ (if b then entries rs else entries rs')
entries_if true rs rs' = refl
entries_if false rs rs' = refl

-- The neighbours of a range are the same in both maps, or one of them is that range itself.
neighbours :
    (n lo hi : ℕ) (byte : Bool) (rs : List Range)
    → Apart n (entries rs)
    → lo < hi
    → ((as_entry? (upper_bound lo hi byte rs) ≡ Bus.upper_bound lo hi (entries rs))
        × (as_entry? (prev_upper_bound lo hi byte rs) ≡ Bus.prev_upper_bound lo hi (entries rs)))
      ⊎ ((meets (upper_bound lo hi byte rs) lo hi ≡ true)
          × (Bus.meets (Bus.prev_upper_bound lo hi (entries rs)) lo hi ≡ true))
unfolding upper_bound prev_upper_bound Bus.upper_bound Bus.prev_upper_bound
neighbours n lo hi byte [] a h = inl (refl, refl)
neighbours n lo hi byte (e ∷ rs) (a, b, rest) h = elim (Bool-cases (Bus.key_leb e.lo e.hi lo hi)) [
  | inr behind ↦
      let behind' : key_leb e.lo e.hi e.byte_mode lo hi byte ≡ false = ground arith in
      rw (behind, behind') (inl (refl, refl))
  | inl before ↦ elim (Bool-cases (key_leb e.lo e.hi e.byte_mode lo hi byte)) [
    | inl before' ↦
        rw (before, before')
          (elim (neighbours e.hi lo hi byte rs rest h) [
            | inl (same, same') ↦
                inl (same, last_entry e (prev_upper_bound lo hi byte rs) ∙ rw same' refl)
            | inr (met, met') ↦
                inr (
                  met,
                  last_meets (as_entry e) (Bus.prev_upper_bound lo hi (entries rs)) lo hi met',
                )
          ])
    | inr behind' ↦
        let itself : (e.lo ≡ lo) × (e.hi ≡ hi) = ground arith in
        rw (before, behind', no_later (entries rs) e.hi lo hi rest (omega arith))
          (inr (ground arith, ground arith))
  ]
]

insert_entry :
    (n : ℕ) (new : Range) (rs : List Range)
    → Apart n (entries rs)
    → new.lo < new.hi
    → IsFree new.lo new.hi (entries rs)
    → entries (insert new rs) ≡ Bus.insert (as_entry new) (entries rs)
unfolding insert Bus.insert
insert_entry n new [] a h free = refl
insert_entry n new (e ∷ rs) (a, b, rest) h (apart, free) =
    let later = insert_entry e.hi new rs rest h free in
    let other : ((e.lo == new.lo) && (e.hi == new.hi)) ≡ false = ground arith in
    let same : key_leb e.lo e.hi e.byte_mode new.lo new.hi new.byte_mode
        ≡ Bus.key_leb e.lo e.hi new.lo new.hi =
      ground arith in
    rw (same, other, sym later)
      (entries_if (Bus.key_leb e.lo e.hi new.lo new.hi) (e ∷ insert new rs) (new ∷ e ∷ rs))

-- What `add_dev` of each map leaves, as the list of the ranges.
abbrev pub added : Outcome (Option Xbar) → Outcome (Option (List Entry))
added call = call >>= λ x. ok (elim x [ none ↦ none | some x' ↦ some (entries x'.devices) ])

abbrev pub added_to_bus : Outcome (Option Bus) → Outcome (Option (List Entry))
added_to_bus call = call >>= λ b. ok (elim b [ none ↦ none | some b' ↦ some b'.devices ])

meets_entry : (o : Option Range) (lo hi : ℕ) → meets o lo hi ≡ Bus.meets (as_entry? o) lo hi
meets_entry none lo hi = refl
meets_entry (some e) lo hi = refl

-- The two tests on the neighbours, and the insertion.
after_tests :
    (x : Xbar) (b : Bus) (new : Range)
    → Apart 0 (entries x.devices)
    → new.lo < new.hi
    → added (
        if meets (upper_bound new.lo new.hi new.byte_mode x.devices) new.lo new.hi
        then ok none
        else if meets (prev_upper_bound new.lo new.hi new.byte_mode x.devices) new.lo new.hi
        then ok none
        else ok (some (record x { devices = insert new x.devices })))
      ≡ added_to_bus (
          if Bus.meets (Bus.upper_bound new.lo new.hi (entries x.devices)) new.lo new.hi
          then ok none
          else if Bus.meets (Bus.prev_upper_bound new.lo new.hi (entries x.devices)) new.lo new.hi
          then ok none
          else ok (some (record b { devices = Bus.insert (as_entry new) (entries x.devices) })))
after_tests x b new apart h = elim (neighbours 0 new.lo new.hi new.byte_mode x.devices apart h) [
  | inr (met, met') ↦
      rw (met, met')
        (both_refuse (Bus.meets (Bus.upper_bound new.lo new.hi (entries x.devices)) new.lo new.hi))
  | inl (same, same') ↦
      rw
        (
          meets_entry (upper_bound new.lo new.hi new.byte_mode x.devices) new.lo new.hi,
          meets_entry (prev_upper_bound new.lo new.hi new.byte_mode x.devices) new.lo new.hi,
          same,
          same',
        )
        (elim (Bool-cases
          (Bus.meets (Bus.upper_bound new.lo new.hi (entries x.devices)) new.lo new.hi)) [
            | inl met ↦ rw met refl
            | inr clear ↦
                elim (Bool-cases (
                  Bus.meets (Bus.prev_upper_bound new.lo new.hi (entries x.devices)) new.lo
                    new.hi)) [
                      | inl met ↦ rw (clear, met) refl
                      | inr clear' ↦
                          let free =
                            IsFree-of_neighbours 0 new.lo new.hi (entries x.devices) apart h clear
                              clear' in
                          rw (clear, clear', insert_entry 0 new x.devices apart h free) refl
                    ]
          ])
]
  where
    both_refuse : (t : Bool) → ok none ≡ added_to_bus (if t then ok none else ok none)
    both_refuse true = refl
    both_refuse false = refl

-- On ranges that are apart, and for a range that does not wrap, `add_dev` of the crossbar accepts what
-- `add_dev` of the bus accepts, whatever `byte_mode` is, and stores it at the same place; an access then
-- finds the same range in both maps.
pub add_dev-as_entry :
    (x : Xbar) (b : Bus) (start_addr length dev : ℕ) (byte_mode : Bool)
    → b.devices ≡ entries x.devices
    → Apart 0 (entries x.devices)
    → start_addr + length < 2 ^ 64
    → (added (add_dev x start_addr length dev byte_mode)
        ≡ added_to_bus (Bus.add_dev b start_addr length dev false))
      × ((a : ℕ) → as_entry? (located x a) ≡ Bus.prev_upper_bound a u64_max b.devices)
unfolding add_dev Bus.add_dev
add_dev-as_entry x b start_addr length dev byte_mode same apart wraps = (
  elim (Bool-cases (length == 0)) [
    | inl empty ↦ rw empty refl
    | inr some_bytes ↦ elim (Bool-cases (start_addr % length == 0)) [
      | inr unaligned ↦ rw (some_bytes, unaligned) refl
      | inl aligned ↦
          rw (some_bytes, aligned, no_wrap, same)
            (after_tests x b
              (record {
                lo = start_addr;
                hi = start_addr + length;
                byte_mode = byte_mode;
                dev = dev;
              })
              apart (ground arith))
    ]
  ],
  λ a. rw same (located_entry x.devices a),
)
  where
    no_wrap : add64 start_addr length ≡ start_addr + length
    no_wrap = omega arith
