-- ===== src/Plic.antt =====
-- `rv_plic` of difftest/src/rv_plic.hpp: the interrupt controller of `nr_source` sources, of which 0 is
-- reserved, and `nr_context` contexts.
-- An access behind the end of an array is undefined: `faults`. A read gives the bytes that it puts into
-- the buffer, 4 whatever the size, so that a buffer with room for less is overrun; `none` is the result
-- `false`.
pub mod Choice
pub mod Sizes
pub mod Registers
pub mod Bounds
pub mod Faults
pub mod Claim
pub mod Examples
use hdu_riscv_lab.Prelude.{
  ℕ, zero, suc, ◌+◌, ◌-◌, ◌*◌, ◌/◌, ◌%◌, ◌^◌, Bool, true, false, not, ◌&&◌, ◌||◌, ltb, leb, ◌==◌,
  if◌then◌else◌, List, [], length, set, get_or, replicate, take, Option, none, some, bit_and,
  bit_or, Outcome, ok, faults, ◌>>=◌,
}
use hdu_riscv_lab.Word.{add64, sub64, shr}
use hdu_riscv_lab.Bytes.{to_bytes, of_bytes}

pub record Plic : Type 0 where
  pub priority : List ℕ
  pub pending : List ℕ
  pub enable : List (List ℕ)
  pub threshold : List ℕ
  pub claim : List ℕ
  pub claimed : List ℕ

-- An element of an array, and its replacement.
abbrev pub element {ℓ} : {A : Type ℓ} → List A → ℕ → A → Outcome A
element xs i d = if ltb i (length xs) then ok (get_or xs i d) else faults

abbrev pub replaced {ℓ} : {A : Type ℓ} → List A → ℕ → A → Outcome (List A)
replaced xs i v = if ltb i (length xs) then ok (set xs i v) else faults

-- `w |= 1u << b` and `w &= ~(1u << b)`.
abbrev pub with_bit : ℕ → ℕ → ℕ
with_bit b w = bit_or w (2 ^ b)

abbrev pub without_bit : ℕ → ℕ → ℕ
without_bit b w = bit_and w (2 ^ 32 - 1 - 2 ^ b)

unfoldable pub update_ext : Plic → ℕ → Bool → Outcome Plic
update_ext p source_id fired = element p.pending (source_id / 32) 0 >>= λ w.
    let cleared = without_bit (source_id % 32) w in
    replaced p.pending (source_id / 32)
      (if fired then with_bit (source_id % 32) cleared else cleared)
    >>= λ pending. ok (record p { pending = pending })

-- `words[i / 32] >> (i % 32)` as a condition.
abbrev pub line : List ℕ → ℕ → Bool
line words i = not (shr (get_or words (i / 32) 0) (i % 32) == 0)

-- The number of 32-bit words with a bit for each source.
abbrev pub nr_words : ℕ → ℕ
nr_words nr_source = (nr_source + 1 + 31) / 32

module _ (nr_source nr_context : ℕ) where
  unfoldable pub init : Plic
  init = record {
    priority = replicate (nr_source + 1) 0;
    pending = replicate (nr_words nr_source) 0;
    enable = replicate nr_context (replicate (nr_words nr_source) 0);
    threshold = replicate nr_context 0;
    claim = replicate nr_context 0;
    claimed = replicate (nr_words nr_source) 0;
  }

-- The conditions of `get_int` on source `i`, whose indices lie in the arrays.
abbrev pub prio : Plic → ℕ → ℕ
prio p i = get_or p.priority i 0

abbrev pub eligible : Plic → ℕ → ℕ → Bool
eligible p context_id i =
    leb (get_or p.threshold context_id 0) (prio p i)
    && line p.pending i
    && line (get_or p.enable context_id []) i
    && not (line p.claimed i)

-- The loop of `get_int`, with `n` sources left from `i` on.
unfoldable pub best : Plic → ℕ → ℕ → ℕ → ℕ → ℕ → ℕ
best p context_id zero i max_priority max_priority_int = max_priority_int
best p context_id (suc n) i max_priority max_priority_int =
    let better = eligible p context_id i && ltb max_priority (prio p i) in
    best p context_id n (suc i) (if better then prio p i else max_priority)
      (if better then i else max_priority_int)

-- The context of an enable register, and of the registers behind.
abbrev pub enable_context : ℕ → ℕ
enable_context start_addr = sub64 start_addr 0x2000 / 0x80

abbrev pub threshold_context : ℕ → ℕ
threshold_context start_addr = sub64 start_addr 0x200000 / 0x1000

-- A word as the bytes that are read.
abbrev pub gives : Plic → ℕ → Outcome (Plic × Option (List ℕ))
gives p w = ok (p, some (to_bytes 4 w))

-- `*((uint32_t*)buffer)` to a buffer of `room` bytes, and from the buffer.
abbrev pub put : ℕ → Plic × Option (List ℕ) → Outcome (Plic × Option (List ℕ))
put room (p, none) = ok (p, none)
put room (p, some bytes) = if leb 4 room then ok (p, some bytes) else faults

abbrev pub word_of : List ℕ → Outcome ℕ
word_of buffer = if leb 4 (length buffer) then ok (of_bytes (take 4 buffer)) else faults

-- A claim marks the source as claimed.
unfoldable pub read_claim : Plic → ℕ → Outcome (Plic × Option (List ℕ))
read_claim p context_id = element p.claim context_id 0 >>= λ c.
    element p.claimed (c / 32) 0 >>= λ w.
    replaced p.claimed (c / 32) (with_bit (c % 32) w) >>= λ claimed.
    gives (record p { claimed = claimed }) c

-- A completion takes the claim of the source that is written back.
unfoldable pub complete : Plic → ℕ → Outcome (Option Plic)
complete p source = element p.claimed (source / 32) 0 >>= λ w.
    replaced p.claimed (source / 32) (without_bit (source % 32) w) >>= λ claimed.
    ok (some (record p { claimed = claimed }))

module _ (nr_source nr_context : ℕ) where
  unfoldable pub get_int : Plic → ℕ → Outcome (Plic × Bool)
  get_int p context_id =
      let max_priority_int = best p context_id nr_source 1 0 0 in
      replaced p.claim context_id max_priority_int >>= λ claim.
      ok (record p { claim = claim }, not (max_priority_int == 0))

  -- The conditions under which a priority or an enable register is refused.
  abbrev pub bad_priority : ℕ → ℕ → Bool
  bad_priority start_addr size =
      (start_addr == 0)
      || ltb (4 * nr_source) start_addr
      || ltb (4 * (nr_source + 1)) (add64 start_addr size)

  abbrev pub bad_enable : ℕ → Bool
  bad_enable start_addr =
      leb nr_context (enable_context start_addr) || ltb nr_source (start_addr % 0x80)

  -- The word of a read, before it is put into the buffer.
  unfoldable pub read_word : Plic → ℕ → ℕ → Outcome (Plic × Option (List ℕ))
  read_word p start_addr size =
      let end_addr = add64 start_addr size in
      if leb end_addr 0x1000
      then (if bad_priority start_addr size
          then ok (p, none)
          else (element p.priority (start_addr / 4) 0 >>= λ w. gives p w))
      else if leb end_addr 0x1080
      then (if ltb nr_source (sub64 start_addr 0x1000 / 4)
          then ok (p, none)
          else (element p.pending (sub64 start_addr 0x1000 / 4) 0 >>= λ w. gives p w))
      else if leb end_addr 0x2000
      then ok (p, none)
      else if leb end_addr 0x200000
      then (if bad_enable start_addr
          then ok (p, none)
          else (element p.enable (enable_context start_addr) [] >>= λ words.
              element words (start_addr % 0x80) 0 >>= λ w. gives p w))
      else if ltb nr_context (threshold_context start_addr)
      then ok (p, none)
      else if start_addr % 0x1000 == 0
      then (element p.threshold (threshold_context start_addr) 0 >>= λ w. gives p w)
      else if start_addr % 0x1000 == 4
      then read_claim p (threshold_context start_addr)
      else ok (p, none)

  -- The caller's buffer has `room` bytes.
  unfoldable pub do_read : Plic → ℕ → ℕ → ℕ → Outcome (Plic × Option (List ℕ))
  do_read p start_addr size room = read_word p start_addr size >>= λ r. put room r

  unfoldable pub do_write : Plic → ℕ → ℕ → List ℕ → Outcome (Option Plic)
  do_write p start_addr size buffer =
      let end_addr = add64 start_addr size in
      if leb end_addr 0x1000
      then (if bad_priority start_addr size
          then ok none
          else (word_of buffer >>= λ w. replaced p.priority (start_addr / 4) w >>= λ priority.
              ok (some (record p { priority = priority }))))
      else if leb end_addr 0x1080
      then ok (some p)
      else if leb end_addr 0x2000
      then ok none
      else if leb end_addr 0x200000
      then (if bad_enable start_addr
          then ok none
          else (word_of buffer >>= λ w. element p.enable (enable_context start_addr) [] >>= λ words.
              replaced words (start_addr % 0x80) w >>= λ words'.
              replaced p.enable (enable_context start_addr) words' >>= λ enable.
              ok (some (record p { enable = enable }))))
      else if ltb nr_context (threshold_context start_addr)
      then ok none
      else if start_addr % 0x1000 == 0
      then (word_of buffer >>= λ w.
          replaced p.threshold (threshold_context start_addr) w >>= λ threshold.
          ok (some (record p { threshold = threshold })))
      else if start_addr % 0x1000 == 4
      then (word_of buffer >>= λ w. complete p w)
      else ok none
