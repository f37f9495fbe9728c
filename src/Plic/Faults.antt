-- ===== src/Plic/Faults.antt =====
-- The accesses of `rv_plic` (difftest/src/rv_plic.hpp) that leave its arrays.
use hdu_riscv_lab.Prelude.{ℕ, ◌/◌, ◌%◌, Bool, false, ◌&&◌, ltb, leb, ◌==◌, if◌then◌else◌}
use hdu_riscv_lab.Word.{add64, sub64}
use hdu_riscv_lab.Plic.{Plic, nr_words, enable_context, threshold_context}

-- An array of `words` words, of which the code admits the indices up to `nr_source`.
abbrev pub behind : ℕ → ℕ → ℕ → Bool
behind words nr_source i = leb words i && leb i nr_source

-- The reads that leave the arrays: the tests of the code compare the index of a word, or for an enable
-- register its offset in bytes, with the number of sources, and let one context too many pass.
abbrev pub leaves_on_read : ℕ → ℕ → ℕ → ℕ → Bool
leaves_on_read nr_source nr_context start_addr size =
    let end_addr = add64 start_addr size in
    let context_id = threshold_context start_addr in
    if leb end_addr 0x1000
    then false
    else if leb end_addr 0x1080
    then behind (nr_words nr_source) nr_source (sub64 start_addr 0x1000 / 4)
    else if leb end_addr 0x2000
    then false
    else if leb end_addr 0x200000
    then ltb (enable_context start_addr) nr_context
      && behind (nr_words nr_source) nr_source (start_addr % 0x80)
    else if start_addr % 0x1000 == 0
    then (context_id == nr_context)
    else ((start_addr % 0x1000 == 4) && leb context_id nr_context && leb nr_context context_id)

-- The writes of the word `value` that do: a completion names a source that has no bit.
abbrev pub leaves_on_write : ℕ → ℕ → ℕ → ℕ → ℕ → Bool
leaves_on_write nr_source nr_context start_addr size value =
    let end_addr = add64 start_addr size in
    let context_id = threshold_context start_addr in
    if leb end_addr 0x2000
    then false
    else if leb end_addr 0x200000
    then ltb (enable_context start_addr) nr_context
      && behind (nr_words nr_source) nr_source (start_addr % 0x80)
    else if start_addr % 0x1000 == 0
    then (context_id == nr_context)
    else ((start_addr % 0x1000 == 4)
        && leb context_id nr_context
        && leb (nr_words nr_source) (value / 32))
