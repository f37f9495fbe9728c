-- ===== src/Mem/Examples.antt =====
-- Runs of a small memory, and the theorems about memories at concrete accesses.
use hdu_riscv_lab.Prelude.{
  ℕ, ◌+◌, ◌≤◌, ◌<◌, ◌≡◌, ◌⊎◌, refl, true, false, List, [], ◌∷◌, take, some, none, arith,
}
use hdu_riscv_lab.Bytes.{store}
use hdu_riscv_lab.Mem.{
  Mem, new_mem, do_read, do_write, write_at, agrees, save_binary, set_allow_warp,
}
use hdu_riscv_lab.Mem.Laws.{at, do_write-do_read}

abbrev zeros : ℕ → ℕ
zeros i = 0

abbrev small : Mem
small = record {
  mem = zeros;
  mem_size = 8;
  allow_warp = false;
  diff_mem_write = false;
  diff_mem = zeros;
  running = true;
}

abbrev three : List ℕ
three = 1 ∷ 2 ∷ 3 ∷ []

abbrev small_written : Mem
small_written = record small { mem = store zeros 4 (take 3 three) }

written : do_write small 4 3 three ≡ some small_written
unfolding do_write write_at
written = refl

new_is_small : set_allow_warp (new_mem 8 zeros) false ≡ record small { allow_warp = true }
unfolding set_allow_warp new_mem
new_is_small = refl

saved : save_binary small_written ≡ 0 ∷ 0 ∷ 0 ∷ 0 ∷ 1 ∷ 2 ∷ 3 ∷ 0 ∷ []
unfolding save_binary
saved = refl

behind_the_end : do_write small 6 3 three ≡ none
unfolding do_write
behind_the_end = refl

compared_written :
    do_write (record small { diff_mem_write = true }) 4 3 three
    ≡ some (record small_written { diff_mem_write = true; running = false })
unfolding do_write write_at agrees
compared_written = refl

abbrev long : List ℕ
long = 1 ∷ 2 ∷ 3 ∷ 4 ∷ 5 ∷ 6 ∷ 7 ∷ 8 ∷ []

do_write-do_read_example :
    (do_read small_written 4 3 ≡ some (take 3 three))
    × (at small 4 3 three + 3 ≤ small.mem_size)
    × (small_written.mem_size ≡ small.mem_size)
    × ((i : ℕ)
        → (i < at small 4 3 three) ⊎ (at small 4 3 three + 3 ≤ i)
        → small_written.mem i ≡ small.mem i)
do_write-do_read_example =
    do_write-do_read small small_written 4 3 three (omega arith) (omega arith) written
