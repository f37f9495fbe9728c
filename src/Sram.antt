-- ===== src/Sram.antt =====
-- The SRAM interface of the simulated processor in difftest/src/nscscc_sram.hpp: its pins.
-- `Pins` are the values of the pins, those of `nscscc_sram` as well as those that the references of
-- `nscscc_sram_ref` lead to; pointers are addresses, and `NULL` is 0.
pub mod Wires
pub mod Slave
pub mod Xbar
pub mod Runs
pub mod Strobe
pub mod Channel
pub mod Lookup
pub mod Memory
pub mod Misses
pub mod Examples
use hdu_riscv_lab.Prelude.{
  ℕ, Bool, true, false, not, ◌&&◌, ◌||◌, ◌==◌, if◌then◌else◌, List, [], ◌∷◌, length,
}

pub record Pins : Type 0 where
  pub inst_sram_en : ℕ
  pub inst_sram_wen : ℕ
  pub inst_sram_addr : ℕ
  pub inst_sram_wdata : ℕ
  pub inst_sram_rdata : ℕ
  pub data_sram_en : ℕ
  pub data_sram_wen : ℕ
  pub data_sram_addr : ℕ
  pub data_sram_wdata : ℕ
  pub data_sram_rdata : ℕ

-- The constructor of `nscscc_sram`.
abbrev pub blank : Pins
blank = record {
  inst_sram_en = 0;
  inst_sram_wen = 0;
  inst_sram_addr = 0;
  inst_sram_wdata = 0;
  inst_sram_rdata = 0;
  data_sram_en = 0;
  data_sram_wen = 0;
  data_sram_addr = 0;
  data_sram_wdata = 0;
  data_sram_rdata = 0;
}

-- The pins `p` after `p.update_input(ref)`, and `ref` after `p.update_output(ref)`.
unfoldable pub update_input : Pins → Pins → Pins
update_input p ref = record ref {
  inst_sram_rdata = p.inst_sram_rdata;
  data_sram_rdata = p.data_sram_rdata;
}

unfoldable pub update_output : Pins → Pins → Pins
update_output p ref = record ref {
  inst_sram_rdata = p.inst_sram_rdata;
  data_sram_rdata = p.data_sram_rdata;
}

-- The pointers of `nscscc_sram_ptr`, in the order in which `check` inserts them: of the instruction
-- channel, then of the data channel `en`, `wen`, `addr`, `wdata` and `rdata`.
pub record Pointers : Type 0 where
  pub inst_sram_en : ℕ
  pub inst_sram_wen : ℕ
  pub inst_sram_addr : ℕ
  pub inst_sram_wdata : ℕ
  pub inst_sram_rdata : ℕ
  pub data_sram_en : ℕ
  pub data_sram_wen : ℕ
  pub data_sram_addr : ℕ
  pub data_sram_wdata : ℕ
  pub data_sram_rdata : ℕ

abbrev pub pointers : Pointers → List ℕ
pointers s =
    s.inst_sram_en ∷ s.inst_sram_wen ∷ s.inst_sram_addr ∷ s.inst_sram_wdata ∷ s.inst_sram_rdata
    ∷ s.data_sram_en ∷ s.data_sram_wen ∷ s.data_sram_addr ∷ s.data_sram_wdata ∷ s.data_sram_rdata
    ∷ []

-- A `std::set` as the list of its elements, each once.
abbrev pub has : ℕ → List ℕ → Bool
has x [] = false
has x (y ∷ ys) = (x == y) || has x ys

abbrev pub insert : ℕ → List ℕ → List ℕ
insert x s = if has x s then s else x ∷ s

unfoldable pub insert_all : List ℕ → List ℕ → List ℕ
insert_all [] s = s
insert_all (x ∷ xs) s = insert_all xs (insert x s)

unfoldable pub check : Pointers → Bool
check p = let s = insert_all (pointers p) [] in (length s == 10) && not (has 0 s)
