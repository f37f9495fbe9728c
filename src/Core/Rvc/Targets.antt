-- ===== src/Core/Rvc/Targets.antt =====
-- The compressed jumps of difftest/src/rv_core.hpp and their 32-bit expansions, as the manual of the
-- instruction set gives them.
use hdu_riscv_lab.Prelude.{ℕ, ◌%◌, ◌≡◌, ◌≢◌, false, ◌>>=◌, ok, Outcome}
use hdu_riscv_lab.Word.{add64, sext, get_bits}
use hdu_riscv_lab.Instr.Formats.{j_type, b_type, i_type}
use hdu_riscv_lab.Core.{Core, Done, reg}
use hdu_riscv_lab.Core.Rvc.Expansion.{
  IsGroup, signed_field, reg_full, reg_full2, reg_short, j_bits, b_bits,
}

-- The outcome without the fields that the comparison reads.
abbrev pub forgotten : Done → Done
forgotten d = record d {
  core = record d.core { debug_is_branch = false; debug_reg_num = 0; debug_reg_wdata = 0 };
}

abbrev pub forget : Outcome Done → Outcome Done
forget o = o >>= λ d. ok (forgotten d)

-- The offsets, and where they lead.
abbrev pub j_offset : ℕ → ℕ
j_offset inst = signed_field 12 21 (j_bits inst)

abbrev pub b_offset : ℕ → ℕ
b_offset inst = signed_field 9 13 (b_bits inst)

abbrev pub j_target : Core → ℕ → ℕ
j_target c inst = add64 c.pc (sext 21 (j_offset inst))

abbrev pub b_target : Core → ℕ → ℕ
b_target c inst = add64 c.pc (sext 13 (b_offset inst))

-- The jumps whose target is aligned to four bytes, and their expansions.
pub data Jumps (c : Core) (inst : ℕ) : ℕ → Type 0 where
  as_jal : IsGroup inst 1 5 → j_target c inst % 4 ≡ 0 → Jumps c inst (j_type 0x6f 0 (j_offset inst))
  as_beq :
      IsGroup inst 1 6
      → b_target c inst % 4 ≡ 0
      → Jumps c inst (b_type 0x63 0 (reg_short inst) 0 (b_offset inst))
  as_bne :
      IsGroup inst 1 7
      → b_target c inst % 4 ≡ 0
      → Jumps c inst (b_type 0x63 1 (reg_short inst) 0 (b_offset inst))
  as_jalr :
      IsGroup inst 2 4
      → get_bits 12 1 inst ≡ 0
      → reg_full inst ≢ 0
      → reg_full2 inst ≡ 0
      → reg c (reg_full inst) % 4 ≡ 0
      → Jumps c inst (i_type 0x67 0 0 (reg_full inst) 0)
