-- ===== src/Core/Rvc/Groups.antt =====
-- The dispatch on the compressed opcode in difftest/src/rv_core.hpp, by the groups of the manual.
use hdu_riscv_lab.Prelude.{ℕ, ◌+◌, ◌*◌, ◌≡◌, refl, arith, Bool, not, ◌==◌}
use hdu_riscv_lab.Word.{add64}
use hdu_riscv_lab.Core.{Core, reg}
use hdu_riscv_lab.Core.Rvc.{
  rvc_opcode, short_rs1, short_rs2, full_rd, full_rs2, word_imm, double_imm, lwsp_imm, ldsp_imm,
  swsp_imm, sdsp_imm,
}
use hdu_riscv_lab.Core.Rvc.Cases.{
  c_addi4spn, loads, stores, c_addi, c_addiw, c_li, c_addi16spn_lui, c_alu, c_j, c_branch, c_slli,
  c_jr_mv_eb_jalr_add,
}
use hdu_riscv_lab.Core.Rvc.Dispatch.{rvc, short_address}
use hdu_riscv_lab.Core.Rvc.Expansion.{IsGroup}

IsGroup-rvc_opcode : (inst q f : ℕ) → IsGroup inst q f → rvc_opcode inst ≡ q * 8 + f
IsGroup-rvc_opcode inst q f (low, high) = omega arith

module _ (rt : Bool) (c : Core) (inst : ℕ) where
  pub group_00 : IsGroup inst 0 0 → rvc rt c inst ≡ c_addi4spn c inst
  unfolding rvc
  group_00 g = rw (IsGroup-rvc_opcode inst 0 0 g) refl

  pub group_02 :
      IsGroup inst 0 2
      → rvc rt c inst ≡ loads c (short_address c inst (word_imm inst)) 4 (short_rs2 inst)
  unfolding rvc
  group_02 g = rw (IsGroup-rvc_opcode inst 0 2 g) refl

  pub group_03 :
      IsGroup inst 0 3
      → rvc rt c inst ≡ loads c (short_address c inst (double_imm inst)) 8 (short_rs2 inst)
  unfolding rvc
  group_03 g = rw (IsGroup-rvc_opcode inst 0 3 g) refl

  pub group_06 :
      IsGroup inst 0 6
      → rvc rt c inst ≡ stores rt c (short_address c inst (word_imm inst)) 4 (short_rs2 inst)
  unfolding rvc
  group_06 g = rw (IsGroup-rvc_opcode inst 0 6 g) refl

  pub group_07 :
      IsGroup inst 0 7
      → rvc rt c inst ≡ stores rt c (short_address c inst (double_imm inst)) 8 (short_rs2 inst)
  unfolding rvc
  group_07 g = rw (IsGroup-rvc_opcode inst 0 7 g) refl

  pub group_10 : IsGroup inst 1 0 → rvc rt c inst ≡ c_addi c inst
  unfolding rvc
  group_10 g = rw (IsGroup-rvc_opcode inst 1 0 g) refl

  pub group_11 : IsGroup inst 1 1 → rvc rt c inst ≡ c_addiw c inst
  unfolding rvc
  group_11 g = rw (IsGroup-rvc_opcode inst 1 1 g) refl

  pub group_12 : IsGroup inst 1 2 → rvc rt c inst ≡ c_li c inst
  unfolding rvc
  group_12 g = rw (IsGroup-rvc_opcode inst 1 2 g) refl

  pub group_13 : IsGroup inst 1 3 → rvc rt c inst ≡ c_addi16spn_lui c inst
  unfolding rvc
  group_13 g = rw (IsGroup-rvc_opcode inst 1 3 g) refl

  pub group_14 : IsGroup inst 1 4 → rvc rt c inst ≡ c_alu c inst
  unfolding rvc
  group_14 g = rw (IsGroup-rvc_opcode inst 1 4 g) refl

  pub group_15 : IsGroup inst 1 5 → rvc rt c inst ≡ c_j c inst
  unfolding rvc
  group_15 g = rw (IsGroup-rvc_opcode inst 1 5 g) refl

  pub group_16 : IsGroup inst 1 6 → rvc rt c inst ≡ c_branch c inst (reg c (short_rs1 inst) == 0)
  unfolding rvc
  group_16 g = rw (IsGroup-rvc_opcode inst 1 6 g) refl

  pub group_17 :
      IsGroup inst 1 7 → rvc rt c inst ≡ c_branch c inst (not (reg c (short_rs1 inst) == 0))
  unfolding rvc
  group_17 g = rw (IsGroup-rvc_opcode inst 1 7 g) refl

  pub group_20 : IsGroup inst 2 0 → rvc rt c inst ≡ c_slli c inst
  unfolding rvc
  group_20 g = rw (IsGroup-rvc_opcode inst 2 0 g) refl

  pub group_22 :
      IsGroup inst 2 2 → rvc rt c inst ≡ loads c (add64 (reg c 2) (lwsp_imm inst)) 4 (full_rd inst)
  unfolding rvc
  group_22 g = rw (IsGroup-rvc_opcode inst 2 2 g) refl

  pub group_23 :
      IsGroup inst 2 3 → rvc rt c inst ≡ loads c (add64 (reg c 2) (ldsp_imm inst)) 8 (full_rd inst)
  unfolding rvc
  group_23 g = rw (IsGroup-rvc_opcode inst 2 3 g) refl

  pub group_24 : IsGroup inst 2 4 → rvc rt c inst ≡ c_jr_mv_eb_jalr_add c inst
  unfolding rvc
  group_24 g = rw (IsGroup-rvc_opcode inst 2 4 g) refl

  pub group_26 :
      IsGroup inst 2 6
      → rvc rt c inst ≡ stores rt c (add64 (reg c 2) (swsp_imm inst)) 4 (full_rs2 inst)
  unfolding rvc
  group_26 g = rw (IsGroup-rvc_opcode inst 2 6 g) refl

  pub group_27 :
      IsGroup inst 2 7
      → rvc rt c inst ≡ stores rt c (add64 (reg c 2) (sdsp_imm inst)) 8 (full_rs2 inst)
  unfolding rvc
  group_27 g = rw (IsGroup-rvc_opcode inst 2 7 g) refl
