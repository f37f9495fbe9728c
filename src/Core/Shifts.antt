-- ===== src/Core/Shifts.antt =====
-- The decoding of shifts by an immediate in difftest/src/rv_core.hpp.
use hdu_riscv_lab.Prelude.{ℕ, ◌^◌, ◌<◌, ◌≤◌, ◌≡◌, ◌⊎◌, ◌↔◌, arith, some}
use hdu_riscv_lab.Alu.{alu_sll}
use hdu_riscv_lab.Core.Compute.{opimm_table}

-- An immediate left shift is accepted with the amounts below 64, as it should be, and with all
-- immediates that are negative, whose upper bits name no instruction.
pub opimm_table-slli_iff :
    (fun6 imm : ℕ)
    → imm < 2 ^ 64
    → (opimm_table fun6 1 imm ≡ some (alu_sll, imm)) ↔ ((imm < 64) ⊎ (2 ^ 63 ≤ imm))
unfolding opimm_table
opimm_table-slli_iff fun6 imm fits = (λ e. ground (arith, e), λ h. ground (arith, h))
