-- ===== src/Core/Rvc/Examples.antt =====
-- Compressed instructions on the core of the example, and the theorems about them.
use hdu_riscv_lab.Prelude.{
  ℕ, zero, suc, ◌^◌, ◌<◌, ◌≡◌, refl, arith, true, false, ◌∷◌, replicate, get_or, ok,
}
use hdu_riscv_lab.Core.{reg, set_gpr, executed}
use hdu_riscv_lab.Core.Examples.{core}
use hdu_riscv_lab.Core.Exec.{exec_opcode}
use hdu_riscv_lab.Alu.{alu_exec, alu_switch}
use hdu_riscv_lab.Core.Rvc.Cases.{c_addi}
use hdu_riscv_lab.Core.Rvc.Dispatch.{rvc}
use hdu_riscv_lab.Core.Rvc.Expansion.{as_addi}
use hdu_riscv_lab.Core.Rvc.Expanded.{rvc-Expands}
use hdu_riscv_lab.Core.Rvc.Targets.{forget, as_jal}
use hdu_riscv_lab.Core.Rvc.Jumps.{rvc-Jumps}

zeros-lt : (n i : ℕ) → get_or (replicate n 0) i 0 < 2 ^ 64
zeros-lt zero i = omega arith
zeros-lt (suc n) zero = omega arith
zeros-lt (suc n) (suc i) = zeros-lt n i

core-fits : (i : ℕ) → reg core i < 2 ^ 64
core-fits i = zeros-lt 32 i

-- `c.addi x1, 5`.
added :
    rvc true core 0x0095
    ≡ ok (
        executed
          (record core { gpr = 0 ∷ 5 ∷ replicate 30 0; debug_reg_num = 1; debug_reg_wdata = 5 }))
unfolding rvc c_addi alu_exec alu_switch set_gpr
added = refl

rvc-Expands_example : rvc true core 0x0095 ≡ exec_opcode true false core 0x00508093
rvc-Expands_example =
    rvc-Expands true false core 0x0095 0x00508093 (as_addi (refl, refl) (omega arith)) refl
      core-fits

-- `c.j 8`.
rvc-Jumps_example : forget (rvc true core 0xa021) ≡ forget (exec_opcode true false core 0x0080006f)
rvc-Jumps_example =
    rvc-Jumps true false core 0xa021 0x0080006f (as_jal (refl, refl) refl) refl core-fits
