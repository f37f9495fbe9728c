-- ===== src/Core/Rvc/Accesses.antt =====
-- The compressed loads and stores of difftest/src/rv_core.hpp do what their expansions do.
use hdu_riscv_lab.Prelude.{ℕ, ◌<◌, ◌≡◌, refl, ◌∙◌, sym, arith, Bool}
use hdu_riscv_lab.Word.{add64, sext}
use hdu_riscv_lab.Instr.Formats.{i_type, s_type}
use hdu_riscv_lab.Core.{Core, reg}
use hdu_riscv_lab.Core.Exec.{exec_opcode}
use hdu_riscv_lab.Core.Words.{exec-lw, exec-ld, exec-sw, exec-sd}
use hdu_riscv_lab.Core.Rvc.Cases.{loads, stores}
use hdu_riscv_lab.Core.Rvc.Immediates.{sext_positive}

-- An access with the operands of its expansion.
module _ (c : Core) (base base' d d' imm imm' : ℕ) (bases : base ≡ base') (regs : d ≡ d')
    (imms : imm ≡ imm') (small : imm' < 2048) where
  address : add64 (reg c base) imm ≡ add64 (reg c base') (sext 12 imm')
  address = rw (bases, imms, sext_positive imm' small) refl

  pub loads_same :
      (size : ℕ)
      → loads c (add64 (reg c base) imm) size d
        ≡ loads c (add64 (reg c base') (sext 12 imm')) size d'
  loads_same size = rw (address, regs) refl

  pub stores_same :
      (rt : Bool) (size : ℕ)
      → stores rt c (add64 (reg c base) imm) size d
        ≡ stores rt c (add64 (reg c base') (sext 12 imm')) size d'
  stores_same rt size = rw (address, regs) refl

  module _ (rt om : Bool) (base_fits : base' < 32) (reg_fits : d' < 32) where
    pub loads-lw :
        loads c (add64 (reg c base) imm) 4 d ≡ exec_opcode rt om c (i_type 3 d' 2 base' imm')
    loads-lw = loads_same 4 ∙ sym (exec-lw rt om c d' base' imm' reg_fits base_fits (omega arith))

    pub loads-ld :
        loads c (add64 (reg c base) imm) 8 d ≡ exec_opcode rt om c (i_type 3 d' 3 base' imm')
    loads-ld = loads_same 8 ∙ sym (exec-ld rt om c d' base' imm' reg_fits base_fits (omega arith))

    pub stores-sw :
        stores rt c (add64 (reg c base) imm) 4 d ≡ exec_opcode rt om c (s_type 0x23 2 base' d' imm')
    stores-sw =
        stores_same rt 4 ∙ sym (exec-sw rt om c base' d' imm' base_fits reg_fits (omega arith))

    pub stores-sd :
        stores rt c (add64 (reg c base) imm) 8 d ≡ exec_opcode rt om c (s_type 0x23 3 base' d' imm')
    stores-sd =
        stores_same rt 8 ∙ sym (exec-sd rt om c base' d' imm' base_fits reg_fits (omega arith))
