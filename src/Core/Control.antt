-- ===== src/Core/Control.antt =====
-- Jumps and branches in `exec` of difftest/src/rv_core.hpp. `PC_ALIGN` is 4.
use hdu_riscv_lab.Prelude.{
  ℕ, ◌%◌, Bool, true, false, not, ltb, ◌==◌, if◌then◌else◌, Option, none, some, Outcome, ok, ◌>>=◌,
}
use hdu_riscv_lab.Word.{add64, signed64}
use hdu_riscv_lab.Word.Int.{ltb_ℤ}
use hdu_riscv_lab.Csr.{exc_instr_misalign}
use hdu_riscv_lab.Instr.Codes.{
  funct3_beq, funct3_bne, funct3_blt, funct3_bge, funct3_bltu, funct3_bgeu,
}
use hdu_riscv_lab.Instr.{rd, rs1, rs2, funct3, b_imm, u_imm, j_imm, jalr_imm}
use hdu_riscv_lab.Core.{Core, Done, executed, illegal, reg, set_gpr, writes, trap}

unfoldable pub lui : Core → ℕ → Outcome Done
lui c inst = writes c (rd inst) (u_imm inst)

unfoldable pub auipc : Core → ℕ → Outcome Done
auipc c inst = writes c (rd inst) (add64 (u_imm inst) c.pc)

-- The end of `jal` and `jalr`: the link is written, unless the target is not aligned.
unfoldable pub link_to : Core → ℕ → ℕ → Outcome Done
link_to c inst npc =
    if not (npc % 4 == 0)
    then (trap c exc_instr_misalign npc >>= λ c'. ok (executed c'))
    else (set_gpr (record c { debug_is_branch = true }) (rd inst) (add64 c.pc 4) >>= λ c'.
        ok (record { core = record c' { pc = npc }; ri = false; new_pc = true }))

unfoldable pub jal : Core → ℕ → Outcome Done
jal c inst = link_to c inst (add64 c.pc (j_imm inst))

unfoldable pub jalr : Core → ℕ → Outcome Done
jalr c inst = link_to c inst (add64 (reg c (rs1 inst)) (jalr_imm inst))

-- The condition of a branch; `none` is no branch.
unfoldable pub taken : ℕ → ℕ → ℕ → Option Bool
taken fun3 a b =
    if fun3 == funct3_beq
    then some (a == b)
    else if fun3 == funct3_bne
    then some (not (a == b))
    else if fun3 == funct3_blt
    then some (ltb_ℤ (signed64 a) (signed64 b))
    else if fun3 == funct3_bge
    then some (not (ltb_ℤ (signed64 a) (signed64 b)))
    else if fun3 == funct3_bltu
    then some (ltb a b)
    else if fun3 == funct3_bgeu
    then some (not (ltb a b))
    else none

-- A taken branch to `npc`.
unfoldable pub branch_to : Core → ℕ → Outcome Done
branch_to c npc =
    if not (npc % 4 == 0)
    then (trap c exc_instr_misalign npc >>= λ c'.
        ok (record { core = c'; ri = false; new_pc = true }))
    else ok (record { core = record c { pc = npc }; ri = false; new_pc = true })

unfoldable pub branch : Core → ℕ → Outcome Done
branch c inst = elim (taken (funct3 inst) (reg c (rs1 inst)) (reg c (rs2 inst))) [
  | none ↦ ok (illegal c)
  | some false ↦ ok (executed c)
  | some true ↦ branch_to (record c { debug_is_branch = true }) (add64 c.pc (b_imm inst))
]
