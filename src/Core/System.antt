-- ===== src/Core/System.antt =====
-- The SYSTEM instructions in `exec` of difftest/src/rv_core.hpp.
use hdu_riscv_lab.Prelude.{
  ℕ, Bool, true, not, ◌&&◌, ◌==◌, if◌then◌else◌, Option, none, some, Outcome, ok, exits, ◌>>=◌,
  bit_and, bit_or,
}
use hdu_riscv_lab.Word.{not64, low_bits}
use hdu_riscv_lab.Priv.{Priv, csr_read, csr_write, csr_op_permission_check}
use hdu_riscv_lab.Priv.Trap.{ecall, ebreak, mret, sret, sfence_vma}
use hdu_riscv_lab.Instr.Codes.{
  funct3_priv, funct3_csrrw, funct3_csrrs, funct3_csrrc, funct3_csrrwi, funct3_csrrsi,
  funct3_csrrci, funct7_ecall_ebreak, funct7_sret_wfi, funct7_mret, funct7_sfence_vma,
}
use hdu_riscv_lab.Instr.{rd, rs1, rs2, funct3, funct7, csr_index}
use hdu_riscv_lab.Core.{Core, Done, executed, illegal, reg, set_gpr}

-- A return or a fence: its result `false` makes the instruction illegal.
abbrev pub unless_refused : Core → Option Priv → Done
unless_refused c none = illegal c
unless_refused c (some p) = executed (record c { priv = p })

abbrev pub no_operands : ℕ → Bool
no_operands inst = (rs1 inst == 0) && (rd inst == 0)

-- Under `run_riscv_test`, `a7 = 93` is the exit call of a test program.
unfoldable pub exec_ecall : Bool → Core → Outcome Done
exec_ecall run_riscv_test c =
    if run_riscv_test && (reg c 17 == 93)
    then exits (if reg c 10 == 0 then 0 else 1)
    else (ecall c.priv c.pc >>= λ p. ok (executed (record c { priv = p })))

unfoldable pub exec_ebreak : Bool → Core → Outcome Done
exec_ebreak run_riscv_test c =
    if run_riscv_test && (reg c 10 == 0)
    then exits 0
    else (ebreak c.priv c.pc >>= λ p. ok (executed (record c { priv = p })))

-- `sret` and `wfi` with operands do nothing.
unfoldable pub exec_priv : Bool → Core → ℕ → Outcome Done
exec_priv run_riscv_test c inst =
    if funct7 inst == funct7_ecall_ebreak
    then (if not (no_operands inst)
        then ok (illegal c)
        else if rs2 inst == 0
        then exec_ecall run_riscv_test c
        else if rs2 inst == 1
        then exec_ebreak run_riscv_test c
        else ok (illegal c))
    else if funct7 inst == funct7_sret_wfi
    then (if not (no_operands inst)
        then ok (executed c)
        else if rs2 inst == 2
        then ok (unless_refused c (sret c.priv))
        else if rs2 inst == 5
        then ok (executed c)
        else ok (illegal c))
    else if funct7 inst == funct7_mret
    then (if (rs2 inst == 2) && no_operands inst
        then ok (unless_refused c (mret c.priv))
        else ok (illegal c))
    else if funct7 inst == funct7_sfence_vma
    then ok
        (unless_refused c (sfence_vma c.priv (reg c (rs1 inst)) (low_bits (reg c (rs2 inst)) 16)))
    else ok (illegal c)

-- The end of a CSR instruction: the old value, where `rd` is not `x0`.
unfoldable pub give_old : Core → ℕ → ℕ → Outcome Done
give_old c inst csr_result =
    if rd inst == 0
    then ok (executed c)
    else (set_gpr c (rd inst) csr_result >>= λ c'. ok (executed c'))

module _ (run_riscv_test only_modeM : Bool) where
  -- The steps that the six share: the permission, the read, the write of `new` of the old value where
  -- there is one to make, and the result.
  unfoldable pub csr_access : Core → ℕ → Bool → (ℕ → ℕ) → Outcome Done
  csr_access c inst write new =
      if not (csr_op_permission_check c.priv (csr_index inst) write)
      then ok (illegal c)
      else elim (csr_read c.priv (csr_index inst)) [
        | none ↦ ok (illegal c)
        | some csr_result ↦
            if not write
            then give_old c inst csr_result
            else (csr_write run_riscv_test only_modeM c.priv (csr_index inst) (new csr_result)
                >>= λ done. elim done [
                  | none ↦ ok (illegal c)
                  | some p ↦ give_old (record c { priv = p }) inst csr_result
                ])
      ]

  unfoldable pub system : Core → ℕ → Outcome Done
  system c inst =
      let source = reg c (rs1 inst) in
      let uimm = rs1 inst in
      let write = not (rs1 inst == 0) in
      if funct3 inst == funct3_priv
      then exec_priv run_riscv_test c inst
      else if funct3 inst == funct3_csrrw
      then csr_access c inst true (λ old. source)
      else if funct3 inst == funct3_csrrs
      then csr_access c inst write (λ old. bit_or old source)
      else if funct3 inst == funct3_csrrc
      then csr_access c inst write (λ old. bit_and old (not64 source))
      else if funct3 inst == funct3_csrrwi
      then csr_access c inst true (λ old. uimm)
      else if funct3 inst == funct3_csrrsi
      then csr_access c inst write (λ old. bit_or old uimm)
      else if funct3 inst == funct3_csrrci
      then csr_access c inst write (λ old. bit_and old (not64 uimm))
      else ok (illegal c)
