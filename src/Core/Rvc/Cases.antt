-- ===== src/Core/Rvc/Cases.antt =====
-- The cases of the `switch` on compressed instructions in `exec` of difftest/src/rv_core.hpp.
use hdu_riscv_lab.Prelude.{
  ℕ, ◌%◌, Bool, true, false, not, ◌==◌, if◌then◌else◌, Option, none, some, Outcome, ok, ◌>>=◌,
  bit_xor,
}
use hdu_riscv_lab.Word.{add64}
use hdu_riscv_lab.Bytes.{to_bytes}
use hdu_riscv_lab.Alu.{
  AluOp, alu_add, alu_sub, alu_sll, alu_xor, alu_srl, alu_sra, alu_or, alu_and, alu_exec,
}
use hdu_riscv_lab.Csr.{nonzero, exc_instr_misalign}
use hdu_riscv_lab.Priv.Trap.{ebreak}
use hdu_riscv_lab.Instr.Codes.{funct2_sub, funct2_xor_addw, funct2_or}
use hdu_riscv_lab.Core.{
  Core, Done, executed, illegal, reg, set_gpr, writes, trap, mem_read, mem_write,
}
use hdu_riscv_lab.Core.Access.{load_value}
use hdu_riscv_lab.Core.Rvc.{
  binary_concat, extended, full_rd, full_rs2, short_rs1, short_rs2, addi4spn_imm, imm6,
  addi16spn_imm, lui_imm, c_j_imm, c_b_imm,
}

-- A result of the ALU written to `rd`.
abbrev pub computes : Core → ℕ → ℕ → ℕ → AluOp → Bool → Outcome Done
computes c rd a b op op_32 = alu_exec a b op op_32 >>= λ result. writes c rd result

unfoldable pub c_addi4spn : Core → ℕ → Outcome Done
c_addi4spn c inst =
    if nonzero (addi4spn_imm inst)
    then writes c (short_rs2 inst) (add64 (reg c 2) (addi4spn_imm inst))
    else ok (illegal c)

-- A load of 4 or 8 bytes to `rd`, with their sign extended.
unfoldable pub loads : Core → ℕ → ℕ → ℕ → Outcome Done
loads c mem_addr size rd = mem_read c mem_addr size >>= λ (c', buf). elim buf [
  | none ↦ ok (executed c')
  | some bytes ↦ writes c' rd (load_value size true bytes)
]

unfoldable pub stores : Bool → Core → ℕ → ℕ → ℕ → Outcome Done
stores run_riscv_test c mem_addr size rs2 =
    mem_write run_riscv_test c mem_addr size (to_bytes 8 (reg c rs2)) >>= λ c'. ok (executed c')

unfoldable pub c_addi : Core → ℕ → Outcome Done
c_addi c inst =
    let imm = extended 5 (imm6 inst) in
    let rd = full_rd inst in
    if nonzero imm then computes c rd (reg c rd) imm alu_add false else ok (executed c)

unfoldable pub c_addiw : Core → ℕ → Outcome Done
c_addiw c inst =
    computes c (full_rd inst) (reg c (full_rd inst)) (extended 5 (imm6 inst)) alu_add true

unfoldable pub c_li : Core → ℕ → Outcome Done
c_li c inst = writes c (full_rd inst) (extended 5 (imm6 inst))

unfoldable pub c_addi16spn_lui : Core → ℕ → Outcome Done
c_addi16spn_lui c inst =
    let rd = full_rd inst in
    let sp_imm = extended 9 (addi16spn_imm inst) in
    let imm = extended 17 (lui_imm inst) in
    if rd == 2
    then (if nonzero sp_imm then writes c rd (add64 (reg c rd) sp_imm) else ok (executed c))
    else if nonzero imm
    then writes c rd imm
    else ok (executed c)

-- The operations on two registers, by `funct2` and bit 12.
unfoldable pub c_alu_table : ℕ → Bool → Option (AluOp × Bool)
c_alu_table funct2 instr_12 =
    if funct2 == funct2_sub
    then some (alu_sub, instr_12)
    else if funct2 == funct2_xor_addw
    then some (if instr_12 then alu_add else alu_xor, instr_12)
    else if instr_12
    then none
    else if funct2 == funct2_or
    then some (alu_or, false)
    else some (alu_and, false)

unfoldable pub c_alu : Core → ℕ → Outcome Done
c_alu c inst =
    let rs1 = short_rs1 inst in
    let shift = if nonzero (binary_concat inst 10 10 0) then alu_sra else alu_srl in
    if not (nonzero (binary_concat inst 11 11 0))
    then (if nonzero (imm6 inst)
        then computes c rs1 (reg c rs1) (imm6 inst) shift false
        else ok (executed c))
    else if not (nonzero (binary_concat inst 10 10 0))
    then computes c rs1 (reg c rs1) (extended 5 (imm6 inst)) alu_and false
    else elim (c_alu_table (binary_concat inst 6 5 0) (nonzero (binary_concat inst 12 12 0))) [
      | none ↦ ok (illegal c)
      | some r ↦ computes c rs1 (reg c rs1) (reg c (short_rs2 inst)) r.0 r.1
    ]

-- A jump without a test of the target.
abbrev pub jumps : Core → ℕ → Done
jumps c npc = record { core = record c { pc = npc }; ri = false; new_pc = true }

unfoldable pub c_j : Core → ℕ → Outcome Done
c_j c inst = ok (jumps c (add64 c.pc (extended 11 (c_j_imm inst))))

unfoldable pub c_branch : Core → ℕ → Bool → Outcome Done
c_branch c inst taken =
    if taken then ok (jumps c (add64 c.pc (extended 8 (c_b_imm inst)))) else ok (executed c)

unfoldable pub c_slli : Core → ℕ → Outcome Done
c_slli c inst =
    let rs1 = full_rd inst in
    if nonzero (imm6 inst)
    then computes c rs1 (reg c rs1) (imm6 inst) alu_sll false
    else ok (executed c)

-- `if (npc & 1) npc ^= 1`.
abbrev pub even_target : ℕ → ℕ
even_target npc = if npc % 2 == 1 then bit_xor npc 1 else npc

-- `jr`, and `jalr`, which writes the link first.
unfoldable pub c_jr : Core → ℕ → Outcome Core → Outcome Done
c_jr c rs1 linked =
    let npc = even_target (reg c rs1) in
    if not (npc % 4 == 0)
    then (trap c exc_instr_misalign npc >>= λ c'. ok (executed c'))
    else (linked >>= λ c'. ok (jumps c' npc))

unfoldable pub c_jr_mv_eb_jalr_add : Core → ℕ → Outcome Done
c_jr_mv_eb_jalr_add c inst =
    let rs1 = full_rd inst in
    let rs2 = full_rs2 inst in
    if nonzero (binary_concat inst 12 12 0)
    then (if rs2 == 0
        then (if rs1 == 0
            then (ebreak c.priv c.pc >>= λ p. ok (executed (record c { priv = p })))
            else c_jr c rs1 (set_gpr c 1 (add64 c.pc 2)))
        else computes c rs1 (reg c rs1) (reg c rs2) alu_add false)
    else if rs2 == 0
    then (if rs1 == 0 then ok (illegal c) else c_jr c rs1 (ok c))
    else writes c rs1 (reg c rs2)
