-- ===== src/Core/Decoded.antt =====
-- What `exec` of difftest/src/rv_core.hpp does with a word that is put together by a format: the
-- dispatch on the opcode, and the fields that each group of instructions reads.
use hdu_riscv_lab.Prelude.{
  ℕ, ◌/◌, ◌%◌, ◌^◌, ◌<◌, ◌≡◌, refl, ◌∙◌, arith, Bool, true, false, Option, none, some, Outcome, ok,
  ◌>>=◌,
}
use hdu_riscv_lab.Word.{add64}
use hdu_riscv_lab.Alu.{AluOp, alu_exec}
use hdu_riscv_lab.Instr.{opcode, rd, rs1, rs2, funct3, funct7, imm12, s_imm, u_imm}
use hdu_riscv_lab.Instr.Formats.{i_type, Fields, r_type-Fields, i_type-r_type}
use hdu_riscv_lab.Core.{Core, Done, illegal, reg, writes}
use hdu_riscv_lab.Core.Control.{lui}
use hdu_riscv_lab.Core.Compute.{
  opimm_table, opimm32_table, op_table, op32_table, opimm, opimm32, op, op32,
}
use hdu_riscv_lab.Core.Access.{load_as, load, store_as, store}
use hdu_riscv_lab.Core.Rvc.Cases.{computes, loads, stores}
use hdu_riscv_lab.Core.Exec.{exec_opcode}

-- An operation of the ALU, if there is one, on two values.
unfoldable pub computed : Core → ℕ → ℕ → Option (AluOp × ℕ) → Bool → Outcome Done
computed c d a o op_32 = elim o [
  | none ↦ ok (illegal c)
  | some r ↦ alu_exec a r.1 r.0 op_32 >>= λ v. writes c d v
]

unfoldable pub computed_regs : Core → ℕ → ℕ → ℕ → Option AluOp → Bool → Outcome Done
computed_regs c d a b o op_32 = elim o [ none ↦ ok (illegal c) | some x ↦ computes c d a b x op_32 ]

-- The fields of a word of the I format.
pub i_type-Fields :
    (op d f3 s1 imm : ℕ)
    → op < 128
    → d < 32
    → f3 < 8
    → s1 < 32
    → imm < 4096
    → Fields (i_type op d f3 s1 imm) op d f3 s1 (imm % 2 ^ 5) (imm / 2 ^ 5)
i_type-Fields op d f3 s1 imm a b c e f =
    rw (i_type-r_type op d f3 s1 imm)
      (r_type-Fields op d f3 s1 (imm % 2 ^ 5) (imm / 2 ^ 5) a b c e (omega arith) (omega arith))

module _ (c : Core) (w : ℕ) where
  opimm_lem :
      opimm c w
      ≡ computed c (rd w) (reg c (rs1 w)) (opimm_table (funct7 w / 2) (funct3 w) (imm12 w)) false
  unfolding opimm computed
  opimm_lem = refl

  opimm32_lem :
      opimm32 c w
      ≡ computed c (rd w) (reg c (rs1 w)) (opimm32_table (funct7 w) (funct3 w) (imm12 w)) true
  unfolding opimm32 computed
  opimm32_lem = refl

  op_lem :
      op c w
      ≡ computed_regs c
          (rd w)
          (reg c (rs1 w))
          (reg c (rs2 w))
          (op_table (funct7 w) (funct3 w))
          false
  unfolding op computed_regs
  op_lem = refl

  op32_lem :
      op32 c w
      ≡ computed_regs c
          (rd w)
          (reg c (rs1 w))
          (reg c (rs2 w))
          (op32_table (funct7 w) (funct3 w))
          true
  unfolding op32 computed_regs
  op32_lem = refl

  load_as_lem :
      (size : ℕ) → load_as c w size true ≡ loads c (add64 (reg c (rs1 w)) (imm12 w)) size (rd w)
  unfolding load_as loads
  load_as_lem size = refl

  store_as_lem :
      (rt : Bool) (size : ℕ)
      → store_as rt c w size ≡ stores rt c (add64 (reg c (rs1 w)) (s_imm w)) size (rs2 w)
  unfolding store_as stores
  store_as_lem rt size = refl

  module _ (d f3 s1 s2 f7 imm code : ℕ) (f : Fields w code d f3 s1 s2 f7) where
    pub opimm-Fields :
        imm12 w ≡ imm → opimm c w ≡ computed c d (reg c s1) (opimm_table (f7 / 2) f3 imm) false
    opimm-Fields i = opimm_lem ∙ rw (f.rd_is, f.funct3_is, f.rs1_is, f.funct7_is, i) refl

    pub opimm32-Fields :
        imm12 w ≡ imm → opimm32 c w ≡ computed c d (reg c s1) (opimm32_table f7 f3 imm) true
    opimm32-Fields i = opimm32_lem ∙ rw (f.rd_is, f.funct3_is, f.rs1_is, f.funct7_is, i) refl

    pub op-Fields : op c w ≡ computed_regs c d (reg c s1) (reg c s2) (op_table f7 f3) false
    op-Fields = op_lem ∙ rw (f.rd_is, f.funct3_is, f.rs1_is, f.rs2_is, f.funct7_is) refl

    pub op32-Fields : op32 c w ≡ computed_regs c d (reg c s1) (reg c s2) (op32_table f7 f3) true
    op32-Fields = op32_lem ∙ rw (f.rd_is, f.funct3_is, f.rs1_is, f.rs2_is, f.funct7_is) refl

    pub load_as-Fields :
        (size : ℕ) → imm12 w ≡ imm → load_as c w size true ≡ loads c (add64 (reg c s1) imm) size d
    load_as-Fields size i = load_as_lem size ∙ rw (f.rd_is, f.rs1_is, i) refl

    pub store_as-Fields :
        (rt : Bool) (size : ℕ)
        → s_imm w ≡ imm
        → store_as rt c w size ≡ stores rt c (add64 (reg c s1) imm) size s2
    store_as-Fields rt size i = store_as_lem rt size ∙ rw (f.rs1_is, f.rs2_is, i) refl

module _ (rt om : Bool) (c : Core) where
  -- The groups of instructions by their opcode.
  module _ (w : ℕ) where
    pub is_opimm : opcode w ≡ 0x13 → exec_opcode rt om c w ≡ opimm c w
    unfolding exec_opcode
    is_opimm e = rw e refl

    pub is_opimm32 : opcode w ≡ 0x1b → exec_opcode rt om c w ≡ opimm32 c w
    unfolding exec_opcode
    is_opimm32 e = rw e refl

    pub is_op : opcode w ≡ 0x33 → exec_opcode rt om c w ≡ op c w
    unfolding exec_opcode
    is_op e = rw e refl

    pub is_op32 : opcode w ≡ 0x3b → exec_opcode rt om c w ≡ op32 c w
    unfolding exec_opcode
    is_op32 e = rw e refl

    pub is_lui : opcode w ≡ 0x37 → exec_opcode rt om c w ≡ writes c (rd w) (u_imm w)
    unfolding exec_opcode lui
    is_lui e = rw e refl

    pub is_lw : opcode w ≡ 3 → funct3 w ≡ 2 → exec_opcode rt om c w ≡ load_as c w 4 true
    unfolding exec_opcode load
    is_lw e g = rw (e, g) refl

    pub is_ld : opcode w ≡ 3 → funct3 w ≡ 3 → exec_opcode rt om c w ≡ load_as c w 8 true
    unfolding exec_opcode load
    is_ld e g = rw (e, g) refl

    pub is_sw : opcode w ≡ 0x23 → funct3 w ≡ 2 → exec_opcode rt om c w ≡ store_as rt c w 4
    unfolding exec_opcode store
    is_sw e g = rw (e, g) refl

    pub is_sd : opcode w ≡ 0x23 → funct3 w ≡ 3 → exec_opcode rt om c w ≡ store_as rt c w 8
    unfolding exec_opcode store
    is_sd e g = rw (e, g) refl
