-- ===== src/Core/Operations.antt =====
-- That the jumps, branches and operations of difftest/src/rv_core.hpp keep the size of the register
-- file, x0, and words.
use hdu_riscv_lab.Prelude.{
  ℕ, ◌%◌, ◌/◌, ◌^◌, ◌<◌, arith, Bool, true, false, not, ◌==◌, Option, none, some, Outcome, ok,
  IfSome, Any, IfSome-Any, IfSome-of,
}
use hdu_riscv_lab.Word.{add64}
use hdu_riscv_lab.Alu.{AluOp, alu_exec}
use hdu_riscv_lab.Alu.Bounds.{alu_exec-lt}
use hdu_riscv_lab.Bus.Typed.{IsWord}
use hdu_riscv_lab.Csr.{exc_instr_misalign}
use hdu_riscv_lab.Instr.{rd, rs1, rs2, funct3, funct7, imm12, b_imm}
use hdu_riscv_lab.Core.{Core, Done, executed, illegal, reg, set_gpr}
use hdu_riscv_lab.Core.Typed.{IsTyped, reg-lt}
use hdu_riscv_lab.Core.Control.{link_to, branch, branch_to, taken}
use hdu_riscv_lab.Core.Compute.{
  opimm_table, opimm32_table, op_table, op32_table, compute, opimm, opimm32, op, op32,
}
use hdu_riscv_lab.Core.Registers.{
  Kept, Keeps, self, after, unchanged, pc-Kept, Keeps->>=, Keeps-after, Keeps-if, Keeps-choice,
  set_gpr-Keeps, writes-Keeps, trapped-Keeps,
}

-- An instruction, on every core.
abbrev pub Preserves : (Core → ℕ → Outcome Done) → Type 0
Preserves f = (c : Core) (inst : ℕ) → Keeps c after (f c inst)

pub link_to-Keeps : (c : Core) (inst npc : ℕ) → npc < 2 ^ 64 → Keeps c after (link_to c inst npc)
unfolding link_to
link_to-Keeps c inst npc at =
    Keeps-if c after (not (npc % 4 == 0)) _ _
      (trapped-Keeps c c after exc_instr_misalign npc _ (unchanged c) (λ t. at) (λ c' kept. kept))
      (Keeps->>= c after self
        (set_gpr (record c { debug_is_branch = true }) (rd inst) (add64 c.pc 4)) _
        (set_gpr-Keeps c (record c { debug_is_branch = true }) (rd inst) (add64 c.pc 4)
          (unchanged c) (λ t. omega arith))
        (λ c' kept. pc-Kept c c' kept npc (λ t. at)))

branch_to-Keeps :
    (c0 c : Core) (npc : ℕ) → Kept c0 c → npc < 2 ^ 64 → Keeps c0 after (branch_to c npc)
unfolding branch_to
branch_to-Keeps c0 c npc h at =
    Keeps-if c0 after (not (npc % 4 == 0)) _ _
      (trapped-Keeps c0 c after exc_instr_misalign npc _ h (λ t. at) (λ c' kept. kept))
      (pc-Kept c0 c h npc (λ t. at))

-- A choice that `none` makes illegal.
pub choice-Keeps {ℓ} :
    {A : Type ℓ} (c : Core) (P : A → Type 0) (o : Option A) (k : A → Outcome Done)
    → (IsTyped c → IfSome P o)
    → ((a : A) → (IsTyped c → P a) → Keeps c after (k a))
    → Keeps c after (elim o [ none ↦ ok (illegal c) | some a ↦ k a ])
choice-Keeps c P o k known h = Keeps-choice c P o (ok (illegal c)) k known (unchanged c) h

pub branch-Preserves : Preserves branch
unfolding branch
branch-Preserves c inst =
    let choice = taken (funct3 inst) (reg c (rs1 inst)) (reg c (rs2 inst)) in
    choice-Keeps c Any choice _ (λ t. IfSome-Any choice) (λ b _. goes b)
  where
    goes :
        (b : Bool)
        → Keeps c after (elim b [
          | false ↦ ok (executed c)
          | true ↦ branch_to (record c { debug_is_branch = true }) (add64 c.pc (b_imm inst))
        ])
    goes false = unchanged c
    goes true =
        branch_to-Keeps c (record c { debug_is_branch = true }) (add64 c.pc (b_imm inst))
          (unchanged c) (omega arith)

compute-Keeps :
    (c : Core) (inst a b : ℕ) (o : AluOp) (op_32 : Bool)
    → (IsTyped c → a < 2 ^ 64)
    → (IsTyped c → b < 2 ^ 64)
    → Keeps c after (compute c inst a b o op_32)
compute-Keeps c inst a b o op_32 ha hb =
    Keeps-after c after IsWord (alu_exec a b o op_32) _ (λ t. alu_exec-lt a b o op_32 (ha t) (hb t))
      (λ v word. writes-Keeps c c (rd inst) v (unchanged c) word)

-- The second operand of an operation on an immediate.
abbrev Operand : AluOp × ℕ → Type 0
Operand (o, b) = b < 2 ^ 64

imm12-lt : (inst : ℕ) → imm12 inst < 2 ^ 64
imm12-lt inst = ground arith

opimm_table-lt : (fun6 fun3 imm : ℕ) → imm < 2 ^ 64 → IfSome Operand (opimm_table fun6 fun3 imm)
unfolding opimm_table
opimm_table-lt fun6 fun3 imm h =
    IfSome-of Operand (opimm_table fun6 fun3 imm) λ r e. ground (arith, h, e)

opimm32_table-lt : (fun7 fun3 imm : ℕ) → imm < 2 ^ 64 → IfSome Operand (opimm32_table fun7 fun3 imm)
unfolding opimm32_table
opimm32_table-lt fun7 fun3 imm h =
    IfSome-of Operand (opimm32_table fun7 fun3 imm) λ r e. ground (arith, h, e)

pub opimm-Preserves : Preserves opimm
unfolding opimm
opimm-Preserves c inst =
    choice-Keeps c Operand (opimm_table (funct7 inst / 2) (funct3 inst) (imm12 inst)) _
      (λ t. opimm_table-lt (funct7 inst / 2) (funct3 inst) (imm12 inst) (imm12-lt inst))
      (λ r word. compute-Keeps c inst (reg c (rs1 inst)) r.1 r.0 false (reg-lt c (rs1 inst)) word)

pub opimm32-Preserves : Preserves opimm32
unfolding opimm32
opimm32-Preserves c inst =
    choice-Keeps c Operand (opimm32_table (funct7 inst) (funct3 inst) (imm12 inst)) _
      (λ t. opimm32_table-lt (funct7 inst) (funct3 inst) (imm12 inst) (imm12-lt inst))
      (λ r word. compute-Keeps c inst (reg c (rs1 inst)) r.1 r.0 true (reg-lt c (rs1 inst)) word)

pub op-Preserves : Preserves op
unfolding op
op-Preserves c inst =
    choice-Keeps c Any (op_table (funct7 inst) (funct3 inst)) _ (λ t. IfSome-Any _)
      (λ o _.
        compute-Keeps c inst (reg c (rs1 inst)) (reg c (rs2 inst)) o false (reg-lt c (rs1 inst))
          (reg-lt c (rs2 inst)))

pub op32-Preserves : Preserves op32
unfolding op32
op32-Preserves c inst =
    choice-Keeps c Any (op32_table (funct7 inst) (funct3 inst)) _ (λ t. IfSome-Any _)
      (λ o _.
        compute-Keeps c inst (reg c (rs1 inst)) (reg c (rs2 inst)) o true (reg-lt c (rs1 inst))
          (reg-lt c (rs2 inst)))
