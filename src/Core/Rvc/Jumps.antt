-- ===== src/Core/Rvc/Jumps.antt =====
-- The compressed jumps of difftest/src/rv_core.hpp do what their expansions do.
use hdu_riscv_lab.Prelude.{
  ℕ, ◌+◌, ◌*◌, ◌%◌, ◌^◌, ◌<◌, ◌≡◌, ◌≢◌, refl, ap, ◌∙◌, sym, arith, Bool, true, false, not, ◌==◌,
  if◌then◌else◌, ok, Outcome, some,
}
use hdu_riscv_lab.Word.{add64, sext, get_bits}
use hdu_riscv_lab.Instr.{opcode, rd, funct3, rs1, rs2, b_imm, jalr_imm}
use hdu_riscv_lab.Instr.Formats.{
  j_type, b_type, i_type, r_type-Fields, j_type-fields, j_imm_lem, b_imm_lem,
}
use hdu_riscv_lab.Core.{Core, Done, executed, reg, set_gpr}
use hdu_riscv_lab.Core.Control.{jal, jalr, branch, branch_to, link_to, taken}
use hdu_riscv_lab.Core.Exec.{exec_opcode}
use hdu_riscv_lab.Core.Decoded.{i_type-Fields}
use hdu_riscv_lab.Csr.{nonzero}
use hdu_riscv_lab.Core.Rvc.{binary_concat, extended, c_j_imm, c_b_imm, full_rd, full_rs2}
use hdu_riscv_lab.Core.Rvc.Cases.{jumps, c_j, c_branch, c_jr, c_jr_mv_eb_jalr_add}
use hdu_riscv_lab.Core.Rvc.Dispatch.{rvc}
use hdu_riscv_lab.Core.Rvc.Expansion.{signed_field, reg_full, reg_full2, reg_short, j_bits, b_bits}
use hdu_riscv_lab.Core.Rvc.Immediates.{c_j_same, c_b_same, short1_same, full_same}
use hdu_riscv_lab.Core.Rvc.Groups.{group_15, group_16, group_17, group_24}
use hdu_riscv_lab.Core.Rvc.Targets.{
  forget, j_offset, b_offset, j_target, b_target, Jumps, as_jal, as_beq, as_bne, as_jalr,
}

extended_12 : (v : ℕ) → v < 4096 → extended 11 v ≡ sext 21 (signed_field 12 21 v)
extended_12 v h = ground arith

extended_9 : (v : ℕ) → v < 512 → extended 8 v ≡ sext 13 (signed_field 9 13 v)
extended_9 v h = ground arith

module _ (c : Core) (inst : ℕ) where
  c_j-target : add64 c.pc (extended 11 (c_j_imm inst)) ≡ j_target c inst
  c_j-target =
      ap (λ v. add64 c.pc (extended 11 v)) (c_j_same inst)
      ∙ ap (add64 c.pc) (extended_12 (j_bits inst) (omega arith))

  c_b-target : add64 c.pc (extended 8 (c_b_imm inst)) ≡ b_target c inst
  c_b-target =
      ap (λ v. add64 c.pc (extended 8 v)) (c_b_same inst)
      ∙ ap (add64 c.pc) (extended_9 (b_bits inst) (omega arith))

taken_lem : (a : ℕ) → (taken 0 a 0 ≡ some (a == 0)) × (taken 1 a 0 ≡ some (not (a == 0)))
unfolding taken
taken_lem a = (refl, refl)

-- A jump without a link, to an aligned target.
link_to-x0 :
    (c : Core) (w npc : ℕ)
    → rd w ≡ 0
    → npc % 4 ≡ 0
    → forget (link_to c w npc) ≡ forget (ok (jumps c npc))
unfolding link_to set_gpr
link_to-x0 c w npc e a = let aligned : (npc % 4 == 0) ≡ true = ground arith in rw (aligned, e) refl

branch_to-aligned : (c : Core) (npc : ℕ) → npc % 4 ≡ 0 → branch_to c npc ≡ ok (jumps c npc)
unfolding branch_to
branch_to-aligned c npc a = let aligned : (npc % 4 == 0) ≡ true = ground arith in rw aligned refl

module _ (rt om : Bool) (c : Core) (inst : ℕ) where
  exec-j :
      j_target c inst % 4 ≡ 0
      → forget (exec_opcode rt om c (j_type 0x6f 0 (j_offset inst)))
        ≡ forget (ok (jumps c (j_target c inst)))
  unfolding exec_opcode jal
  exec-j a =
      let w = j_type 0x6f 0 (j_offset inst) in
      let (e, r) = j_type-fields 0x6f 0 (j_offset inst) (omega arith) (omega arith) in
      let i =
        j_imm_lem 0x6f 0 (j_offset inst) (omega arith) (omega arith) (ground arith)
          (ground arith) in
      rw e (ap (λ v. forget (link_to c w (add64 c.pc v))) i ∙ link_to-x0 c w (j_target c inst) r a)

  -- A conditional branch by its condition.
  branch-taken :
      (w : ℕ) (t : Bool)
      → taken (funct3 w) (reg c (rs1 w)) (reg c (rs2 w)) ≡ some t
      → branch c w ≡ (
          if t
          then branch_to (record c { debug_is_branch = true }) (add64 c.pc (b_imm w))
          else ok (executed c))
  unfolding branch
  branch-taken w true e = rw (branch, e) refl
  branch-taken w false e = rw (branch, e) refl

  is_branch : (w : ℕ) → opcode w ≡ 0x63 → exec_opcode rt om c w ≡ branch c w
  unfolding exec_opcode
  is_branch w e = rw e refl

  exec-b :
      (f3 : ℕ) (t : Bool)
      → f3 < 8
      → reg c 0 ≡ 0
      → taken f3 (reg c (reg_short inst)) 0 ≡ some t
      → b_target c inst % 4 ≡ 0
      → forget (exec_opcode rt om c (b_type 0x63 f3 (reg_short inst) 0 (b_offset inst)))
        ≡ forget (if t then ok (jumps c (b_target c inst)) else ok (executed c))
  exec-b f3 t fits z holds a =
      let off = b_offset inst in
      let w = b_type 0x63 f3 (reg_short inst) 0 off in
      let f =
        r_type-Fields 0x63 (get_bits 1 4 off * 2 + get_bits 11 1 off) f3 (reg_short inst) 0
          (get_bits 12 1 off * 2 ^ 6 + get_bits 5 6 off) (omega arith) (omega arith) fits
          (omega arith) (omega arith) (omega arith) in
      let i =
        b_imm_lem 0x63 f3 (reg_short inst) 0 off (omega arith) fits (omega arith) (omega arith)
          (ground arith) (ground arith) in
      let cond : taken (funct3 w) (reg c (rs1 w)) (reg c (rs2 w)) ≡ some t =
        rw (f.funct3_is, f.rs1_is, f.rs2_is, z) holds in
      ap forget (is_branch w f.opcode_is ∙ branch-taken w t cond)
      ∙ ap
          (λ v. forget (
            if t
            then branch_to (record c { debug_is_branch = true }) (add64 c.pc v)
            else ok (executed c)))
          i
      ∙ ap (λ (o : Outcome Done). forget (if t then o else ok (executed c)))
          (branch_to-aligned (record c { debug_is_branch = true }) (b_target c inst) a)
      ∙ same t
    where
      same :
          (t : Bool)
          → forget (
              if t
              then ok (jumps (record c { debug_is_branch = true }) (b_target c inst))
              else ok (executed c))
            ≡ forget (if t then ok (jumps c (b_target c inst)) else ok (executed c))
      same true = refl
      same false = refl

  is_jalr :
      (w : ℕ)
      → opcode w ≡ 0x67
      → exec_opcode rt om c w ≡ link_to c w (add64 (reg c (rs1 w)) (jalr_imm w))
  unfolding exec_opcode jalr
  is_jalr w e = rw e refl

  exec-jr :
      reg c (reg_full inst) % 4 ≡ 0
      → reg c (reg_full inst) < 2 ^ 64
      → forget (exec_opcode rt om c (i_type 0x67 0 0 (reg_full inst) 0))
        ≡ forget (ok (jumps c (reg c (reg_full inst))))
  exec-jr a fits =
      let w = i_type 0x67 0 0 (reg_full inst) 0 in
      let f =
        i_type-Fields 0x67 0 0 (reg_full inst) 0 (omega arith) (omega arith) (omega arith)
          (omega arith) (omega arith) in
      let i : jalr_imm w ≡ 0 = ground arith in
      let target : add64 (reg c (rs1 w)) (jalr_imm w) ≡ reg c (reg_full inst) =
        rw (f.rs1_is, i) (omega arith) in
      ap forget (is_jalr w f.opcode_is ∙ ap (link_to c w) target)
      ∙ link_to-x0 c w (reg c (reg_full inst)) f.rd_is a

  jr_lem :
      get_bits 12 1 inst ≡ 0
      → reg_full inst ≢ 0
      → reg_full2 inst ≡ 0
      → reg c (reg_full inst) % 4 ≡ 0
      → c_jr_mv_eb_jalr_add c inst ≡ ok (jumps c (reg c (reg_full inst)))
  unfolding c_jr_mv_eb_jalr_add c_jr
  jr_lem k h l a =
      let npc = reg c (reg_full inst) in
      let bit : nonzero (binary_concat inst 12 12 0) ≡ false = ground arith in
      let no_mv : (full_rs2 inst == 0) ≡ true = ground arith in
      let named : (full_rd inst == 0) ≡ false = ground arith in
      let even : (npc % 2 == 1) ≡ false = ground arith in
      let aligned : (npc % 4 == 0) ≡ true = ground arith in
      rw (bit, no_mv, named) (rw (full_same inst, even, aligned) refl)

  -- A c.j, c.jr, c.beqz or c.bnez to a target that is aligned to four bytes does what its expansion does,
  -- on a core whose x0 is 0 and whose registers are 64-bit patterns: the same pc, registers, memory
  -- and privileged state, whatever is in the fields that are kept for the comparison. It does not speak
  -- of c.jalr, which links the address behind two bytes and not behind four.
  pub rvc-Jumps :
      (w : ℕ)
      → Jumps c inst w
      → reg c 0 ≡ 0
      → ((i : ℕ) → reg c i < 2 ^ 64)
      → forget (rvc rt c inst) ≡ forget (exec_opcode rt om c w)
  unfolding c_j c_branch
  rvc-Jumps _ (as_jal g a) z fits =
      ap forget (group_15 rt c inst g ∙ ap (λ t. ok (jumps c t)) (c_j-target c inst))
      ∙ sym (exec-j a)
  rvc-Jumps _ (as_beq g a) z fits =
      ap forget (group_16 rt c inst g)
      ∙ ap (λ r. forget (c_branch c inst (reg c r == 0))) (short1_same inst)
      ∙ ap (λ t. forget (if reg c (reg_short inst) == 0 then ok (jumps c t) else ok (executed c)))
          (c_b-target c inst)
      ∙ sym (
          exec-b 0 (reg c (reg_short inst) == 0) (omega arith) z
            (taken_lem (reg c (reg_short inst))).0 a)
  rvc-Jumps _ (as_bne g a) z fits =
      ap forget (group_17 rt c inst g)
      ∙ ap (λ r. forget (c_branch c inst (not (reg c r == 0)))) (short1_same inst)
      ∙ ap
          (λ t.
            forget (if not (reg c (reg_short inst) == 0) then ok (jumps c t) else ok (executed c)))
          (c_b-target c inst)
      ∙ sym (
          exec-b 1 (not (reg c (reg_short inst) == 0)) (omega arith) z
            (taken_lem (reg c (reg_short inst))).1 a)
  rvc-Jumps _ (as_jalr g k h l a) z fits =
      ap forget (group_24 rt c inst g ∙ jr_lem k h l a) ∙ sym (exec-jr a (fits (reg_full inst)))
