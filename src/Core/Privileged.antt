-- ===== src/Core/Privileged.antt =====
-- That the SYSTEM instructions of difftest/src/rv_core.hpp keep the size of the register file, x0, and
-- words and bytes.
use hdu_riscv_lab.Prelude.{
  ℕ, ◌<◌, ◌^◌, arith, Bool, true, not, ◌&&◌, ◌==◌, Option, none, some, Outcome, ok, ◌>>=◌, bit_and,
  bit_or, Ensures, IfSome,
}
use hdu_riscv_lab.Word.{low_bits, not64}
use hdu_riscv_lab.Word.Bits.{bit_and-lt, bit_or-lt}
use hdu_riscv_lab.Bus.Typed.{IsWord}
use hdu_riscv_lab.Priv.{Priv, csr_read, csr_write, csr_op_permission_check}
use hdu_riscv_lab.Priv.Trap.{ecall, ebreak, mret, sret, sfence_vma}
use hdu_riscv_lab.Priv.Typed as Csrs
use hdu_riscv_lab.Priv.Typed.{
  csr_read-IsTyped, csr_write-IsTyped, ecall-IsTyped, ebreak-IsTyped, mret-IsTyped, sret-IsTyped,
  sfence_vma-IsTyped, pre_exec-IsTyped, check_and_raise_int-IsTyped, post_exec-IsTyped, trap_pc-lt,
}
use hdu_riscv_lab.Instr.{rd, rs1, rs2, funct3, funct7, csr_index}
use hdu_riscv_lab.Core.{Core, executed, reg}
use hdu_riscv_lab.Core.Typed.{IsTyped, reg-lt}
use hdu_riscv_lab.Core.System.{
  unless_refused, no_operands, exec_ecall, exec_ebreak, exec_priv, give_old, csr_access, system,
}
use hdu_riscv_lab.Core.Operations.{Preserves, choice-Keeps}
use hdu_riscv_lab.Core.Registers.{
  Kept, Keeps, after, unchanged, priv-Kept, Keeps-after, Keeps-if, writes-Keeps,
}

unless_refused-Keeps :
    (c : Core) (o : Option Priv)
    → (IsTyped c → IfSome Csrs.IsTyped o)
    → Keeps c after (ok (unless_refused c o))
unless_refused-Keeps c none known = unchanged c
unless_refused-Keeps c (some p) known = priv-Kept c c (unchanged c) p known

-- A trap that an instruction asks for.
raised-Keeps :
    (c : Core) (call : Outcome Priv)
    → (IsTyped c → Ensures Csrs.IsTyped call)
    → Keeps c after (call >>= λ p. ok (executed (record c { priv = p })))
raised-Keeps c call known =
    Keeps-after c after Csrs.IsTyped call _ known (λ p new. priv-Kept c c (unchanged c) p new)

exec_ecall-Keeps : (run_test : Bool) (c : Core) → Keeps c after (exec_ecall run_test c)
unfolding exec_ecall
exec_ecall-Keeps run_test c = Keeps-if c after (run_test && (reg c 17 == 93)) _ _ tt (
    raised-Keeps c (ecall c.priv c.pc)
      (λ (words, at, csrs, held). ecall-IsTyped c.priv c.pc at csrs))

exec_ebreak-Keeps : (run_test : Bool) (c : Core) → Keeps c after (exec_ebreak run_test c)
unfolding exec_ebreak
exec_ebreak-Keeps run_test c = Keeps-if c after (run_test && (reg c 10 == 0)) _ _ tt (
    raised-Keeps c (ebreak c.priv c.pc)
      (λ (words, at, csrs, held). ebreak-IsTyped c.priv c.pc at csrs))

exec_priv-Preserves : (run_test : Bool) → Preserves (exec_priv run_test)
unfolding exec_priv
exec_priv-Preserves run_test c inst =
    Keeps-if c after (funct7 inst == 0) _ _
      (Keeps-if c after (not (no_operands inst)) _ _ (unchanged c) (
        Keeps-if c after (rs2 inst == 0) _ _ (exec_ecall-Keeps run_test c)
          (Keeps-if c after (rs2 inst == 1) _ _ (exec_ebreak-Keeps run_test c) (unchanged c))))
      (Keeps-if c after (funct7 inst == 8) _ _
        (Keeps-if c after (not (no_operands inst)) _ _ (unchanged c) (
          Keeps-if c after (rs2 inst == 2) _ _
            (unless_refused-Keeps c (sret c.priv)
              (λ (words, at, csrs, held). sret-IsTyped c.priv csrs))
            (Keeps-if c after (rs2 inst == 5) _ _ (unchanged c) (unchanged c))))
        (Keeps-if c after (funct7 inst == 0x18) _ _
          (Keeps-if c after ((rs2 inst == 2) && no_operands inst) _ _
            (unless_refused-Keeps c (mret c.priv)
              (λ (words, at, csrs, held). mret-IsTyped c.priv csrs))
            (unchanged c))
          (Keeps-if c after (funct7 inst == 9) _ _
            (unless_refused-Keeps c
              (sfence_vma c.priv (reg c (rs1 inst)) (low_bits (reg c (rs2 inst)) 16))
              (λ (words, at, csrs, held). sfence_vma-IsTyped c.priv _ _ csrs))
            (unchanged c))))

give_old-Keeps :
    (c0 c : Core) (inst v : ℕ)
    → Kept c0 c
    → (IsTyped c0 → v < 2 ^ 64)
    → Keeps c0 after (give_old c inst v)
unfolding give_old
give_old-Keeps c0 c inst v h word =
    Keeps-if c0 after (rd inst == 0) _ _ h (writes-Keeps c0 c (rd inst) v h word)

module _ (run_test only_m : Bool) where
  csr_access-Keeps :
      (c : Core) (inst : ℕ) (write : Bool) (new : ℕ → ℕ)
      → (IsTyped c → (old : ℕ) → old < 2 ^ 64 → new old < 2 ^ 64)
      → Keeps c after (csr_access run_test only_m c inst write new)
  unfolding csr_access
  csr_access-Keeps c inst write new word =
      let i = csr_index inst in
      Keeps-if c after (not (csr_op_permission_check c.priv i write)) _ _ (unchanged c) (
        choice-Keeps c IsWord (csr_read c.priv i) _
          (λ (words, at, csrs, held). csr_read-IsTyped c.priv i csrs)
          (λ old known.
            Keeps-if c after (not write) _ _ (give_old-Keeps c c inst old (unchanged c) known) (
              Keeps-after c after (IfSome Csrs.IsTyped)
                (csr_write run_test only_m c.priv i (new old)) _
                (λ t.
                  csr_write-IsTyped run_test only_m c.priv i (new old) (word t old (known t)) t.2)
                (λ done wrote. choice-Keeps c Csrs.IsTyped done _ wrote (λ p typed.
                  give_old-Keeps c (record c { priv = p }) inst old
                    (priv-Kept c c (unchanged c) p typed) known)))))

  pub system-Preserves : Preserves (system run_test only_m)
  unfolding system
  system-Preserves c inst =
      let source = reg c (rs1 inst) in
      let uimm = rs1 inst in
      let write = not (rs1 inst == 0) in
      let small : uimm < 2 ^ 64 = omega arith in
      let source_lt = reg-lt c (rs1 inst) in
      Keeps-if c after (funct3 inst == 0) _ _ (exec_priv-Preserves run_test c inst) (
        Keeps-if c after (funct3 inst == 1) _ _
          (csr_access-Keeps c inst true (λ old. source) (λ t old h. source_lt t))
          (Keeps-if c after (funct3 inst == 2) _ _
            (csr_access-Keeps c inst write (λ old. bit_or old source)
              (λ t old h. bit_or-lt 64 old source h (source_lt t)))
            (Keeps-if c after (funct3 inst == 3) _ _
              (csr_access-Keeps c inst write (λ old. bit_and old (not64 source))
                (λ t old h. bit_and-lt 64 old (not64 source) h))
              (Keeps-if c after (funct3 inst == 5) _ _
                (csr_access-Keeps c inst true (λ old. uimm) (λ t old h. small))
                (Keeps-if c after (funct3 inst == 6) _ _
                  (csr_access-Keeps c inst write (λ old. bit_or old uimm)
                    (λ t old h. bit_or-lt 64 old uimm h small))
                  (Keeps-if c after (funct3 inst == 7) _ _
                    (csr_access-Keeps c inst write (λ old. bit_and old (not64 uimm))
                      (λ t old h. bit_and-lt 64 old (not64 uimm) h))
                    (unchanged c)))))))
