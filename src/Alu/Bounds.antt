-- ===== src/Alu/Bounds.antt =====
-- Ranges of the results of `alu_exec`.
use hdu_riscv_lab.Prelude.{
  ℕ, ◌*◌, ◌^◌, ◌<◌, ◌≤◌, ◌≡◌, ◌≢◌, refl, Bool, true, false, ok, arith, Ensures, Ensures-any,
  Ensures-of, Ensures->>=,
}
use hdu_riscv_lab.Word.{sext32}
use hdu_riscv_lab.Word.Bits.{bit_and-lt, bit_or-lt, bit_xor-lt}
use hdu_riscv_lab.Word.Signed.{sext32-lt, sext32-sext32, word64-lt}
use hdu_riscv_lab.Alu.{
  AluOp, alu_add, alu_sub, alu_sll, alu_slt, alu_sltu, alu_xor, alu_srl, alu_sra, alu_or, alu_and,
  alu_mul, alu_mulh, alu_mulhu, alu_mulhsu, alu_div, alu_divu, alu_rem, alu_remu, alu_nop, mulh,
  mulhu, mulhsu, div, divu, remainder, remainderu, alu_switch, alu_exec,
}

mulhu-lt : (a b : ℕ) → a < 2 ^ 64 → b < 2 ^ 64 → mulhu a b < 2 ^ 64
unfolding mulhu
mulhu-lt a b ha hb = let below : a * b ≤ a * (2 ^ 64) = grind arith in omega arith

mulh-lt : (a b : ℕ) → mulh a b < 2 ^ 64
unfolding mulh
mulh-lt a b = word64-lt _

mulhsu-lt : (a b : ℕ) → mulhsu a b < 2 ^ 64
unfolding mulhsu
mulhsu-lt a b = ground arith

div-lt : (a b : ℕ) → div a b < 2 ^ 64
unfolding div
div-lt a b = ground arith

remainder-lt : (a b : ℕ) → a < 2 ^ 64 → remainder a b < 2 ^ 64
unfolding remainder
remainder-lt a b ha = ground arith

divu-lt : (w : Bool) (a b : ℕ) → a < 2 ^ 64 → divu w a b < 2 ^ 64
unfolding divu
divu-lt w a b ha = ground arith

remainderu-lt : (w : Bool) (a b : ℕ) → a < 2 ^ 64 → remainderu w a b < 2 ^ 64
unfolding remainderu
remainderu-lt w a b ha = ground arith

alu_switch-lt :
    (a b : ℕ) (op : AluOp) (w : Bool) {r : ℕ}
    → a < 2 ^ 64
    → b < 2 ^ 64
    → alu_switch a b op w ≡ ok r
    → r < 2 ^ 64
unfolding alu_switch
alu_switch-lt a b alu_add w ha hb e = ground arith
alu_switch-lt a b alu_sub w ha hb e = ground arith
alu_switch-lt a b alu_sll w ha hb e = ground arith
alu_switch-lt a b alu_slt w ha hb e = ground arith
alu_switch-lt a b alu_sltu w ha hb e = ground arith
alu_switch-lt a b alu_xor w ha hb e = ground (arith, bit_xor-lt 64 a b)
alu_switch-lt a b alu_srl w ha hb e = ground arith
alu_switch-lt a b alu_sra w ha hb e = ground (arith)
alu_switch-lt a b alu_or w ha hb e = ground (arith, bit_or-lt 64 a b)
alu_switch-lt a b alu_and w ha hb e = ground (arith, bit_and-lt 64 a b)
alu_switch-lt a b alu_mul w ha hb e = ground arith
alu_switch-lt a b alu_mulh w ha hb e = ground (arith, mulh-lt a b)
alu_switch-lt a b alu_mulhu w ha hb e = ground (arith, mulhu-lt a b)
alu_switch-lt a b alu_mulhsu w ha hb e = ground (arith, mulhsu-lt a b)
alu_switch-lt a b alu_div w ha hb e = ground (arith, div-lt a b)
alu_switch-lt a b alu_divu w ha hb e = ground (arith, divu-lt w a b)
alu_switch-lt a b alu_rem w ha hb e = ground (arith, remainder-lt a b)
alu_switch-lt a b alu_remu w ha hb e = ground (arith, remainderu-lt w a b)
alu_switch-lt a b alu_nop w ha hb e = cc

alu_switch_total :
    (a b : ℕ) (op : AluOp) (w : Bool) → op ≢ alu_nop → (r : ℕ) × (alu_switch a b op w ≡ ok r)
unfolding alu_switch
alu_switch_total a b alu_add w ne = (_, refl)
alu_switch_total a b alu_sub w ne = (_, refl)
alu_switch_total a b alu_sll w ne = (_, refl)
alu_switch_total a b alu_slt w ne = (_, refl)
alu_switch_total a b alu_sltu w ne = (_, refl)
alu_switch_total a b alu_xor w ne = (_, refl)
alu_switch_total a b alu_srl w ne = (_, refl)
alu_switch_total a b alu_sra w ne = (_, refl)
alu_switch_total a b alu_or w ne = (_, refl)
alu_switch_total a b alu_and w ne = (_, refl)
alu_switch_total a b alu_mul w ne = (_, refl)
alu_switch_total a b alu_mulh w ne = (_, refl)
alu_switch_total a b alu_mulhu w ne = (_, refl)
alu_switch_total a b alu_mulhsu w ne = (_, refl)
alu_switch_total a b alu_div w ne = (_, refl)
alu_switch_total a b alu_divu w ne = (_, refl)
alu_switch_total a b alu_rem w ne = (_, refl)
alu_switch_total a b alu_remu w ne = (_, refl)
alu_switch_total a b alu_nop w ne = absurd (ne refl)

-- Every operation but ALU_NOP returns, and its result is a 64-bit pattern; with `op_32` set the
-- result is the sign extension of its low 32 bits.
pub alu_exec_total :
    (a b : ℕ) (op : AluOp) (w : Bool)
    → a < 2 ^ 64
    → b < 2 ^ 64
    → op ≢ alu_nop
    → (r : ℕ) × (alu_exec a b op w ≡ ok r) × (r < 2 ^ 64) × (w ≡ true → sext32 r ≡ r)
unfolding alu_exec
alu_exec_total a b op true ha hb ne =
    let (r, e) = alu_switch_total (sext32 a) (sext32 b) op true ne in
    (sext32 r, rw e, sext32-lt r, λ _. sext32-sext32 r)
alu_exec_total a b op false ha hb ne =
    let (r, e) = alu_switch_total a b op false ne in
    (r, e, alu_switch-lt a b op false ha hb e, λ h. cc)

-- What an operation gives, if it gives anything.
pub alu_exec-lt :
    (a b : ℕ) (op : AluOp) (w : Bool)
    → a < 2 ^ 64
    → b < 2 ^ 64
    → Ensures (λ r. r < 2 ^ 64) (alu_exec a b op w)
unfolding alu_exec
alu_exec-lt a b op true ha hb =
    Ensures->>= (λ (r : ℕ). Unit {0}) (λ r. r < 2 ^ 64) (alu_switch (sext32 a) (sext32 b) op true) _
      (Ensures-any (alu_switch (sext32 a) (sext32 b) op true)) (λ r _. sext32-lt r)
alu_exec-lt a b op false ha hb =
    Ensures-of (λ r. r < 2 ^ 64) (alu_switch a b op false)
      (λ r e. alu_switch-lt a b op false ha hb e)
