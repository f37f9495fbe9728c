-- ===== src/Alu.antt =====
-- `alu_exec` of difftest/src/rv_core.hpp, and its operation codes.
-- Operands and results are int64_t bit patterns below 2 ^ 64. A signed sum, difference, product or
-- left shift that overflows wraps, as the compilers in use make it.
pub mod Bounds
pub mod Examples
pub mod Product
pub mod Division
use hdu_riscv_lab.Prelude.{
  ℕ, ◌+◌, ◌-◌, ◌*◌, ◌/◌, ◌%◌, ◌^◌, Bool, true, false, ◌&&◌, ltb, ◌==◌, if◌then◌else◌, bit_and,
  bit_or, bit_xor, Outcome, ok, aborts, ◌>>=◌,
}
use hdu_riscv_lab.Word.{
  u64_max, add64, sub64, mul64, shl64, shr, low_bits, sext32, signed64, word64,
}
use hdu_riscv_lab.Word.Int.{ltb_ℤ, quot, rem, shr_ℤ, ◌*ℤ◌}

pub data AluOp : Type 0 where
  alu_add alu_sub alu_sll alu_slt alu_sltu alu_xor alu_srl alu_sra alu_or alu_and : AluOp
  alu_mul alu_mulh alu_mulhu alu_mulhsu alu_div alu_divu alu_rem alu_remu alu_nop : AluOp

abbrev pub of_bool : Bool → ℕ
of_bool b = if b then 1 else 0

-- `b & (op_32 ? 0x1f : 0x3f)`.
abbrev pub shift_amount : Bool → ℕ → ℕ
shift_amount op_32 b = if op_32 then low_bits b 5 else low_bits b 6

-- The upper half of the signed 128-bit product.
unfoldable pub mulh : ℕ → ℕ → ℕ
mulh a b = word64 (shr_ℤ (signed64 a *ℤ signed64 b) 64)

unfoldable pub mulhu : ℕ → ℕ → ℕ
mulhu a b = shr (a * b) 64

-- `(__int128)a` turned unsigned, since the other factor is a `__uint128_t`.
abbrev pub widen : ℕ → ℕ
widen a = if ltb a (2 ^ 63) then a else a + 2 ^ 128 - 2 ^ 64

unfoldable pub mulhsu : ℕ → ℕ → ℕ
mulhsu a b = shr (widen a * b % 2 ^ 128) 64

unfoldable pub div : ℕ → ℕ → ℕ
div a b =
    if b == 0
    then u64_max
    else if a == 2 ^ 63 && b == u64_max
    then 2 ^ 63
    else word64 (quot (signed64 a) (signed64 b))

unfoldable pub divu : Bool → ℕ → ℕ → ℕ
divu op_32 a b = if b == 0 then u64_max else if op_32 then low_bits a 32 / low_bits b 32 else a / b

unfoldable pub remainder : ℕ → ℕ → ℕ
remainder a b =
    if b == 0
    then a
    else if a == 2 ^ 63 && b == u64_max
    then 0
    else word64 (rem (signed64 a) (signed64 b))

unfoldable pub remainderu : Bool → ℕ → ℕ → ℕ
remainderu op_32 a b = if b == 0 then a else if op_32 then low_bits a 32 % low_bits b 32 else a % b

-- The `switch`, on operands already cut to 32 bits where `op_32` is set.
unfoldable pub alu_switch : ℕ → ℕ → AluOp → Bool → Outcome ℕ
alu_switch a b alu_add op_32 = ok (add64 a b)
alu_switch a b alu_sub op_32 = ok (sub64 a b)
alu_switch a b alu_sll op_32 = ok (shl64 a (shift_amount op_32 b))
alu_switch a b alu_slt op_32 = ok (of_bool (ltb_ℤ (signed64 a) (signed64 b)))
alu_switch a b alu_sltu op_32 = ok (of_bool (ltb a b))
alu_switch a b alu_xor op_32 = ok (bit_xor a b)
alu_switch a b alu_srl op_32 = ok (shr (if op_32 then low_bits a 32 else a) (shift_amount op_32 b))
alu_switch a b alu_sra op_32 = ok (word64 (shr_ℤ (signed64 a) (shift_amount op_32 b)))
alu_switch a b alu_or op_32 = ok (bit_or a b)
alu_switch a b alu_and op_32 = ok (bit_and a b)
alu_switch a b alu_mul op_32 = ok (mul64 a b)
alu_switch a b alu_mulh op_32 = ok (mulh a b)
alu_switch a b alu_mulhu op_32 = ok (mulhu a b)
alu_switch a b alu_mulhsu op_32 = ok (mulhsu a b)
alu_switch a b alu_div op_32 = ok (div a b)
alu_switch a b alu_divu op_32 = ok (divu op_32 a b)
alu_switch a b alu_rem op_32 = ok (remainder a b)
alu_switch a b alu_remu op_32 = ok (remainderu op_32 a b)
alu_switch a b alu_nop op_32 = aborts

unfoldable pub alu_exec : ℕ → ℕ → AluOp → Bool → Outcome ℕ
alu_exec a b op true = alu_switch (sext32 a) (sext32 b) op true >>= λ result. ok (sext32 result)
alu_exec a b op false = alu_switch a b op false
