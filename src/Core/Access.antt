-- ===== src/Core/Access.antt =====
-- Loads, stores and atomic operations in `exec` of difftest/src/rv_core.hpp.
use hdu_riscv_lab.Prelude.{
  ℕ, ◌*◌, ◌/◌, ◌^◌, Bool, true, false, not, ◌&&◌, ◌==◌, if◌then◌else◌, List, Option, none, some,
  Outcome, ok, ◌>>=◌,
}
use hdu_riscv_lab.Word.{add64, sext, sext32}
use hdu_riscv_lab.Bytes.{to_bytes, of_bytes}
use hdu_riscv_lab.Bus.{
  AmoFunct, amoswap, amoadd, amoxor, amoand, amoor, amomin, amomax, amominu, amomaxu,
}
use hdu_riscv_lab.Csr.{exc_custom_ok}
use hdu_riscv_lab.Priv.Access.{va_lr, va_sc, va_amo}
use hdu_riscv_lab.Instr.Codes.{
  funct3_lb, funct3_lh, funct3_lw, funct3_ld, funct3_lbu, funct3_lhu, funct3_lwu, funct3_sb,
  funct3_sh, funct3_sw, funct3_sd,
}
use hdu_riscv_lab.Instr.{rd, rs1, rs2, funct3, funct7, imm12, s_imm}
use hdu_riscv_lab.Core.{Core, Done, executed, illegal, reg, writes, trap, mem_read, mem_write}

-- What a load writes, from the bytes that it read.
abbrev pub load_value : ℕ → Bool → List ℕ → ℕ
load_value size signed bytes = if signed then sext (8 * size) (of_bytes bytes) else of_bytes bytes

unfoldable pub load_as : Core → ℕ → ℕ → Bool → Outcome Done
load_as c inst size signed =
    mem_read c (add64 (reg c (rs1 inst)) (imm12 inst)) size >>= λ (c', buf). elim buf [
      | none ↦ ok (executed c')
      | some bytes ↦ writes c' (rd inst) (load_value size signed bytes)
    ]

unfoldable pub load : Core → ℕ → Outcome Done
load c inst =
    if funct3 inst == funct3_lb
    then load_as c inst 1 true
    else if funct3 inst == funct3_lh
    then load_as c inst 2 true
    else if funct3 inst == funct3_lw
    then load_as c inst 4 true
    else if funct3 inst == funct3_ld
    then load_as c inst 8 true
    else if funct3 inst == funct3_lbu
    then load_as c inst 1 false
    else if funct3 inst == funct3_lhu
    then load_as c inst 2 false
    else if funct3 inst == funct3_lwu
    then load_as c inst 4 false
    else ok (illegal c)

-- The bytes of register rs2, of which `mem_write` takes the first ones.
unfoldable pub store_as : Bool → Core → ℕ → ℕ → Outcome Done
store_as run_riscv_test c inst size =
    mem_write run_riscv_test c (add64 (reg c (rs1 inst)) (s_imm inst)) size
      (to_bytes 8 (reg c (rs2 inst)))
    >>= λ c'. ok (executed c')

unfoldable pub store : Bool → Core → ℕ → Outcome Done
store run_riscv_test c inst =
    if funct3 inst == funct3_sb
    then store_as run_riscv_test c inst 1
    else if funct3 inst == funct3_sh
    then store_as run_riscv_test c inst 2
    else if funct3 inst == funct3_sw
    then store_as run_riscv_test c inst 4
    else if funct3 inst == funct3_sd
    then store_as run_riscv_test c inst 8
    else ok (illegal c)

-- An `amo_funct` by its number, without `lr` and `sc`.
abbrev pub amo_of : ℕ → Option AmoFunct
amo_of funct5 =
    if funct5 == 1
    then some amoswap
    else if funct5 == 0
    then some amoadd
    else if funct5 == 4
    then some amoxor
    else if funct5 == 0xc
    then some amoand
    else if funct5 == 8
    then some amoor
    else if funct5 == 0x10
    then some amomin
    else if funct5 == 0x14
    then some amomax
    else if funct5 == 0x18
    then some amominu
    else if funct5 == 0x1c
    then some amomaxu
    else none

-- The end of the three kinds: the result on success, else a trap with the address.
unfoldable pub finish : Core → ℕ → ℕ → ℕ → Outcome Done
finish c inst exc result =
    if exc == exc_custom_ok
    then writes c (rd inst) result
    else (trap c exc (reg c (rs1 inst)) >>= λ c'. ok (executed c'))

unfoldable pub load_reserved : Core → ℕ → ℕ → Outcome Done
load_reserved c inst size =
    if not (rs2 inst == 0)
    then ok (illegal c)
    else (va_lr c.priv c.bus (reg c (rs1 inst)) size >>= λ (p, b, exc, bytes).
        finish (record c { priv = p; bus = b }) inst exc
          (if funct3 inst == 3 then of_bytes bytes else sext32 (of_bytes bytes)))

unfoldable pub store_conditional : Core → ℕ → ℕ → Outcome Done
store_conditional c inst size =
    va_sc c.priv c.bus (reg c (rs1 inst)) size (to_bytes 8 (reg c (rs2 inst)))
    >>= λ (p, b, exc, sc_fail).
        finish (record c { priv = p; bus = b }) inst exc (if sc_fail then 1 else 0)

unfoldable pub amo : Core → ℕ → Outcome Done
amo c inst =
    let funct5 = funct7 inst / 4 in
    let size = 2 ^ funct3 inst in
    if not (funct3 inst == 2) && not (funct3 inst == 3)
    then ok (illegal c)
    else if funct5 == 2
    then load_reserved c inst size
    else if funct5 == 3
    then store_conditional c inst size
    else elim (amo_of funct5) [
      | none ↦ ok (illegal c)
      | some o ↦
          va_amo c.priv c.bus (reg c (rs1 inst)) size o (reg c (rs2 inst))
          >>= λ (p, b, exc, result). finish (record c { priv = p; bus = b }) inst exc result
    ]
