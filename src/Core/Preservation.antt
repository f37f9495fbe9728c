-- ===== src/Core/Preservation.antt =====
-- That the loads, stores and atomic operations of difftest/src/rv_core.hpp keep the size of the register
-- file, x0, and words and bytes.
use hdu_riscv_lab.Prelude.{
  ℕ, ◌/◌, ◌^◌, ◌<◌, ◌≤◌, ◌≡◌, ◌*◌, ◌-◌, arith, Bool, true, false, not, ◌&&◌, ◌==◌, if◌then◌else◌,
  Option, ok, List, IfSome, Any, IfSome-Any,
}
use hdu_riscv_lab.Word.{add64, sext32}
use hdu_riscv_lab.Word.Signed.{sext32-lt}
use hdu_riscv_lab.Bytes.{to_bytes, of_bytes}
use hdu_riscv_lab.Bytes.Laws.{to_bytes-AllBelow}
use hdu_riscv_lab.Bytes.Reads.{IsRead, of_bytes-IsRead}
use hdu_riscv_lab.Bus.Typed.{IsWord}
use hdu_riscv_lab.Csr.{exc_custom_ok}
use hdu_riscv_lab.Priv.Access.{va_lr, va_sc, va_amo}
use hdu_riscv_lab.Priv.AccessTyped.{HasStored, va_lr-HasStored, va_sc-HasStored, va_amo-HasStored}
use hdu_riscv_lab.Instr.{rd, rs1, rs2, funct3, funct7, imm12, s_imm}
use hdu_riscv_lab.Core.{Core, executed, reg, mem_read, mem_write}
use hdu_riscv_lab.Core.Typed.{IsTyped, reg-lt}
use hdu_riscv_lab.Core.Access.{
  load_value, load_as, load, store_as, store, amo_of, finish, load_reserved, store_conditional, amo,
}
use hdu_riscv_lab.Core.Registers.{
  Kept, Keeps, self, after, unchanged, machine-Kept, Keeps->>=, Keeps-known, Keeps-after, Keeps-if,
  Keeps-else, Keeps-choice, writes-Keeps, trapped-Keeps,
}
use hdu_riscv_lab.Core.Memory.{mem_read-Keeps, mem_read-IsRead, mem_write-Keeps}
use hdu_riscv_lab.Core.Operations.{Preserves, choice-Keeps}

-- Every read of `size` bytes gives a word.
abbrev GivesWord : ℕ → Bool → Type 0
GivesWord size signed = (bytes : List ℕ) → IsRead size bytes → load_value size signed bytes < 2 ^ 64

load_as-Keeps :
    (c : Core) (inst size : ℕ) (signed : Bool)
    → GivesWord size signed
    → Keeps c after (load_as c inst size signed)
unfolding load_as
load_as-Keeps c inst size signed word =
    let addr = add64 (reg c (rs1 inst)) (imm12 inst) in
    Keeps-known c after (λ r. r.0) (λ (r : Core × Option (List ℕ)). IfSome (IsRead size) r.1)
      (mem_read c addr size) _ (mem_read-Keeps c c addr size (unchanged c) (omega arith))
      (mem_read-IsRead c addr size)
      (λ (c', buf) kept known.
        Keeps-choice c (IsRead size) buf (ok (executed c')) _ known kept (λ bytes read.
          writes-Keeps c c' (rd inst) (load_value size signed bytes) kept
            (λ t. word bytes (read t))))

signed-GivesWord :
    (size : ℕ) → 0 < 2 ^ (8 * size) → 2 ^ (8 * size - 1) ≤ 2 ^ 63 → GivesWord size true
signed-GivesWord size pos fits bytes read = ground (arith, pos, fits)

unsigned-GivesWord : (size : ℕ) → size ≤ 8 → GivesWord size false
unsigned-GivesWord size fits bytes read = of_bytes-IsRead size bytes fits read

pub load-Preserves : Preserves load
unfolding load
load-Preserves c inst =
    let sign = λ (size : ℕ). load_as-Keeps c inst size true in
    let zero_extend = λ (size : ℕ) (fits : size ≤ 8).
      load_as-Keeps c inst size false (unsigned-GivesWord size fits) in
    Keeps-if c after (funct3 inst == 0) _ _
      (sign 1 (signed-GivesWord 1 (omega arith) (omega arith)))
      (Keeps-if c after (funct3 inst == 1) _ _
        (sign 2 (signed-GivesWord 2 (omega arith) (omega arith)))
        (Keeps-if c after (funct3 inst == 2) _ _
          (sign 4 (signed-GivesWord 4 (omega arith) (omega arith)))
          (Keeps-if c after (funct3 inst == 3) _ _
            (sign 8 (signed-GivesWord 8 (omega arith) (omega arith)))
            (Keeps-if c after (funct3 inst == 4) _ _ (zero_extend 1 (omega arith)) (
              Keeps-if c after (funct3 inst == 5) _ _ (zero_extend 2 (omega arith)) (
                Keeps-if c after (funct3 inst == 6) _ _ (zero_extend 4 (omega arith))
                  (unchanged c)))))))

store_as-Keeps :
    (run_test : Bool) (c : Core) (inst size : ℕ) → Keeps c after (store_as run_test c inst size)
unfolding store_as
store_as-Keeps run_test c inst size =
    let addr = add64 (reg c (rs1 inst)) (s_imm inst) in
    let bytes = to_bytes 8 (reg c (rs2 inst)) in
    Keeps->>= c after self (mem_write run_test c addr size bytes) _
      (mem_write-Keeps run_test c c addr size bytes (unchanged c) (omega arith)
        (to_bytes-AllBelow 8 (reg c (rs2 inst))))
      (λ c' kept. kept)

pub store-Preserves : (run_test : Bool) → Preserves (store run_test)
unfolding store
store-Preserves run_test c inst =
    let sized = store_as-Keeps run_test c inst in
    Keeps-if c after (funct3 inst == 0) _ _ (sized 1) (
      Keeps-if c after (funct3 inst == 1) _ _ (sized 2) (
        Keeps-if c after (funct3 inst == 2) _ _ (sized 4)
          (Keeps-if c after (funct3 inst == 3) _ _ (sized 8) (unchanged c))))

finish-Keeps :
    (c0 c : Core) (inst exc result : ℕ)
    → Kept c0 c
    → (IsTyped c0 → result < 2 ^ 64)
    → Keeps c0 after (finish c inst exc result)
unfolding finish
finish-Keeps c0 c inst exc result h word =
    Keeps-if c0 after (exc == exc_custom_ok) _ _ (writes-Keeps c0 c (rd inst) result h word) (
      trapped-Keeps c0 c after exc (reg c (rs1 inst)) _ h (λ t. reg-lt c (rs1 inst) (h.2 t))
        (λ c' kept. kept))

reserved-lt :
    (wide : Bool) (size : ℕ) (bytes : List ℕ)
    → size ≤ 8
    → IsRead size bytes
    → (if wide then of_bytes bytes else sext32 (of_bytes bytes)) < 2 ^ 64
reserved-lt true size bytes fits read = of_bytes-IsRead size bytes fits read
reserved-lt false size bytes fits read = sext32-lt (of_bytes bytes)

size_le : (f3 : ℕ) → (not (f3 == 2) && not (f3 == 3)) ≡ false → 2 ^ f3 ≤ 8
size_le f3 e = ground (arith, e)

-- The accesses of `amo` are of 4 or 8 bytes.
module _ (c : Core) (inst size : ℕ) where
  load_reserved-Keeps : size ≤ 8 → Keeps c after (load_reserved c inst size)
  unfolding load_reserved
  load_reserved-Keeps fits = Keeps-if c after (not (rs2 inst == 0)) _ _ (unchanged c) (
      Keeps-after c after (HasStored (IsRead size)) (va_lr c.priv c.bus (reg c (rs1 inst)) size) _
        (λ (words, at, csrs, held). va_lr-HasStored c.priv c.bus (reg c (rs1 inst)) size csrs held)
        (λ (p, b, exc, bytes) known.
          finish-Keeps c (record c { priv = p; bus = b }) inst exc _
            (machine-Kept c c (unchanged c) p b (λ t. ((known t).0, (known t).1)))
            (λ t. reserved-lt (funct3 inst == 3) size bytes fits (known t).2)))

  store_conditional-Keeps : Keeps c after (store_conditional c inst size)
  unfolding store_conditional
  store_conditional-Keeps =
      let buffer = to_bytes 8 (reg c (rs2 inst)) in
      Keeps-after c after (HasStored Any) (va_sc c.priv c.bus (reg c (rs1 inst)) size buffer) _
        (λ (words, at, csrs, held).
          va_sc-HasStored c.priv c.bus (reg c (rs1 inst)) size csrs held buffer
            (to_bytes-AllBelow 8 (reg c (rs2 inst))))
        (λ (p, b, exc, sc_fail) known.
          finish-Keeps c (record c { priv = p; bus = b }) inst exc (if sc_fail then 1 else 0)
            (machine-Kept c c (unchanged c) p b (λ t. ((known t).0, (known t).1)))
            (λ t. ground arith))

pub amo-Preserves : Preserves amo
unfolding amo
amo-Preserves c inst =
    let funct5 = funct7 inst / 4 in
    let size = 2 ^ funct3 inst in
    Keeps-else c after (not (funct3 inst == 2) && not (funct3 inst == 3)) _ _ (unchanged c) (λ e.
      let fits = size_le (funct3 inst) e in
      Keeps-if c after (funct5 == 2) _ _ (load_reserved-Keeps c inst size fits) (
        Keeps-if c after (funct5 == 3) _ _ (store_conditional-Keeps c inst size) (
          choice-Keeps c Any (amo_of funct5) _ (λ t. IfSome-Any (amo_of funct5))
            (λ o _.
              Keeps-after c after (HasStored IsWord)
                (va_amo c.priv c.bus (reg c (rs1 inst)) size o (reg c (rs2 inst))) _
                (λ (words, at, csrs, held).
                  va_amo-HasStored c.priv c.bus (reg c (rs1 inst)) size csrs held o
                    (reg c (rs2 inst)))
                (λ (p, b, exc, result) known.
                  finish-Keeps c (record c { priv = p; bus = b }) inst exc result
                    (machine-Kept c c (unchanged c) p b (λ t. ((known t).0, (known t).1)))
                    (λ t. (known t).2))))))
