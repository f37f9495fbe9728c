-- ===== src/Core/Memory.antt =====
-- That the accesses to memory of difftest/src/rv_core.hpp keep the registers, words and bytes.
use hdu_riscv_lab.Prelude.{
  ℕ, ◌%◌, ◌^◌, ◌<◌, Bool, not, ◌==◌, List, Option, none, ok, Ensures, Ensures-if, Ensures->>=,
  Ensures-any, IfSome,
}
use hdu_riscv_lab.Bytes.{AllBelow}
use hdu_riscv_lab.Bytes.Reads.{IsRead}
use hdu_riscv_lab.Csr.{exc_load_misalign, exc_store_misalign, exc_custom_ok}
use hdu_riscv_lab.Priv.AccessTyped.{HasRead, HasWritten, va_read-HasRead, va_write-HasWritten}
use hdu_riscv_lab.Priv.Access.{va_read, va_write}
use hdu_riscv_lab.Core.{Core, trap, mem_read, mem_write}
use hdu_riscv_lab.Core.Typed.{IsTyped}
use hdu_riscv_lab.Core.Registers.{
  Kept, Keeps, self, priv-Kept, machine-Kept, Keeps-after, Keeps-if, trap-Keeps, trapped-Keeps,
}

pub mem_read-Keeps :
    (c0 c : Core) (start_addr size : ℕ)
    → Kept c0 c
    → start_addr < 2 ^ 64
    → Keeps c0 (λ r. r.0) (mem_read c start_addr size)
unfolding mem_read
mem_read-Keeps c0 c start_addr size h at =
    Keeps-if c0 (λ r. r.0) (not (start_addr % size == 0)) _ _
      (trapped-Keeps c0 c (λ r. r.0) exc_load_misalign start_addr _ h (λ t. at) (λ c' kept. kept))
      (Keeps-after c0 (λ r. r.0) (HasRead size) (va_read c.priv c.bus start_addr size) _
        (λ t.
          let (words, pc_word, csrs, bytes) = h.2 t in
          va_read-HasRead c.priv c.bus csrs bytes start_addr size)
        (λ (p, va_err, buffer) read.
          let kept = priv-Kept c0 c h p (λ t. (read t).0) in
          Keeps-if c0 (λ r. r.0) (va_err == exc_custom_ok) _ _ kept
            (trapped-Keeps c0 (record c { priv = p }) (λ r. r.0) va_err start_addr _ kept (λ t. at)
              (λ c' kept'. kept'))))

-- What a load reads is bytes.
pub mem_read-IsRead :
    (c : Core) (start_addr size : ℕ)
    → IsTyped c
    → Ensures
        (λ (r : Core × Option (List ℕ)). IfSome (IsRead size) r.1)
        (mem_read c start_addr size)
unfolding mem_read
mem_read-IsRead c start_addr size (words, at, csrs, bytes) =
    let P = λ (r : Core × Option (List ℕ)). IfSome (IsRead size) r.1 in
    let nothing = λ (c' : Core) (cause : ℕ).
      Ensures->>= (λ (c'' : Core). Unit {0}) P (trap c' cause start_addr) (λ c''. ok (c'', none))
        (Ensures-any (trap c' cause start_addr)) (λ c'' _. tt {0}) in
    Ensures-if P (not (start_addr % size == 0)) _ _ (nothing c exc_load_misalign) (
      Ensures->>= (HasRead size) P (va_read c.priv c.bus start_addr size) _
        (va_read-HasRead c.priv c.bus csrs bytes start_addr size)
        (λ (p, va_err, buffer) (w, read).
          Ensures-if P (va_err == exc_custom_ok) _ _ read (nothing (record c { priv = p }) va_err)))

pub mem_write-Keeps :
    (run_test : Bool) (c0 c : Core) (start_addr size : ℕ) (buffer : List ℕ)
    → Kept c0 c
    → start_addr < 2 ^ 64
    → AllBelow 256 buffer
    → Keeps c0 self (mem_write run_test c start_addr size buffer)
unfolding mem_write
mem_write-Keeps run_test c0 c start_addr size buffer h at below =
    Keeps-if c0 self (not (start_addr % size == 0)) _ _
      (trap-Keeps c0 c exc_store_misalign start_addr h (λ t. at))
      (Keeps-after c0 self HasWritten (va_write run_test c.priv c.bus start_addr size buffer) _
        (λ t.
          let (words, pc_word, csrs, bytes) = h.2 t in
          va_write-HasWritten c.priv c.bus start_addr size csrs bytes run_test buffer below)
        (λ (p, b, va_err) written.
          let kept = machine-Kept c0 c h p b written in
          Keeps-if c0 self (va_err == exc_custom_ok) _ _ kept
            (trap-Keeps c0 (record c { priv = p; bus = b }) va_err start_addr kept (λ t. at))))
