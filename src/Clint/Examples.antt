-- ===== src/Clint/Examples.antt =====
-- Runs of the CLINT with two harts, and its theorems at concrete accesses.
use hdu_riscv_lab.Prelude.{
  ℕ, ◌+◌, ◌*◌, ◌^◌, ◌<◌, ◌≡◌, refl, List, [], ◌∷◌, some, ok, take, get_or, ltb, ◌==◌, if◌then◌else◌,
  arith,
}
use hdu_riscv_lab.Bytes.{of_bytes}
use hdu_riscv_lab.Clint.{Clint, init, do_write, m_t_irq}
use hdu_riscv_lab.Clint.Laws.{init-IsWf}
use hdu_riscv_lab.Clint.Timer.{ticks, m_t_irq-ticks}

abbrev value : List ℕ
value = 5 ∷ 0 ∷ 0 ∷ 0 ∷ 0 ∷ 0 ∷ 0 ∷ 0 ∷ []

abbrev compared : Clint
compared = record { mtime = 0; mtimecmp = 0 ∷ 5 ∷ []; msip = 0 ∷ 0 ∷ [] }

compare_written : do_write 2 (init 2) 0x4008 8 value ≡ some compared
unfolding init do_write
compare_written = refl

software_raised :
    do_write 2 (init 2) 4 4 value
    ≡ some (record { mtime = 0; mtimecmp = 0 ∷ 0 ∷ []; msip = 0 ∷ 1 ∷ [] })
unfolding init do_write
software_raised = refl

m_t_irq-ticks_example :
    (c' : Clint) × (do_write 2 (init 2) (0x4000 + 8 * 1) 8 value ≡ some c')
    × (m_t_irq 2 (ticks 2 6 c') 1
        ≡ ok (
            ltb
              (if 1 == 1 then of_bytes (take 8 value) else get_or (init 2).mtimecmp 1 0)
              ((init 2).mtime + 6)))
m_t_irq-ticks_example =
    m_t_irq-ticks 2 (init 2) 1 1 6 value (init-IsWf 2) (omega arith) (omega arith) (omega arith)
      (omega arith) start
  where
    start : (init 2).mtime + 6 < 2 ^ 64
    start = unfold init in omega arith
