-- ===== src/Clint/Timer.antt =====
-- The interrupt lines of the CLINT after register writes and clock ticks.
use hdu_riscv_lab.Prelude.{
  ℕ, zero, suc, ◌+◌, ◌-◌, ◌*◌, ◌%◌, ◌^◌, ◌≤◌, ◌<◌, ◌≡◌, refl, ap, ◌∙◌, arith, ltb, ◌==◌,
  if◌then◌else◌, List, [], ◌∷◌, length, length-take, take, map, some, get_or, ok,
}
use hdu_riscv_lab.Bytes.{of_bytes, array_bytes, array_of, splice, AllBelow}
use hdu_riscv_lab.Bytes.Arrays.{get_or-array_of-splice}
use hdu_riscv_lab.Clint.{Clint, do_write, tick, m_t_irq, m_s_irq}
use hdu_riscv_lab.Clint.Laws.{IsWf}

module _ (nr_hart : ℕ) where
  abbrev pub ticks : ℕ → Clint → Clint
  ticks zero c = c
  ticks (suc n) c = ticks n (tick nr_hart c)

  ticks-mtime : (n : ℕ) (c : Clint) → c.mtime + n < 2 ^ 64 → (ticks n c).mtime ≡ c.mtime + n
  unfolding tick
  ticks-mtime zero c h = omega arith
  ticks-mtime (suc n) c h = ticks-mtime n (tick nr_hart c) (ground arith) ∙ ground arith

  ticks-mtimecmp : (n : ℕ) (c : Clint) → (ticks n c).mtimecmp ≡ c.mtimecmp
  unfolding tick
  ticks-mtimecmp zero c = refl
  ticks-mtimecmp (suc n) c = ticks-mtimecmp n (tick nr_hart c)

  write_cmp :
      (c c' : Clint) (hart j : ℕ) (buffer : List ℕ)
      → IsWf nr_hart c
      → nr_hart ≤ 4095
      → hart < nr_hart
      → j < nr_hart
      → 8 ≤ length buffer
      → do_write nr_hart c (0x4000 + 8 * hart) 8 buffer ≡ some c'
      → (c'.mtime ≡ c.mtime)
        × (get_or c'.mtimecmp j 0
            ≡ (if j == hart then of_bytes (take 8 buffer) else get_or c.mtimecmp j 0))
  unfolding do_write
  write_cmp c c' hart j buffer w few inside j_inside enough e = ground (
    arith,
    length-take 8 buffer,
    ap (λ (t : ℕ). array_of 8 nr_hart (splice t (take 8 buffer) (array_bytes 8 c.mtimecmp))) at,
    get_or-array_of-splice 8 nr_hart (take 8 buffer) c.mtimecmp hart j,
    w.cmp_fits,
  )
    where
      at : 0x4000 + 8 * hart - 0x4000 ≡ 8 * hart
      at = omega arith

  -- The timer line: after a whole compare register of `hart` was written and `n` ticks went by, the
  -- line of hart `j` is up exactly when the time has passed the value: the one written for `hart`
  -- itself, the old one for every other hart. The write is accepted.
  pub m_t_irq-ticks :
      (c : Clint) (hart j n : ℕ) (buffer : List ℕ)
      → IsWf nr_hart c
      → nr_hart ≤ 4095
      → hart < nr_hart
      → j < nr_hart
      → 8 ≤ length buffer
      → c.mtime + n < 2 ^ 64
      → (c' : Clint) × (do_write nr_hart c (0x4000 + 8 * hart) 8 buffer ≡ some c')
        × (m_t_irq nr_hart (ticks n c') j
            ≡ ok (
                ltb
                  (if j == hart then of_bytes (take 8 buffer) else get_or c.mtimecmp j 0)
                  (c.mtime + n)))
  unfolding m_t_irq
  m_t_irq-ticks c hart j n buffer w few inside j_inside enough later =
      let (c', e) = accepted in
      let (time, cmp) = write_cmp c c' hart j buffer w few inside j_inside enough e in
      (c', e, rw (ticks-mtime n c' (rw time later), ticks-mtimecmp n c', time, cmp) (ground arith))
    where
      accepted : (c' : Clint) × (do_write nr_hart c (0x4000 + 8 * hart) 8 buffer ≡ some c')
      accepted =
          unfold do_write in
          (
            record c {
              mtimecmp =
                  array_of 8 nr_hart (
                    splice (0x4000 + 8 * hart - 0x4000) (take 8 buffer) (array_bytes 8 c.mtimecmp));
            },
            ground arith,
          )

  get_or-map_mod : (ws : List ℕ) (i : ℕ) → get_or (map (λ w. w % 2) ws) i 0 ≡ get_or ws i 0 % 2
  get_or-map_mod [] i = refl
  get_or-map_mod (w ∷ ws) zero = refl
  get_or-map_mod (w ∷ ws) (suc i) = get_or-map_mod ws i

  AllBelow-mono : (m n : ℕ) (ws : List ℕ) → m ≤ n → AllBelow m ws → AllBelow n ws
  AllBelow-mono m n [] h b = tt
  AllBelow-mono m n (w ∷ ws) h (b, bs) = (omega arith, AllBelow-mono m n ws h bs)

  -- The software line: a whole msip register that is written raises the line of its hart exactly
  -- when the value's lowest bit is set, and leaves the lines of the others.
  pub m_s_irq-do_write :
      (c : Clint) (hart j : ℕ) (buffer : List ℕ)
      → IsWf nr_hart c
      → nr_hart ≤ 4095
      → hart < nr_hart
      → j < nr_hart
      → 4 ≤ length buffer
      → (c' : Clint) × (do_write nr_hart c (4 * hart) 4 buffer ≡ some c')
        × (m_s_irq nr_hart c' j
            ≡ (if j == hart then ok (of_bytes (take 4 buffer) % 2 == 1) else m_s_irq nr_hart c j))
  unfolding do_write m_s_irq
  m_s_irq-do_write c hart j buffer w few inside j_inside enough = (
    record c { msip = map (λ w. w % 2) written },
    ground arith,
    ground (
      arith,
      get_or-map_mod written j,
      length-take 4 buffer,
      get_or-array_of-splice 4 nr_hart (take 4 buffer) c.msip hart j,
      AllBelow-mono 2 (2 ^ 32) c.msip (omega arith) w.sip_fits,
    ),
  )
    where
      written : List ℕ
      written = array_of 4 nr_hart (splice (4 * hart) (take 4 buffer) (array_bytes 4 c.msip))
