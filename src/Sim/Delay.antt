-- ===== src/Sim/Delay.antt =====
-- How many mismatches the loops of difftest/src/sim_mycpu.cpp go on after.
use hdu_riscv_lab.Prelude.{
  ℕ, zero, suc, ◌/◌, ◌%◌, ◌^◌, ◌<◌, ◌≤◌, ◌≡◌, ◌≢◌, ◌⊎◌, inl, inr, refl, ◌∙◌, arith, Bool, true,
  false, not, ◌&&◌, leb, ◌==◌, if◌then◌else◌, Bool-cases, either,
}
use hdu_riscv_lab.Sim.{Flags, Sim}
use hdu_riscv_lab.Sim.Round.{report, decremented}

-- The state after `n` mismatches that are reported.
abbrev pub reports : {T : Type 0} → Flags → ℕ → Sim T → Sim T
reports flags zero s = s
reports flags (suc n) s = reports flags n (report flags s)

-- The number of mismatches that do not stop the loop, for a `delay` of `d`.
abbrev pub patience : Flags → ℕ → ℕ
patience flags d = if not flags.should_delay then 0 else if flags.dump_pc_history then d / 2 else d

two_less :
    (d : ℕ)
    → d < 2 ^ 32
    → (d % 2 ≡ 1) ⊎ (10 ≤ d)
    → d ≢ 10
    → decremented d ≢ 0
    → (decremented (decremented d) % 2 ≡ 1) ⊎ (10 ≤ decremented (decremented d))
two_less d small kind not_ten not_one = elim (Bool-cases (d % 2 == 1)) [
  | inl odd ↦ inl (ground arith)
  | inr even ↦ inr (ground arith)
]

module _ {T : Type 0} (flags : Flags) where
  report-stopped : (s : Sim T) → s.running ≡ false → (report flags s).running ≡ false
  unfolding report
  report-stopped s e =
      either (λ (s' : Sim T). s'.running ≡ false) (not flags.should_delay) _ _ refl
        (either (λ (s' : Sim T). s'.running ≡ false) (flags.dump_pc_history && (s.delay == 10)) _ _
          e (rw e (same_result (_ == 0))))
    where
      same_result : (b : Bool) → (if b then false else false) ≡ false
      same_result b = ground arith

  reports-stopped : (n : ℕ) (s : Sim T) → s.running ≡ false → (reports flags n s).running ≡ false
  reports-stopped zero s e = e
  reports-stopped (suc n) s e = reports-stopped n (report flags s) (report-stopped s e)

  -- One report, as the mismatches that are left.
  report-patience :
      (s : Sim T)
      → s.running ≡ true
      → s.delay < 2 ^ 32
      → (flags.dump_pc_history ≡ false) ⊎ ((s.delay % 2 ≡ 1) ⊎ (10 ≤ s.delay))
      → ((patience flags s.delay ≡ 0) × ((report flags s).running ≡ false))
        ⊎ (((report flags s).running ≡ true)
            × (patience flags s.delay ≡ suc (patience flags (report flags s).delay))
            × ((report flags s).delay < 2 ^ 32)
            × ((flags.dump_pc_history ≡ false)
                ⊎ (((report flags s).delay % 2 ≡ 1) ⊎ (10 ≤ (report flags s).delay))))
  unfolding report
  report-patience s runs small h = elim (Bool-cases flags.should_delay) [
    | inr at_once ↦ rw at_once (inl (refl, refl))
    | inl delays ↦ elim (Bool-cases flags.dump_pc_history) [
      | inr plain ↦
          rw (delays, plain)
            (elim (Bool-cases (s.delay == 0)) [
              | inl over ↦ rw over (inl (ground arith, refl))
              | inr more ↦ rw (more, runs) (inr (refl, ground arith, ground arith, inl refl))
            ])
      | inl dumps ↦
          rw (delays, dumps)
            (elim (Bool-cases (s.delay == 10)) [
              | inl ten ↦
                  rw (ten, runs) (inr (refl, ground arith, ground arith, inr (inl (ground arith))))
              | inr other ↦ rw other (elim (Bool-cases (decremented s.delay == 0)) [
                | inl over ↦ rw over (inl (ground arith, refl))
                | inr more ↦
                    rw (more, runs)
                      (inr (
                        refl,
                        ground arith,
                        ground arith,
                        inr (
                            two_less s.delay small (elim h [ inl plain ↦ cc | inr kind ↦ kind ])
                              (ground arith) (ground arith)),
                      ))
              ])
            ])
    ]
  ]

  -- The run goes on after exactly `patience` mismatches and is stopped by the next: at once without
  -- `-delay`, else after as many as `delay` says, or half of them with `-pc`. For `-pc` the value must
  -- be odd or 10 at least, as 1500 and 10 are.
  pub reports-running :
      (n : ℕ) (s : Sim T)
      → s.running ≡ true
      → s.delay < 2 ^ 32
      → (flags.dump_pc_history ≡ false) ⊎ ((s.delay % 2 ≡ 1) ⊎ (10 ≤ s.delay))
      → (reports flags n s).running ≡ leb n (patience flags s.delay)
  reports-running zero s runs small h = runs ∙ ground arith
  reports-running (suc n) s runs small h = elim (report-patience s runs small h) [
    | inl (none_left, stopped) ↦
        reports-stopped n (report flags s) stopped ∙ rw none_left (ground arith)
    | inr (runs', one_less, small', h') ↦
        reports-running n (report flags s) runs' small' h' ∙ rw one_less (ground arith)
  ]
