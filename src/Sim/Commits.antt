-- ===== src/Sim/Commits.antt =====
-- What a commit of the processor does in difftest/src/sim_mycpu.cpp: when it stops the run.
use hdu_riscv_lab.Prelude.{
  ℕ, ◌+◌, ◌^◌, ◌<◌, ◌≡◌, ◌≢◌, ◌⊎◌, ◌↔◌, refl, sym, ◌∙◌, arith, Bool, true, false, not, ◌&&◌, ◌||◌,
  leb, ◌==◌, if◌then◌else◌, ok, Bool-cases, inl, inr, either, Ensures-ok,
}
use hdu_riscv_lab.Word.{add64, sub64}
use hdu_riscv_lab.Core.{Core}
use hdu_riscv_lab.Sim.{
  Flags, Design, Top, Sim, print_pc_cycle, commit_timeout, drive, count, commits, differs, emulate,
}
use hdu_riscv_lab.Sim.Round.{
  decremented, report, slots, close, print_progress, compared, commit, tick,
}
use hdu_riscv_lab.Sim.Loop.{commit-Committed}

-- What the comparison and the printing leave.
abbrev pub SameSlots : {T : Type 0} → Sim T → Sim T → Type 0
SameSlots s s' =
    (s'.top ≡ s.top)
    × (s'.core ≡ s.core)
    × (s'.delayslot_cnt ≡ s.delayslot_cnt)
    × (s'.delayslot_flag ≡ s.delayslot_flag)

-- A mismatch that is reported stops the run.
abbrev pub is_last : Flags → ℕ → Bool
is_last flags d =
    not flags.should_delay
    || (not (flags.dump_pc_history && (d == 10))
        && ((if flags.dump_pc_history then decremented d else d) == 0))

module _ {T : Type 0} (flags : Flags) where
  report-SameSlots : (s : Sim T) → SameSlots s (report flags s)
  unfolding report
  report-SameSlots s =
      either (SameSlots s) (not flags.should_delay) _ _ (refl, refl, refl, refl)
        (either (SameSlots s) (flags.dump_pc_history && (s.delay == 10)) _ _
          (refl, refl, refl, refl) (refl, refl, refl, refl))

  report-is_last :
      (s : Sim T) → (report flags s).running ≡ (if is_last flags s.delay then false else s.running)
  unfolding report
  report-is_last s = elim (Bool-cases flags.should_delay) [
    | inr at_once ↦ rw at_once refl
    | inl delays ↦ rw delays (elim (Bool-cases (flags.dump_pc_history && (s.delay == 10))) [
      | inl ten ↦ rw ten refl
      | inr other ↦ rw other refl
    ])
  ]

  pub print_progress-SameSlots :
      (s : Sim T)
      → SameSlots s (print_progress flags s)
        × ((print_progress flags s).running ≡ s.running)
        × ((print_progress flags s).delay ≡ s.delay)
  unfolding print_progress
  print_progress-SameSlots s =
      either (λ (s' : Sim T). SameSlots s s' × (s'.running ≡ s.running) × (s'.delay ≡ s.delay))
        (leb print_pc_cycle s.pc_cnt && flags.print_pc) _ _ ((refl, refl, refl, refl), refl, refl)
        ((refl, refl, refl, refl), refl, refl)

  slots-running :
      (s : Sim T)
      → ((slots flags s).running ≡ s.running)
        × ((slots flags s).core ≡ s.core)
        × ((slots flags s).delay ≡ s.delay)
  unfolding slots
  slots-running s =
      either (λ (s' : Sim T). (s'.running ≡ s.running) × (s'.core ≡ s.core) × (s'.delay ≡ s.delay))
        flags.has_delayslot _ _
        (either
          (λ (s' : Sim T). (s'.running ≡ s.running) × (s'.core ≡ s.core) × (s'.delay ≡ s.delay))
          (s.core.debug_is_branch && s.delayslot_flag) _ _ (refl, refl, refl) (refl, refl, refl))
        (refl, refl, refl)

module _ {T : Type 0} (design : Design T) (flags : Flags) where
  -- A mismatch is seen, and stops the run.
  abbrev pub stops : Top T → Core → ℕ → ℕ → Bool
  stops top core cnt d = (differs design flags top core && (cnt == 0)) && is_last flags d

  pub compared-SameSlots : (s : Sim T) → SameSlots s (compared design flags s)
  unfolding compared
  compared-SameSlots s =
      either (SameSlots s) (differs design flags s.top s.core && (s.delayslot_cnt == 0)) _ _
        (report-SameSlots flags s) (refl, refl, refl, refl)

  pub compared-stops :
      (s : Sim T)
      → (compared design flags s).running
        ≡ (if stops s.top s.core s.delayslot_cnt s.delay then false else s.running)
  unfolding compared
  compared-stops s =
      elim (Bool-cases (differs design flags s.top s.core && (s.delayslot_cnt == 0))) [
        | inl seen ↦ rw seen (report-is_last flags s)
        | inr passed ↦ rw passed refl
      ]

  -- A commit whose step returned: the run is stopped exactly if the comparison sees a mismatch that is
  -- the last one allowed, on the state after the emulator's step.
  commit-stops :
      (s s1 : Sim T)
      → emulate design flags s ≡ ok s1
      → (s' : Sim T) × (commit design flags s ≡ ok s')
        × (s'.core ≡ s1.core)
        × (s'.running
            ≡ (if stops s1.top s1.core s1.delayslot_cnt s1.delay then false else s1.running))
  unfolding commit
  commit-stops s s1 e =
      let s2 = record s1 { last_commit = s1.ticks } in
      let s3 = print_progress flags s2 in
      let ((t3, c3, n3, f3), r3, d3) = print_progress-SameSlots flags s2 in
      let (t4, c4, n4, f4) = compared-SameSlots s3 in
      let (r5, c5, d5) = slots-running flags (compared design flags s3) in
      (
        slots flags (compared design flags s3),
        rw e refl,
        c5 ∙ c4 ∙ c3,
        r5 ∙ compared-stops s3 ∙ rw (t3, c3, n3, d3, r3) refl,
      )

  count-ticks : (s : Sim T) → (count design flags s).ticks ≡ s.ticks
  unfolding count
  count-ticks s = refl

  close-running :
      (s : Sim T)
      → s.last_commit ≡ s.ticks
      → s.ticks + 1 < 2 ^ 64
      → (close flags s).running ≡ s.running
  unfolding close
  close-running s e small =
      let soon : leb commit_timeout (sub64 (add64 s.ticks 1) s.last_commit) ≡ false =
        ground arith in
      rw soon refl

  -- The processor's pc is another, or the emulator wrote a register other than x0 and the processor
  -- names another register or another value.
  abbrev pub Mismatch : Top T → Core → Type 0
  Mismatch top core =
      (design.debug_pc top.inner ≢ core.debug_pc)
      ⊎ ((core.debug_reg_num ≢ 0)
          × ((design.debug_rf_wnum top.inner ≢ core.debug_reg_num)
              ⊎ (design.debug_rf_wdata top.inner ≢ core.debug_reg_wdata)))

  differs_iff :
      (top : Top T) (core : Core) → (differs design flags top core ≡ true) ↔ Mismatch top core
  differs_iff top core = (λ h. ground (arith, h), λ m. ground (arith, m))

  stops_iff :
      (top : Top T) (core : Core) (cnt d : ℕ)
      → (stops top core cnt d ≡ true) ↔ (Mismatch top core × (cnt ≡ 0) × (is_last flags d ≡ true))
  stops_iff top core cnt d = (
    λ h. ((differs_iff top core).0 (ground (arith, h)), ground (arith, h), ground (arith, h)),
    λ (m, outside, last).
        let seen = (differs_iff top core).1 m in
        let zeroed : (cnt == 0) ≡ true = ground (arith, outside) in rw (seen, zeroed, last) refl,
  )

  running_iff :
      (b runs running' : Bool)
      → running' ≡ (if b then false else runs)
      → (running' ≡ true) ↔ ((runs ≡ true) × (b ≢ true))
  running_iff b runs running' e = ground (arith, e)

  -- After a round with a commit the run goes on exactly if it was not stopped by the bus and not all of
  -- three hold: the processor and the emulator disagree, on the `pc` or, where the emulator wrote a
  -- register other than x0, on the register or the value; the commit lies outside the slots of a branch;
  -- and no more mismatches are allowed.
  pub tick-stops :
      (s s0 s1 : Sim T)
      → drive design s ≡ ok s0
      → commits design flags s0.top ≡ true
      → emulate design flags (count design flags s0) ≡ ok s1
      → s0.ticks + 1 < 2 ^ 64
      → (s' : Sim T) × (tick design flags s ≡ ok s')
        × ((s'.running ≡ true) ↔ (
            (s1.running ≡ true)
            × ¬ (
                Mismatch s1.top s1.core
                × (s1.delayslot_cnt ≡ 0)
                × (is_last flags s1.delay ≡ true))))
  unfolding tick
  tick-stops s s0 s1 driven retired stepped small =
      let (s2, committed, same, runs) = commit-stops (count design flags s0) s1 stepped in
      let (e, f, g) =
        Ensures-ok _ _ (commit-Committed design flags (count design flags s0)) committed in
      (
        close flags s2,
        rw (driven, retired, committed) refl,
        (let goes =
              running_iff _ s1.running _
                (close-running s2 (f ∙ sym e) (rw (e ∙ count-ticks s0) small) ∙ runs) in
            let both = stops_iff s1.top s1.core s1.delayslot_cnt s1.delay in
            (
              λ on. ((goes.0 on).0, λ all. (goes.0 on).1 (both.1 all)),
              λ (was, spared). goes.1 (was, λ stopped. spared (both.0 stopped)),
            )),
      )
