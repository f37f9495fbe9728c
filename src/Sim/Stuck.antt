-- ===== src/Sim/Stuck.antt =====
-- The time of the loops of difftest/src/sim_mycpu.cpp: they end in the time that is traced, and stop a
-- processor that commits nothing.
use hdu_riscv_lab.Prelude.{
  ℕ, zero, suc, ◌+◌, ◌-◌, ◌^◌, ◌<◌, ◌≤◌, ◌≡◌, inl, inr, refl, ◌∙◌, arith, Bool, true, false, not,
  ◌&&◌, ltb, leb, Outcome, Ensures, Ensures-map, Ensures-both, either, Ensures->>=, Bool-cases,
}
use hdu_riscv_lab.Word.{add64, sub64}
use hdu_riscv_lab.Sim.{Flags, commit_timeout, Design, Top, Sim, drive, count, commits}
use hdu_riscv_lab.Sim.Round.{close, tick, trace_tick, goes_on}
use hdu_riscv_lab.Sim.Loop.{
  loop, rounds, trace_rounds, Ticked, tick-Ticked, trace_tick-Ticked, SameTime, drive-SameTime,
}

-- The condition of the loops is false.
abbrev pub HasEnded : {T : Type 0} → Design T → Sim T → Type 0
HasEnded design s = goes_on design s ≡ false

-- The processor has committed less than 3000 ticks ago, or is stopped.
abbrev pub InTime : {T : Type 0} → Sim T → Type 0
InTime s = (s.last_commit ≤ s.ticks) × (s.running ≡ true → s.ticks - s.last_commit < commit_timeout)

time_up : (a r : Bool) (t : ℕ) → t ≡ 0 → (a && (ltb 0 t && ltb t (2 ^ 63)) && r) ≡ false
time_up a r t e = ground arith

time_left :
    (a r : Bool) (t : ℕ) → (a && (ltb 0 t && ltb t (2 ^ 63)) && r) ≡ true → (0 < t) × (r ≡ true)
time_left a r t e = ground arith

not_running : (a b r : Bool) → r ≡ false → (a && b && r) ≡ false
not_running a b r e = ground arith

module _ {T : Type 0} (design : Design T) (flags : Flags) (round : Sim T → Outcome (Sim T))
    (ticked : (s : Sim T) → Ensures (Ticked design flags s) (round s)) where
  loop-traced :
      (n : ℕ) (s : Sim T)
      → flags.trace_on ≡ true
      → s.sim_time < 2 ^ 63
      → s.sim_time ≤ n
      → Ensures (HasEnded design) (loop design round n s)
  unfolding loop
  loop-traced zero s on small le = time_up _ s.running s.sim_time (omega arith)
  loop-traced (suc n) s on small le = elim (Bool-cases (goes_on design s)) [
    | inr ended ↦ rw ended ended
    | inl goes ↦
        let (some_left, runs) = time_left _ s.running s.sim_time goes in
        rw goes (
          Ensures->>= (Ticked design flags s) (HasEnded design) (round s) _ (ticked s)
            (λ s' (e, g, f, l).
              let next : s'.sim_time ≡ s.sim_time - 1 = g ∙ rw on (omega arith) in
              loop-traced n s' on (omega arith) (omega arith)))
  ]

  Ticked-InTime :
      (s s' : Sim T)
      → s.ticks + 1 < 2 ^ 64
      → s.last_commit ≤ s.ticks
      → Ticked design flags s s'
      → (s'.ticks ≡ s.ticks + 1) × InTime s'
  Ticked-InTime s s' wraps past (e, g, f, l) =
      let ticks : s'.ticks ≡ s.ticks + 1 = e ∙ omega arith in
      let behind : s'.last_commit ≤ s.ticks = elim f [
        | inl same ↦ omega arith
        | inr now ↦ omega arith
      ] in
      (ticks, (omega arith, λ runs. omega (arith, l runs)))

  loop-InTime :
      (n : ℕ) (s : Sim T)
      → s.ticks + n < 2 ^ 64
      → InTime s
      → Ensures (λ s'. (s'.ticks ≤ s.ticks + n) × InTime s') (loop design round n s)
  unfolding loop
  loop-InTime zero s wraps time = (omega arith, time)
  loop-InTime (suc n) s wraps (past, time) = elim (Bool-cases (goes_on design s)) [
    | inr ended ↦ rw ended (omega arith, (past, time))
    | inl goes ↦ rw goes (
        Ensures->>= (Ticked design flags s) _ (round s) _ (ticked s) (λ s' step.
          let (next, later) = Ticked-InTime s s' (omega arith) past step in
          Ensures-map _ _ (loop design round n s') (loop-InTime n s' (omega arith) later)
            (λ s'' (le, more). (omega arith, more))))
  ]

  -- `quiet`: no round is a commit.
  loop-quiet :
      ((s : Sim T) → Ensures (λ s'. s'.last_commit ≡ s.last_commit) (round s))
      → (n : ℕ) (s : Sim T) → s.ticks + n < 2 ^ 64
      → InTime s
      → commit_timeout ≤ n + (s.ticks - s.last_commit)
      → Ensures (HasEnded design) (loop design round n s)
  unfolding loop
  loop-quiet quiet zero s wraps (past, time) le =
      not_running (not (design.got_finish s.top.inner))
        (ltb 0 s.sim_time && ltb s.sim_time (2 ^ 63)) s.running
        (elim (Bool-cases s.running) [
          | inl runs ↦ absurd (omega (arith, time runs))
          | inr stopped ↦ stopped
        ])
  loop-quiet quiet (suc n) s wraps (past, time) le = elim (Bool-cases (goes_on design s)) [
    | inr ended ↦ rw ended ended
    | inl goes ↦ rw goes (
        Ensures->>= _ (HasEnded design) (round s) _
          (Ensures-both (Ticked design flags s) (λ s'. s'.last_commit ≡ s.last_commit) (round s)
            (ticked s) (quiet s))
          (λ s' (step, same).
            let (next, later) = Ticked-InTime s s' (omega arith) past step in
            loop-quiet quiet n s' (omega arith) later (omega arith)))
  ]

module _ {T : Type 0} (design : Design T) (flags : Flags) where
  -- While a trace is written both loops end within the time that is left, counted in rounds.
  pub rounds-traced :
      (s : Sim T)
      → flags.trace_on ≡ true
      → s.sim_time < 2 ^ 63
      → Ensures (HasEnded design) (rounds design flags s.sim_time s)
        × Ensures (HasEnded design) (trace_rounds design flags s.sim_time s)
  unfolding rounds trace_rounds
  rounds-traced s on small = (
    loop-traced design flags (tick design flags) (tick-Ticked design flags) s.sim_time s on small
        (omega arith),
    loop-traced design flags (trace_tick design flags) (trace_tick-Ticked design flags) s.sim_time s
        on small (omega arith),
  )

  -- In each state that a loop reaches within `n` rounds and that is running, the last commit is less
  -- than 3000 ticks ago, where this was so before and the ticks do not wrap.
  pub rounds-InTime :
      (n : ℕ) (s : Sim T)
      → s.ticks + n < 2 ^ 64
      → InTime s
      → Ensures (λ s'. (s'.ticks ≤ s.ticks + n) × InTime s') (rounds design flags n s)
        × Ensures (λ s'. (s'.ticks ≤ s.ticks + n) × InTime s') (trace_rounds design flags n s)
  unfolding rounds trace_rounds
  rounds-InTime n s wraps time = (
    loop-InTime design flags (tick design flags) (tick-Ticked design flags) n s wraps time,
    loop-InTime design flags (trace_tick design flags) (trace_tick-Ticked design flags) n s wraps
        time,
  )

  close-last : (s : Sim T) → (close flags s).last_commit ≡ s.last_commit
  unfolding close
  close-last s =
      either (λ (s' : Sim T). s'.last_commit ≡ s.last_commit)
        (leb commit_timeout (sub64 (add64 s.ticks 1) s.last_commit)) _ _ refl refl

  count-last : (s : Sim T) → (count design flags s).last_commit ≡ s.last_commit
  unfolding count
  count-last s = refl

  module _ (silent : (t : Top T) → commits design flags t ≡ false) where
    tick-quiet : (s : Sim T) → Ensures (λ s'. s'.last_commit ≡ s.last_commit) (tick design flags s)
    unfolding tick
    tick-quiet s =
        Ensures->>= (SameTime s) _ (drive design s) _ (drive-SameTime design s) (λ s1 (e, f, g).
          rw (silent s1.top) (close-last (count design flags s1) ∙ count-last s1 ∙ f))

    trace_tick-quiet :
        (s : Sim T) → Ensures (λ s'. s'.last_commit ≡ s.last_commit) (trace_tick design flags s)
    unfolding trace_tick
    trace_tick-quiet s =
        Ensures->>= (SameTime s) _ (drive design s) _ (drive-SameTime design s)
          (λ s1 (e, f, g). rw (silent s1.top) (close-last s1 ∙ f))

    -- A processor that commits nothing is stopped within 3000 rounds of the loop, by the time-out or
    -- before.
    pub rounds-stuck :
        (s : Sim T)
        → s.ticks + commit_timeout < 2 ^ 64
        → InTime s
        → Ensures (HasEnded design) (rounds design flags commit_timeout s)
          × Ensures (HasEnded design) (trace_rounds design flags commit_timeout s)
    unfolding rounds trace_rounds
    rounds-stuck s wraps time = (
      loop-quiet design flags (tick design flags) (tick-Ticked design flags) tick-quiet
          commit_timeout s wraps time (omega arith),
      loop-quiet design flags (trace_tick design flags) (trace_tick-Ticked design flags)
          trace_tick-quiet commit_timeout s wraps time (omega arith),
    )
