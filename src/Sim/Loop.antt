-- ===== src/Sim/Loop.antt =====
-- The loops of difftest/src/sim_mycpu.cpp. `n` bounds their rounds; the loop has ended where its
-- condition is false in the result.
use hdu_riscv_lab.Prelude.{
  ℕ, zero, suc, ◌<◌, ◌≡◌, refl, ap, ◌∙◌, arith, true, not, ◌&&◌, ltb, leb, ◌==◌, if◌then◌else◌,
  Outcome, ok, ◌>>=◌, Ensures, Ensures-if, Ensures-map, Ensures->>=, Bool-cases, inl, inr, either,
  ◌⊎◌,
}
use hdu_riscv_lab.Word.{add64, sub64}
use hdu_riscv_lab.Sram.{update_input}
use hdu_riscv_lab.Sram.Slave.{beat}
use hdu_riscv_lab.Sram.Xbar.{xbar}
use hdu_riscv_lab.Sim.{
  Flags, print_pc_cycle, commit_timeout, differs, Design, Sim, clocked, top_pins, step, drive,
  count, emulate, commits,
}
use hdu_riscv_lab.Sim.Round.{
  compared, report, slots, close, print_progress, commit, trace_commit, tick, trace_tick, goes_on,
}

-- At most `n` rounds of a loop.
unfoldable pub loop :
    {T : Type 0} → Design T → (Sim T → Outcome (Sim T)) → ℕ → Sim T → Outcome (Sim T)
loop design round zero s = ok s
loop design round (suc n) s =
    let rest = round s >>= λ s'. loop design round n s' in if goes_on design s then rest else ok s

module _ {T : Type 0} (design : Design T) (flags : Flags) where
  -- The loop of `riscv_test_run` and that of `make_cpu_trace`.
  unfoldable pub rounds : ℕ → Sim T → Outcome (Sim T)
  rounds n s = loop design (tick design flags) n s

  unfoldable pub trace_rounds : ℕ → Sim T → Outcome (Sim T)
  trace_rounds n s = loop design (trace_tick design flags) n s

-- What the parts of a round leave of the time: the ticks, the tick of the last commit, the time left.
abbrev pub SameTime : {T : Type 0} → Sim T → Sim T → Type 0
SameTime s s' = (s'.ticks ≡ s.ticks) × (s'.last_commit ≡ s.last_commit) × (s'.sim_time ≡ s.sim_time)

-- The only thing that is known of a call is what follows it.
pub each {ℓ} :
    {A B : Type 0} (Q : B → Type ℓ) (call : Outcome A) (f : A → B)
    → ((a : A) → Q (f a))
    → Ensures Q (call >>= λ a. ok (f a))
each Q (ok a) f h = h a
each Q (Outcome.exits code) f h = tt
each Q Outcome.aborts f h = tt
each Q Outcome.faults f h = tt

module _ {T : Type 0} (design : Design T) where
  pub drive-SameTime : (s : Sim T) → Ensures (SameTime s) (drive design s)
  unfolding drive
  drive-SameTime s =
      let t = record s.top { reset = ltb 0 s.rst_ticks; clock = not s.top.clock } in
      Ensures-if (SameTime s) (clocked t) _ _
        (each (SameTime s)
          (beat xbar 0xffffffff (record {
            slave = s.mmio;
            pins = update_input s.mmio_sigs (top_pins design t);
            running = s.running;
          }))
          _ (λ b. same s))
        (same s)
    where
      same : (s : Sim T) → SameTime s s
      same s = (refl, refl, refl)

module _ {T : Type 0} (design : Design T) (flags : Flags) where
  pub emulate-SameTime : (s : Sim T) → Ensures (SameTime s) (emulate design flags s)
  unfolding emulate
  emulate-SameTime s =
      Ensures-if (SameTime s) flags.has_delayslot _ _
        (Ensures-if (SameTime s) (s.delayslot_cnt == 0) _ _
          (each (SameTime s) (step flags s.core) (λ c. record s { core = c; delayslot_flag = true })
            (λ c. (refl, refl, refl)))
          (refl, refl, refl))
        (each (SameTime s) (step flags s.core) (λ c. record s { core = c })
          (λ c. (refl, refl, refl)))

module _ {T : Type 0} (flags : Flags) where
  pub report-SameTime : (s : Sim T) → SameTime s (report flags s)
  unfolding report
  report-SameTime s =
      either (SameTime s) (not flags.should_delay) _ _ (refl, refl, refl)
        (either (SameTime s) (flags.dump_pc_history && (s.delay == 10)) _ _ (refl, refl, refl)
          (refl, refl, refl))

  pub slots-SameTime : (s : Sim T) → SameTime s (slots flags s)
  unfolding slots
  slots-SameTime s =
      either (SameTime s) flags.has_delayslot _ _
        (either (SameTime s) (s.core.debug_is_branch && s.delayslot_flag) _ _ (refl, refl, refl)
          (refl, refl, refl))
        (refl, refl, refl)

  pub print_progress-SameTime : (s : Sim T) → SameTime s (print_progress flags s)
  unfolding print_progress
  print_progress-SameTime s =
      either (SameTime s) (leb print_pc_cycle s.pc_cnt && flags.print_pc) _ _ (refl, refl, refl)
        (refl, refl, refl)

module _ {T : Type 0} (design : Design T) (flags : Flags) where
  pub compared-SameTime : (s : Sim T) → SameTime s (compared design flags s)
  unfolding compared
  compared-SameTime s =
      either (SameTime s) (differs design flags s.top s.core && (s.delayslot_cnt == 0)) _ _
        (report-SameTime flags s) (refl, refl, refl)

  -- A commit moves the tick of the last commit to the current one.
  abbrev pub Committed : Sim T → Sim T → Type 0
  Committed s s' = (s'.ticks ≡ s.ticks) × (s'.last_commit ≡ s.ticks) × (s'.sim_time ≡ s.sim_time)

  pub commit-Committed : (s : Sim T) → Ensures (Committed s) (commit design flags s)
  unfolding commit
  commit-Committed s =
      Ensures->>= (SameTime s) (Committed s) (emulate design flags s) _
        (emulate-SameTime design flags s)
        (λ s1 (e1, f1, g1).
          let s2 = record s1 { last_commit = s1.ticks } in
          let (e3, f3, g3) = print_progress-SameTime flags s2 in
          let (e4, f4, g4) = compared-SameTime (print_progress flags s2) in
          let (e5, f5, g5) =
            slots-SameTime flags (compared design flags (print_progress flags s2)) in
          (e5 ∙ e4 ∙ e3 ∙ e1, f5 ∙ f4 ∙ f3 ∙ e1, g5 ∙ g4 ∙ g3 ∙ g1))

  -- The time after a round.
  abbrev pub Ticked : Sim T → Sim T → Type 0
  Ticked s s' =
      (s'.ticks ≡ add64 s.ticks 1)
      × (s'.sim_time ≡ (if flags.trace_on then sub64 s.sim_time 1 else s.sim_time))
      × ((s'.last_commit ≡ s.last_commit) ⊎ (s'.last_commit ≡ s.ticks))
      × (s'.running ≡ true → sub64 s'.ticks s'.last_commit < commit_timeout)

  close-Ticked :
      (s s' : Sim T)
      → (s'.ticks ≡ s.ticks) × (s'.sim_time ≡ s.sim_time)
      → (s'.last_commit ≡ s.last_commit) ⊎ (s'.last_commit ≡ s.ticks)
      → Ticked s (close flags s')
  unfolding close
  close-Ticked s s' (e, g) f =
      elim (Bool-cases (leb commit_timeout (sub64 (add64 s'.ticks 1) s'.last_commit))) [
        | inl late ↦
            rw late (
              ap (λ t. add64 t 1) e,
              ap (λ t. if flags.trace_on then sub64 t 1 else t) g,
              f,
              λ z. cc,
            )
        | inr soon ↦ rw soon (
          ap (λ t. add64 t 1) e,
          ap (λ t. if flags.trace_on then sub64 t 1 else t) g,
          f,
          λ z. ground arith,
        )
      ]

  -- What stands between the drive of the pins and the end of a round.
  abbrev pub Between : Sim T → Sim T → Type 0
  Between s s' =
      (s'.ticks ≡ s.ticks)
      × (s'.sim_time ≡ s.sim_time)
      × ((s'.last_commit ≡ s.last_commit) ⊎ (s'.last_commit ≡ s.ticks))

  round-Ticked :
      (s : Sim T) (next : Sim T → Outcome (Sim T))
      → ((s1 : Sim T) → Ensures (Between s1) (next s1))
      → Ensures (Ticked s) (drive design s >>= λ s1. next s1 >>= λ s2. ok (close flags s2))
  round-Ticked s next between =
      Ensures->>= (SameTime s) (Ticked s) (drive design s) _ (drive-SameTime design s)
        (λ s1 (e1, f1, g1).
          Ensures->>= (Between s1) (Ticked s) (next s1) _ (between s1) (λ s2 (e2, g2, f2).
            close-Ticked s s2 (e2 ∙ e1, g2 ∙ g1)
              (elim f2 [ inl same ↦ inl (same ∙ f1) | inr now ↦ inr (now ∙ e1) ])))

  pub tick-Ticked : (s : Sim T) → Ensures (Ticked s) (tick design flags s)
  unfolding tick count
  tick-Ticked s =
      round-Ticked s
        (λ s1.
          if commits design flags s1.top
          then commit design flags (count design flags s1)
          else ok (count design flags s1))
        (λ s1.
          Ensures-if (Between s1) (commits design flags s1.top) _ _
            (Ensures-map (Committed s1) (Between s1) (commit design flags (count design flags s1))
              (commit-Committed (count design flags s1)) (λ s2 (e, f, g). (e, g, inr f)))
            (refl, refl, inl refl))

  trace_commit-Committed : (s : Sim T) → Ensures (Committed s) (trace_commit design flags s)
  unfolding trace_commit
  trace_commit-Committed s =
      Ensures->>= (SameTime s) (Committed s) (emulate design flags s) _
        (emulate-SameTime design flags s)
        (λ s1 (e1, f1, g1).
          let s2 = record s1 { last_commit = s1.ticks } in
          let (e4, f4, g4) = compared-SameTime s2 in
          let (e5, f5, g5) = slots-SameTime flags (compared design flags s2) in
          Ensures-if (Committed s) (slots flags (compared design flags s2)).trace_file _ _
            (e5 ∙ e4 ∙ e1, f5 ∙ f4 ∙ e1, g5 ∙ g4 ∙ g1) tt)

  pub trace_tick-Ticked : (s : Sim T) → Ensures (Ticked s) (trace_tick design flags s)
  unfolding trace_tick
  trace_tick-Ticked s =
      round-Ticked s
        (λ s1. if commits design flags s1.top then trace_commit design flags s1 else ok s1)
        (λ s1.
          Ensures-if (Between s1) (commits design flags s1.top) _ _
            (Ensures-map (Committed s1) (Between s1) (trace_commit design flags s1)
              (trace_commit-Committed s1) (λ s2 (e, f, g). (e, g, inr f)))
            (refl, refl, inl refl))
