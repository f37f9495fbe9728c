-- ===== src/Sim/Round.antt =====
-- A round of the loops of difftest/src/sim_mycpu.cpp: the commit, the comparison and its report, and the
-- end of the round.
use hdu_riscv_lab.Prelude.{
  ℕ, ◌+◌, ◌-◌, ◌%◌, ◌^◌, Bool, false, not, ◌&&◌, ltb, leb, ◌==◌, if◌then◌else◌, List, ◌∷◌, Outcome,
  ok, faults, ◌>>=◌,
}
use hdu_riscv_lab.Word.{add64, sub64}
use hdu_riscv_lab.Sim.{
  Flags, Design, Event, printed_pc, mismatch, history, stuck, traced, Sim, commit_timeout,
  print_pc_cycle, drive, count, emulate, commits, differs,
}

-- `delay--` on the pattern of an `int`.
abbrev pub decremented : ℕ → ℕ
decremented d = (d + 2 ^ 32 - 1) % 2 ^ 32

abbrev pub dumped : Flags → List Event → List Event
dumped flags log = if flags.dump_pc_history then history ∷ log else log

module _ {T : Type 0} (flags : Flags) where
  -- What follows a mismatch. `delay` may be decremented in both tests.
  unfoldable pub report : Sim T → Sim T
  report s =
      let log = mismatch ∷ s.log in
      let d = if flags.dump_pc_history then decremented s.delay else s.delay in
      if not flags.should_delay
      then record s { running = false; log = dumped flags log }
      else if flags.dump_pc_history && (s.delay == 10)
      then record s { delay = d; log = history ∷ log }
      else record s {
        delay = decremented d;
        running = if d == 0 then false else s.running;
        log = log;
      }

  -- The slots behind a branch.
  unfoldable pub slots : Sim T → Sim T
  slots s =
      if flags.has_delayslot
      then (if s.core.debug_is_branch && s.delayslot_flag
          then record s { delayslot_cnt = 2; delayslot_flag = false }
          else record s { delayslot_cnt = s.delayslot_cnt - 1 })
      else s

  -- The end of a round: the time, and the test for a processor that commits nothing.
  unfoldable pub close : Sim T → Sim T
  close s =
      let ticks = add64 s.ticks 1 in
      let sim_time = if flags.trace_on then sub64 s.sim_time 1 else s.sim_time in
      if leb commit_timeout (sub64 ticks s.last_commit)
      then record s {
        ticks = ticks;
        sim_time = sim_time;
        running = false;
        log = dumped flags (stuck ∷ s.log);
      }
      else record s { ticks = ticks; sim_time = sim_time }

  unfoldable pub print_progress : Sim T → Sim T
  print_progress s =
      if leb print_pc_cycle s.pc_cnt && flags.print_pc
      then record s { pc_cnt = 0; log = printed_pc s.core.debug_pc ∷ s.log }
      else record s { pc_cnt = add64 s.pc_cnt 1 }

module _ {T : Type 0} (design : Design T) (flags : Flags) where
  -- The comparison, but in the slots behind a branch.
  unfoldable pub compared : Sim T → Sim T
  compared s =
      if differs design flags s.top s.core && (s.delayslot_cnt == 0) then report flags s else s

  -- A commit in `riscv_test_run`.
  unfoldable pub commit : Sim T → Outcome (Sim T)
  commit s = emulate design flags s >>= λ s'.
      ok (slots flags (compared (print_progress flags (record s' { last_commit = s'.ticks }))))

  -- A commit in `make_cpu_trace`; without its file, `fprintf` is given a null pointer.
  unfoldable pub trace_commit : Sim T → Outcome (Sim T)
  trace_commit s = emulate design flags s >>= λ s'.
      let s'' = slots flags (compared (record s' { last_commit = s'.ticks })) in
      let c = s''.core in
      if s''.trace_file
      then ok (record s'' { log = traced c.debug_pc c.debug_reg_num c.debug_reg_wdata ∷ s''.log })
      else faults

  -- A round of the loop of `riscv_test_run`, and of that of `make_cpu_trace`.
  unfoldable pub tick : Sim T → Outcome (Sim T)
  tick s = drive design s >>= λ s'.
      (if commits design flags s'.top
        then commit (count design flags s')
        else ok (count design flags s'))
      >>= λ s''. ok (close flags s'')

  unfoldable pub trace_tick : Sim T → Outcome (Sim T)
  trace_tick s = drive design s >>= λ s'.
      (if commits design flags s'.top then trace_commit s' else ok s') >>= λ s''.
      ok (close flags s'')

module _ {T : Type 0} (design : Design T) where
  -- The condition of the loops: a `long` above 0.
  abbrev pub goes_on : Sim T → Bool
  goes_on s =
      not (design.got_finish s.top.inner)
      && (ltb 0 s.sim_time && ltb s.sim_time (2 ^ 63))
      && s.running
