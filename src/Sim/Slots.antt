-- ===== src/Sim/Slots.antt =====
-- The two commits behind a branch that the option for delay slots of difftest/src/sim_mycpu.cpp passes
-- over.
use hdu_riscv_lab.Prelude.{
  ℕ, zero, suc, ◌-◌, ◌≤◌, ◌≡◌, refl, ap, subst, ◌∙◌, arith, true, false, ok, Ensures-ok,
}
use hdu_riscv_lab.Core.{Core}
use hdu_riscv_lab.Sim.{Flags, Design, Sim, step, drive, count, commits}
use hdu_riscv_lab.Sim.Round.{slots, close, print_progress, compared, commit, tick}
use hdu_riscv_lab.Sim.Commits.{print_progress-SameSlots, compared-SameSlots}
use hdu_riscv_lab.Sim.SlotState.{
  emulate_slot, compared_slot, slots_slot, slots_branch, emulate_branch, mismatches, SameSlot,
  drive-SameSlot, close-SameSlot, print_progress-SameSlot,
}

module _ {T : Type 0} (design : Design T) (flags : Flags) where
  -- A round after its parts.
  quiet_tick :
      (s s0 s' : Sim T)
      → drive design s ≡ ok s0
      → commits design flags s0.top ≡ false
      → tick design flags s ≡ ok s'
      → close flags (count design flags s0) ≡ s'
  unfolding tick
  quiet_tick s s0 s' driven quiet e =
      let done : ok (close flags (count design flags s0)) ≡ ok s' = rw (driven, quiet) at e in cc

  retired_tick :
      (s s0 s2 s' : Sim T)
      → drive design s ≡ ok s0
      → commits design flags s0.top ≡ true
      → commit design flags (count design flags s0) ≡ ok s2
      → tick design flags s ≡ ok s'
      → close flags s2 ≡ s'
  unfolding tick
  retired_tick s s0 s2 s' driven retired committed e =
      let done : ok (close flags s2) ≡ ok s' = rw (driven, retired, committed) at e in cc

  count-SameSlot : (s s0 : Sim T) → drive design s ≡ ok s0 → SameSlot s (count design flags s0)
  unfolding count
  count-SameSlot s s0 driven =
      Ensures-ok (SameSlot s) (drive design s) (drive-SameSlot design flags s) driven

  -- In a slot behind a branch, with `k` more slots to come; `m` mismatches were reported.
  abbrev pub InSlot : Core → ℕ → ℕ → ℕ → Sim T → Type 0
  InSlot core k m d s =
      (s.core ≡ core)
      × (s.delayslot_cnt ≡ k)
      × (s.delayslot_flag ≡ false)
      × (mismatches s.log ≡ m)
      × (s.delay ≡ d)

  InSlot-SameSlot :
      (core : Core) (k m d : ℕ) (s s' : Sim T)
      → InSlot core k m d s
      → SameSlot s s'
      → InSlot core k m d s'
  InSlot-SameSlot core k m d s s' (a, b, c, e, f) (a', b', c', e', f') =
      (a' ∙ a, b' ∙ b, c' ∙ c, e' ∙ e, f' ∙ f)

  InSlot-commit :
      (core : Core) (k m d : ℕ) (s : Sim T)
      → flags.has_delayslot ≡ true
      → InSlot core (suc k) m d s
      → (s' : Sim T) × (commit design flags s ≡ ok s') × InSlot core k m d s'
  unfolding commit
  InSlot-commit core k m d s on (c, cnt, off, seen, patience) =
      let s3 = print_progress flags (record s { last_commit = s.ticks }) in
      let (c3, n3, f3, m3, d3) =
        print_progress-SameSlot design flags (record s { last_commit = s.ticks }) in
      (
        record s3 { delayslot_cnt = s3.delayslot_cnt - 1 },
        rw (emulate_slot design flags s k on cnt) (
            ap ok (
              ap (λ t. slots flags t) (compared_slot design flags s3 k (n3 ∙ cnt))
              ∙ slots_slot design flags s3 on (f3 ∙ off))),
        (c3 ∙ c, omega arith, f3 ∙ off, m3 ∙ seen, d3 ∙ patience),
      )

  branch_commit :
      (s : Sim T) {c : Core}
      → flags.has_delayslot ≡ true
      → s.delayslot_cnt ≡ 0
      → step flags s.core ≡ ok c
      → c.debug_is_branch ≡ true
      → (s' : Sim T) × (commit design flags s ≡ ok s')
        × (s'.core ≡ c)
        × (s'.delayslot_cnt ≡ 2)
        × (s'.delayslot_flag ≡ false)
  unfolding commit
  branch_commit s {c} on cnt stepped branch =
      let s1 = record s { core = c; delayslot_flag = true } in
      let s2 = record s1 { last_commit = s.ticks } in
      let s3 = print_progress flags s2 in
      let s4 = compared design flags s3 in
      let ((t3, c3, n3, f3), r3, d3) = print_progress-SameSlots flags s2 in
      let (t4, c4, n4, f4) = compared-SameSlots design flags s3 in
      (
        record s4 { delayslot_cnt = 2; delayslot_flag = false },
        rw (emulate_branch design flags s on cnt stepped) (
            ap ok (
              slots_branch design flags s4 on (f4 ∙ f3)
                (ap (λ (t : Core). t.debug_is_branch) (c4 ∙ c3) ∙ branch))),
        c4 ∙ c3,
        refl,
        refl,
      )

  -- Rounds of the loop of `riscv_test_run`, of which `n` have a commit.
  pub data Rounds : ℕ → Sim T → Sim T → Type 0 where
    ends : {s : Sim T} → Rounds 0 s s
    quiet :
        {n : ℕ} {s s' s'' : Sim T} (s0 : Sim T)
        → drive design s ≡ ok s0
        → commits design flags s0.top ≡ false
        → tick design flags s ≡ ok s'
        → Rounds n s' s''
        → Rounds n s s''
    retires :
        {n : ℕ} {s s' s'' : Sim T} (s0 : Sim T)
        → drive design s ≡ ok s0
        → commits design flags s0.top ≡ true
        → tick design flags s ≡ ok s'
        → Rounds n s' s''
        → Rounds (suc n) s s''

  InSlot-Rounds :
      (core : Core) (k m d n : ℕ) (s s' : Sim T)
      → flags.has_delayslot ≡ true
      → Rounds n s s'
      → n ≤ k
      → InSlot core k m d s
      → InSlot core (k - n) m d s'
  InSlot-Rounds core k m d _ s _ on ends le h =
      let all_left : k - 0 ≡ k = omega arith in rw all_left h
  InSlot-Rounds core k m d n s s'' on (quiet {s' = s'} s0 driven none e more) le h =
      let same = count-SameSlot s s0 driven in
      let here = InSlot-SameSlot core k m d s (count design flags s0) h same in
      let next = subst (InSlot core k m d) (quiet_tick s s0 s' driven none e) (
        InSlot-SameSlot core k m d (count design flags s0) (close flags (count design flags s0))
          here (close-SameSlot design flags (count design flags s0))) in
      InSlot-Rounds core k m d n s' s'' on more le next
  InSlot-Rounds core zero m d _ s s'' on (retires {n = n} s0 driven one e more) le h =
      absurd (omega arith)
  InSlot-Rounds core (suc k) m d _ s s'' on (retires {n = n} {s' = s'} s0 driven one e more) le h =
      let same = count-SameSlot s s0 driven in
      let here = InSlot-SameSlot core (suc k) m d s (count design flags s0) h same in
      let (s2, committed, slot) = InSlot-commit core k m d (count design flags s0) on here in
      let next =
        subst (InSlot core k m d) (retired_tick s s0 s2 s' driven one committed e)
          (InSlot-SameSlot core k m d s2 (close flags s2) slot (close-SameSlot design flags s2)) in
      let one_less : suc k - suc n ≡ k - n = omega arith in
      rw one_less (InSlot-Rounds core k m d n s' s'' on more (omega arith) next)

  -- With the option for delay slots, after a round with a commit at which the emulator executes a branch,
  -- the emulator makes no step and no mismatch is reported in the rounds that follow, up to and with the
  -- second that has a commit, whatever the processor does in them and however many there are; with the
  -- second commit the counter of the slots is 0 again.
  pub commit-slots :
      (s s0 s1 s2 : Sim T) {c : Core} {n : ℕ}
      → flags.has_delayslot ≡ true
      → drive design s ≡ ok s0
      → commits design flags s0.top ≡ true
      → s.delayslot_cnt ≡ 0
      → step flags s.core ≡ ok c
      → c.debug_is_branch ≡ true
      → tick design flags s ≡ ok s1
      → Rounds n s1 s2
      → n ≤ 2
      → (s2.core ≡ c)
        × (s2.delayslot_cnt ≡ 2 - n)
        × (mismatches s2.log ≡ mismatches s1.log)
        × (s2.delay ≡ s1.delay)
  commit-slots s s0 s1 s2 {c} {n} on driven one cnt stepped branch e more le =
      let (same_core, same_cnt, same_flag, same_log, same_delay) = count-SameSlot s s0 driven in
      let (s', committed, core', cnt', flag') =
        branch_commit (count design flags s0) on (same_cnt ∙ cnt)
          (ap (step flags) same_core ∙ stepped) branch in
      let (close_core, close_cnt, close_flag, close_log, close_delay) =
        close-SameSlot design flags s' in
      let closed =
        subst (λ (t : Sim T). (t.core ≡ c) × (t.delayslot_cnt ≡ 2) × (t.delayslot_flag ≡ false))
          (retired_tick s s0 s' s1 driven one committed e)
          (close_core ∙ core', close_cnt ∙ cnt', close_flag ∙ flag') in
      let (core2, cnt2, flag2, log2, delay2) =
        InSlot-Rounds c 2 (mismatches s1.log) s1.delay n s1 s2 on more le
          (closed.0, closed.1, closed.2, refl, refl) in
      (core2, cnt2, log2, delay2)
