-- ===== src/Sim/SlotState.antt =====
-- What the parts of a round of `riscv_test_run` (difftest/src/sim_mycpu.cpp) do to the emulator and to
-- the counter of the slots behind a branch.
use hdu_riscv_lab.Prelude.{
  ℕ, suc, ◌-◌, ◌≡◌, refl, ◌∙◌, arith, Bool, true, false, not, ◌&&◌, ltb, leb, ◌==◌, if◌then◌else◌,
  List, [], ◌∷◌, ok, Ensures, Ensures-if, either,
}
use hdu_riscv_lab.Word.{add64, sub64}
use hdu_riscv_lab.Core.{Core}
use hdu_riscv_lab.Sram.{update_input}
use hdu_riscv_lab.Sram.Slave.{beat}
use hdu_riscv_lab.Sram.Xbar.{xbar}
use hdu_riscv_lab.Sim.{
  Flags, Design, Event, printed_pc, mismatch, history, stuck, traced, Sim, commit_timeout,
  print_pc_cycle, clocked, top_pins, step, drive, differs, emulate,
}
use hdu_riscv_lab.Sim.Round.{slots, close, print_progress, compared}
use hdu_riscv_lab.Sim.Loop.{each}

module _ {T : Type 0} (design : Design T) (flags : Flags) where
  pub emulate_slot :
      (s : Sim T) (k : ℕ)
      → flags.has_delayslot ≡ true
      → s.delayslot_cnt ≡ suc k
      → emulate design flags s ≡ ok s
  unfolding emulate
  emulate_slot s k on cnt =
      let waits : (s.delayslot_cnt == 0) ≡ false = ground arith in rw (on, waits) refl

  pub compared_slot : (s : Sim T) (k : ℕ) → s.delayslot_cnt ≡ suc k → compared design flags s ≡ s
  unfolding compared
  compared_slot s k cnt =
      let waits : (differs design flags s.top s.core && (s.delayslot_cnt == 0)) ≡ false =
        ground arith in
      rw waits refl

  pub slots_slot :
      (s : Sim T)
      → flags.has_delayslot ≡ true
      → s.delayslot_flag ≡ false
      → slots flags s ≡ record s { delayslot_cnt = s.delayslot_cnt - 1 }
  unfolding slots
  slots_slot s on off =
      let no_branch : (s.core.debug_is_branch && s.delayslot_flag) ≡ false = ground arith in
      rw (on, no_branch) refl

  pub slots_branch :
      (s : Sim T)
      → flags.has_delayslot ≡ true
      → s.delayslot_flag ≡ true
      → s.core.debug_is_branch ≡ true
      → slots flags s ≡ record s { delayslot_cnt = 2; delayslot_flag = false }
  unfolding slots
  slots_branch s on ready branch = rw (on, ready, branch) refl

  pub emulate_branch :
      (s : Sim T) {c : Core}
      → flags.has_delayslot ≡ true
      → s.delayslot_cnt ≡ 0
      → step flags s.core ≡ ok c
      → emulate design flags s ≡ ok (record s { core = c; delayslot_flag = true })
  unfolding emulate
  emulate_branch s on cnt stepped = rw (on, cnt, stepped) refl

-- The mismatches that were reported.
abbrev pub mismatches : List Event → ℕ
mismatches [] = 0
mismatches (mismatch ∷ log) = suc (mismatches log)
mismatches (printed_pc pc ∷ log) = mismatches log
mismatches (history ∷ log) = mismatches log
mismatches (stuck ∷ log) = mismatches log
mismatches (traced pc num value ∷ log) = mismatches log

-- The emulator, the slots, and the mismatches are as in the first state.
abbrev pub SameSlot : {T : Type 0} → Sim T → Sim T → Type 0
SameSlot s s' =
    (s'.core ≡ s.core)
    × (s'.delayslot_cnt ≡ s.delayslot_cnt)
    × (s'.delayslot_flag ≡ s.delayslot_flag)
    × (mismatches s'.log ≡ mismatches s.log)
    × (s'.delay ≡ s.delay)

SameSlot-trans : {T : Type 0} (s s' s'' : Sim T) → SameSlot s s' → SameSlot s' s'' → SameSlot s s''
SameSlot-trans s s' s'' (a, b, c, d, e) (f, g, h, i, j) = (f ∙ a, g ∙ b, h ∙ c, i ∙ d, j ∙ e)

module _ {T : Type 0} (design : Design T) (flags : Flags) where
  pub drive-SameSlot : (s : Sim T) → Ensures (SameSlot s) (drive design s)
  unfolding drive
  drive-SameSlot s =
      let t = record s.top { reset = ltb 0 s.rst_ticks; clock = not s.top.clock } in
      Ensures-if (SameSlot s) (clocked t) _ _
        (each (SameSlot s)
          (beat xbar 0xffffffff (record {
            slave = s.mmio;
            pins = update_input s.mmio_sigs (top_pins design t);
            running = s.running;
          }))
          _ (λ b. same s))
        (same s)
    where
      same : (s : Sim T) → SameSlot s s
      same s = (refl, refl, refl, refl, refl)

  pub close-SameSlot : (s : Sim T) → SameSlot s (close flags s)
  unfolding close
  close-SameSlot s =
      either (SameSlot s) (leb commit_timeout (sub64 (add64 s.ticks 1) s.last_commit)) _ _
        (refl, refl, refl, unstuck flags.dump_pc_history, refl) (refl, refl, refl, refl, refl)
    where
      unstuck :
          (dump : Bool)
          → mismatches (if dump then history ∷ stuck ∷ s.log else stuck ∷ s.log) ≡ mismatches s.log
      unstuck true = refl
      unstuck false = refl

  pub print_progress-SameSlot : (s : Sim T) → SameSlot s (print_progress flags s)
  unfolding print_progress
  print_progress-SameSlot s =
      either (SameSlot s) (leb print_pc_cycle s.pc_cnt && flags.print_pc) _ _
        (refl, refl, refl, refl, refl) (refl, refl, refl, refl, refl)
