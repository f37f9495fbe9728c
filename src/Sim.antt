-- ===== src/Sim.antt =====
-- The simulator of difftest/src/sim_mycpu.cpp: it runs the processor under test against the emulator
-- and compares the two at each commit.
-- The processor, the class `Vtop` that Verilator generates, is the parameter `design` on a type `T` of
-- states; what is printed is the list `log`, the last entry first, without its text.
pub mod Options
pub mod Round
pub mod Setup
pub mod Loop
pub mod Delay
pub mod Commits
pub mod SlotState
pub mod Slots
pub mod Stuck
pub mod Parsed
pub mod Start
pub mod Main
pub mod Examples
use hdu_riscv_lab.Prelude.{
  ℕ, ◌+◌, ◌-◌, ◌%◌, ◌^◌, Bool, true, false, not, ◌&&◌, ◌||◌, ltb, leb, ◌==◌, if◌then◌else◌, List,
  [], ◌∷◌, Outcome, ok, faults, ◌>>=◌,
}
use hdu_riscv_lab.Word.{add64, sub64}
use hdu_riscv_lab.Core.{Core}
use hdu_riscv_lab.Core.Exec.{exec}
use hdu_riscv_lab.Sram.{Pins, update_input, update_output}
use hdu_riscv_lab.Sram.Slave.{Beat, beat}
use hdu_riscv_lab.Sram.Xbar.{Xbar, xbar}

-- The globals that the arguments set, but for `running` and `sim_time`, which change in the loop.
pub record Flags : Type 0 where
  pub run_riscv_test : Bool
  pub dump_pc_history : Bool
  pub print_pc : Bool
  pub should_delay : Bool
  pub dual_issue : Bool
  pub perf_counter : Bool
  pub init_gprs : Bool
  pub write_append : Bool
  pub has_delayslot : Bool
  pub only_mode_m : Bool
  pub trace_start_time : ℕ
  pub trace_on : Bool

abbrev pub commit_timeout : ℕ
commit_timeout = 3000

abbrev pub print_pc_cycle : ℕ
print_pc_cycle = 500000

-- The processor: `eval` on the inputs reset, clock and the read data, and its outputs.
pub record Design (T : Type 0) : Type 0 where
  pub eval : Bool → Bool → ℕ → ℕ → T → T
  pub pins : T → Pins
  pub debug_commit : T → Bool
  pub debug_pc : T → ℕ
  pub debug_rf_wnum : T → ℕ
  pub debug_rf_wdata : T → ℕ
  pub got_finish : T → Bool

pub record Top (T : Type 0) : Type 0 where
  pub reset : Bool
  pub clock : Bool
  pub inst_sram_rdata : ℕ
  pub data_sram_rdata : ℕ
  pub inner : T

pub data Event : Type 0 where
  printed_pc : ℕ → Event
  mismatch : Event
  history : Event
  stuck : Event
  traced : ℕ → ℕ → ℕ → Event

-- The variables of the loop. `delay` is the bit pattern of its `int`, `sim_time` that of its `long`.
pub record Sim (T : Type 0) : Type 0 where
  pub top : Top T
  pub core : Core
  pub mmio_sigs : Pins
  pub mmio : Xbar
  pub rst_ticks : ℕ
  pub ticks : ℕ
  pub last_commit : ℕ
  pub pc_cnt : ℕ
  pub delayslot_cnt : ℕ
  pub delayslot_flag : Bool
  pub delay : ℕ
  pub sim_time : ℕ
  pub running : Bool
  pub total_cycle : ℕ
  pub total_instr : ℕ
  pub trace_file : Bool
  pub log : List Event

abbrev pub clocked : {T : Type 0} → Top T → Bool
clocked t = t.clock && not t.reset

abbrev pub step : Flags → Core → Outcome Core
step flags c = exec flags.run_riscv_test flags.only_mode_m c false false false false

module _ {T : Type 0} (design : Design T) where
  abbrev pub evaluated : Top T → Top T
  evaluated t = record t {
    inner = design.eval t.reset t.clock t.inst_sram_rdata t.data_sram_rdata t.inner;
  }

  -- What `mmio_ref` leads to.
  abbrev pub top_pins : Top T → Pins
  top_pins t = record (design.pins t.inner) {
    inst_sram_rdata = t.inst_sram_rdata;
    data_sram_rdata = t.data_sram_rdata;
  }

  -- Reset and clock, and the beat of the memory where the clock is high. The crossbar's address mask
  -- is not set.
  unfoldable pub drive : Sim T → Outcome (Sim T)
  drive s =
      let t = record s.top { reset = ltb 0 s.rst_ticks; clock = not s.top.clock } in
      let t' = evaluated t in
      let s' = record s { rst_ticks = s.rst_ticks - 1; top = t' } in
      if clocked t
      then (beat xbar 0xffffffff (record {
        slave = s.mmio;
        pins = update_input s.mmio_sigs (top_pins t);
        running = s.running;
      })
          >>= λ b.
              let out = update_output b.pins (top_pins t') in
              ok (record s' {
                top = evaluated (record t' {
                  inst_sram_rdata = out.inst_sram_rdata;
                  data_sram_rdata = out.data_sram_rdata;
                });
                mmio_sigs = b.pins;
                mmio = b.slave;
                running = b.running;
              }))
      else ok s'

  module _ (flags : Flags) where
    abbrev pub commits : Top T → Bool
    commits t =
        ((t.clock && not flags.dual_issue) || flags.dual_issue) && design.debug_commit t.inner

    -- The performance counters, which only `riscv_test_run` has.
    unfoldable pub count : Sim T → Sim T
    count s = record s {
      total_cycle = if clocked s.top then s.total_cycle + 1 else s.total_cycle;
      total_instr = if commits s.top then s.total_instr + 1 else s.total_instr;
    }

    -- The emulator's step; in the slots behind a branch there is none.
    unfoldable pub emulate : Sim T → Outcome (Sim T)
    emulate s =
        if flags.has_delayslot
        then (if s.delayslot_cnt == 0
            then (step flags s.core >>= λ c. ok (record s { core = c; delayslot_flag = true }))
            else ok s)
        else (step flags s.core >>= λ c. ok (record s { core = c }))

    -- The comparison of the processor with the emulator.
    abbrev pub differs : Top T → Core → Bool
    differs t c =
        not (design.debug_pc t.inner == c.debug_pc)
        || (not (c.debug_reg_num == 0)
            && (not (design.debug_rf_wnum t.inner == c.debug_reg_num)
                || not (design.debug_rf_wdata t.inner == c.debug_reg_wdata)))
