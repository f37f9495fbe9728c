-- ===== src/Sim/Examples.antt =====
-- Runs of a processor that commits one instruction per cycle, and the theorems about the simulator.
use hdu_riscv_lab.Prelude.{
  ℕ, ◌+◌, ◌^◌, ◌<◌, ◌≡◌, ◌↔◌, inr, refl, arith, Bool, true, false, ◌&&◌, ◌||◌, [], ◌∷◌, replicate,
  ok, ltb, get_or, if◌then◌else◌, Ensures,
}
use hdu_riscv_lab.Bytes.{store, to_bytes}
use hdu_riscv_lab.Mem.{Mem}
use hdu_riscv_lab.Mem
use hdu_riscv_lab.Device.{mem, do_read}
use hdu_riscv_lab.Bus.{locate, prev_upper_bound, pa_read}
use hdu_riscv_lab.Priv.Trap.{pre_exec, check_and_raise_int, final_int_index, int2index, post_exec}
use hdu_riscv_lab.Priv.Access.{va_if, va_if_within}
use hdu_riscv_lab.Core.{Core, reg, set_gpr}
use hdu_riscv_lab.Core.Control.{jal, link_to}
use hdu_riscv_lab.Core.Exec.{exec, fetch_exec, decode_exec, exec_opcode, exception, finish_exec}
use hdu_riscv_lab.Core.Examples.{core, next_core, cycle, bus, program, zeros, machine}
use hdu_riscv_lab.Sim.Main.{World, main, main-ends}
use hdu_riscv_lab.Sram.{Pointers, blank, update_input, update_output}
use hdu_riscv_lab.Sram.Slave.{beat, inst_channel, data_channel}
use hdu_riscv_lab.Sram.Memory.{with_memory}
use hdu_riscv_lab.Sim.{Flags, Design, Sim, mismatch, commit_timeout, step, drive, count, emulate}
use hdu_riscv_lab.Sim.Round.{commit, tick, print_progress, compared, report, slots, close}
use hdu_riscv_lab.Sim.Options.{defaults, parse, option, plain, value, nothing}
use hdu_riscv_lab.Sim.Setup.{ram, ram_size, fresh_bus, setup}
use hdu_riscv_lab.Sim.Loop.{rounds, trace_rounds}
use hdu_riscv_lab.Sim.Stuck.{HasEnded, rounds-stuck}
use hdu_riscv_lab.Sim.Delay.{reports, reports-running}
use hdu_riscv_lab.Sim.Commits.{Mismatch, is_last, tick-stops}
use hdu_riscv_lab.Sim.SlotState.{mismatches}
use hdu_riscv_lab.Sim.Slots.{ends, quiet, retires, commit-slots}
use hdu_riscv_lab.Sim.Start.{setup-returns, ram_entry}

-- It commits the first instruction of `program`, `addi x1, x0, 5`, for ever.
abbrev looping : Design ℕ
looping = record {
  eval = λ reset clock inst word n. n + 1;
  pins = λ n. blank;
  debug_commit = λ n. true;
  debug_pc = λ n. 0x80000000;
  debug_rf_wnum = λ n. 1;
  debug_rf_wdata = λ n. 5;
  got_finish = λ n. false;
}

abbrev silent : Design ℕ
silent = record looping { debug_commit = λ n. false }

abbrev flags : Flags
flags = record defaults.flags { run_riscv_test = true; should_delay = true; dump_pc_history = true }

abbrev traced : Flags
traced = record flags { trace_on = true }

abbrev slotted : Flags
slotted = record flags { has_delayslot = true }

abbrev start : Sim ℕ
start = record {
  top = record {
    reset = false;
    clock = false;
    inst_sram_rdata = 0;
    data_sram_rdata = 0;
    inner = 0;
  };
  core = core;
  mmio_sigs = blank;
  mmio = with_memory program;
  rst_ticks = 0;
  ticks = 20;
  last_commit = 18;
  pc_cnt = 0;
  delayslot_cnt = 0;
  delayslot_flag = true;
  delay = 1500;
  sim_time = 40;
  running = true;
  total_cycle = 0;
  total_instr = 0;
  trace_file = true;
  log = [];
}

rounds-stuck_example :
    Ensures (HasEnded silent) (rounds silent flags commit_timeout start)
    × Ensures (HasEnded silent) (trace_rounds silent flags commit_timeout start)
rounds-stuck_example =
    rounds-stuck silent flags (λ t. no_commit (t.clock && true)) start (omega arith)
      (omega arith, λ runs. omega arith)
  where
    no_commit : (b : Bool) → ((b || false) && false) ≡ false
    no_commit b = ground arith

reports-running_example : (reports flags 751 start).running ≡ false
reports-running_example =
    reports-running flags 751 start refl (omega arith) (inr (inr (omega arith)))

-- The state after the drive of the pins, and that after the emulator's step.
abbrev driven : Sim ℕ
driven = record start { top = record start.top { clock = true; inner = 2 } }

drives : drive looping start ≡ ok driven
unfolding drive beat inst_channel data_channel update_input update_output
drives = refl

abbrev stepped : Sim ℕ
stepped = record driven { core = next_core; total_cycle = 1; total_instr = 1 }

emulates : emulate looping flags (count looping flags driven) ≡ ok stepped
unfolding emulate count
emulates = rw cycle refl

tick-stops_example :
    (s : Sim ℕ) × (tick looping flags start ≡ ok s)
    × ((s.running ≡ true) ↔ (
        (stepped.running ≡ true)
        × ¬ (
            Mismatch looping flags stepped.top next_core
            × (stepped.delayslot_cnt ≡ 0)
            × (is_last flags 1500 ≡ true))))
tick-stops_example =
    tick-stops looping flags start driven stepped drives refl emulates (omega arith)

-- `jal x1, 8` in place of the first instruction.
abbrev jumping : Core
jumping = record core {
  bus = record bus {
    heap = mem (record program { mem = store zeros 0 (to_bytes 4 0x008000ef) }) ∷ [];
  };
}

abbrev jumped : Core
jumped = record jumping {
  pc = 0x80000008;
  gpr = 0 ∷ 0x80000004 ∷ replicate 30 0;
  priv = record machine { mcycle = 1; minstret = 1 };
  debug_pc = 0x80000000;
  debug_reg_num = 1;
  debug_reg_wdata = 0x80000004;
  debug_inst = 0x008000ef;
  debug_is_branch = true;
}

jumps : step slotted jumping ≡ ok jumped
unfolding exec pre_exec check_and_raise_int final_int_index int2index fetch_exec va_if va_if_within
    pa_read locate prev_upper_bound do_read Mem.do_read decode_exec exec_opcode jal set_gpr
    exception finish_exec post_exec link_to
jumps = refl

abbrev at_branch : Sim ℕ
at_branch = record start { core = jumping }

-- The round of the branch, a round with the clock low, and the first commit behind the branch.
abbrev drives_branch : Sim ℕ
drives_branch = record at_branch { top = driven.top }

abbrev branched : Sim ℕ
branched = record drives_branch {
  core = jumped;
  ticks = 21;
  last_commit = 20;
  pc_cnt = 1;
  delayslot_cnt = 2;
  delayslot_flag = false;
  delay = 1498;
  total_cycle = 1;
  total_instr = 1;
  log = mismatch ∷ [];
}

abbrev low : Sim ℕ
low = record branched { top = record start.top { inner = 3 } }

abbrev passed : Sim ℕ
passed = record low { ticks = 22 }

abbrev high : Sim ℕ
high = record passed { top = record start.top { clock = true; inner = 5 } }

abbrev in_slot : Sim ℕ
in_slot = record high {
  ticks = 23;
  last_commit = 22;
  pc_cnt = 2;
  delayslot_cnt = 1;
  total_cycle = 2;
  total_instr = 2;
}

branch_drives : drive looping at_branch ≡ ok drives_branch
unfolding drive beat inst_channel data_channel update_input update_output
branch_drives = refl

low_drives : drive looping branched ≡ ok low
unfolding drive beat inst_channel data_channel update_input update_output
low_drives = refl

high_drives : drive looping passed ≡ ok high
unfolding drive beat inst_channel data_channel update_input update_output
high_drives = refl

branch_tick : tick looping slotted at_branch ≡ ok branched
unfolding tick count commit emulate print_progress compared report slots close
branch_tick = rw (branch_drives, jumps) refl

low_tick : tick looping slotted branched ≡ ok passed
unfolding tick count close
low_tick = rw low_drives refl

slot_tick : tick looping slotted passed ≡ ok in_slot
unfolding tick count commit emulate print_progress compared report slots close
slot_tick = rw high_drives refl

commit-slots_example :
    (in_slot.core ≡ jumped)
    × (in_slot.delayslot_cnt ≡ 1)
    × (mismatches in_slot.log ≡ 1)
    × (in_slot.delay ≡ 1498)
commit-slots_example =
    commit-slots looping slotted at_branch drives_branch branched in_slot refl branch_drives refl
      refl jumps refl branch_tick
      (quiet low low_drives refl low_tick (retires high high_drives refl slot_tick ends))
      (omega arith)

reads_arguments : (parse nothing ("-trace" ∷ " 500x" ∷ "-delay" ∷ []) defaults).sim_time ≡ 500
unfolding parse option plain value
reads_arguments = refl

abbrev ones : ℕ → ℕ
ones i = 1

setup-returns_example :
    (s : Sim ℕ) × (setup flags zeros ones (1 ∷ 2 ∷ []) core 1500 true true 40 start.top ≡ ok s)
    × (s.mmio ≡ with_memory (ram ones (1 ∷ 2 ∷ [])))
    × (s.core.bus
        ≡ record (fresh_bus flags zeros ones (1 ∷ 2 ∷ []) core) { devices = ram_entry ∷ [] })
    × (s.core.pc ≡ 0x80000000)
    × ((j : ℕ) → reg s.core j ≡ 0)
    × (s.running ≡ true)
    × (s.sim_time ≡ 40)
    × ((i : ℕ)
        → (ram zeros (1 ∷ 2 ∷ [])).mem i
          ≡ (if ltb i ram_size && ltb i 2 then get_or (1 ∷ 2 ∷ []) i 0 else 0))
    × ((i : ℕ)
        → (ram ones (1 ∷ 2 ∷ [])).mem i
          ≡ (if ltb i ram_size && ltb i 2 then get_or (1 ∷ 2 ∷ []) i 0 else 1))
setup-returns_example = setup-returns flags zeros ones (1 ∷ 2 ∷ []) core 1500 true true 40 start.top

abbrev wires : Pointers
wires = record {
  inst_sram_en = 1;
  inst_sram_wen = 2;
  inst_sram_addr = 4;
  inst_sram_wdata = 8;
  inst_sram_rdata = 12;
  data_sram_en = 16;
  data_sram_wen = 17;
  data_sram_addr = 20;
  data_sram_wdata = 24;
  data_sram_rdata = 32;
}

abbrev world : World ℕ
world = record {
  read_file = λ path. to_bytes 4 0x00500093;
  cemu_bytes = zeros;
  rtl_bytes = zeros;
  cold = core;
  top = start.top;
  wires = wires;
  opens = true;
}

traces : (parse nothing ("-trace" ∷ "500" ∷ "test.bin" ∷ []) defaults).flags.trace_on ≡ true
unfolding parse option value plain
traces = refl

traced_time : (parse nothing ("-trace" ∷ "500" ∷ "test.bin" ∷ []) defaults).sim_time < 2 ^ 63
unfolding parse option value plain
traced_time = omega arith

main-ends_example : Ensures (HasEnded looping) (
    main looping world
      (parse nothing ("-trace" ∷ "500" ∷ "test.bin" ∷ []) defaults).sim_time
      ("-trace" ∷ "500" ∷ "test.bin" ∷ []))
main-ends_example = main-ends looping world ("-trace" ∷ "500" ∷ "test.bin" ∷ []) traces traced_time
