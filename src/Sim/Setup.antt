-- ===== src/Sim/Setup.antt =====
-- How `riscv_test_run` and `make_cpu_trace` of difftest/src/sim_mycpu.cpp build the emulator and the
-- memory of the processor. `assert` is the simulator's own, which clears `running`. `cold` is the core
-- before its constructor, and `file` are the bytes of the test. The emulator and the processor have two
-- arrays: `cemu_bytes` and `rtl_bytes` are what these hold when they are new.
use hdu_riscv_lab.Prelude.{
  ℕ, zero, suc, ◌*◌, Bool, true, false, if◌then◌else◌, List, [], ◌∷◌, replicate, Option, none, some,
  Outcome, ok, ◌>>=◌,
}
use hdu_riscv_lab.Mem.{Mem, mem_of_file}
use hdu_riscv_lab.Device.{mem}
use hdu_riscv_lab.Bus.{Bus}
use hdu_riscv_lab.Bus
use hdu_riscv_lab.Sv39
use hdu_riscv_lab.Priv.{reset}
use hdu_riscv_lab.Core.{Core, set_gpr}
use hdu_riscv_lab.Core.Exec.{jump}
use hdu_riscv_lab.Sram.{blank}
use hdu_riscv_lab.Sram.Xbar.{Xbar, add_dev}
use hdu_riscv_lab.Sim.{Flags, Top, Sim, print_pc_cycle}

-- 128 MiB.
abbrev pub ram_size : ℕ
ram_size = 128 * 1024 * 1024

-- The map after `assert(add_dev(...))`, and `running`.
abbrev pub asserted {ℓ} : {A : Type ℓ} → A → Option A → Bool → A × Bool
asserted old none running = (old, false)
asserted old (some new) running = (new, running)

-- The constructor of `rv_core`: hart 0, and registers of 0.
unfoldable pub new_core : Bool → Bool → Core → Bus → Core
new_core run_riscv_test only_modeM cold bus = record cold {
  gpr = replicate 32 0;
  priv =
      reset run_riscv_test only_modeM
        (record cold.priv { hart_id = 0; sv39 = Sv39.init cold.priv.sv39.tlb });
  bus = bus;
  difftest_mode = false;
}

-- The loop over the registers, with `n` left from register `i` on.
unfoldable pub fill_gprs : ℕ → ℕ → Core → Outcome Core
fill_gprs zero i c = ok c
fill_gprs (suc n) i c = set_gpr c i i >>= λ c'. fill_gprs n (suc i) c'

-- `cemu_mem` and `rtl_mem`, on the bytes of a new array.
abbrev pub ram : (ℕ → ℕ) → List ℕ → Mem
ram new_bytes file = mem_of_file ram_size new_bytes file

-- The buses and the emulator. What a bus holds before its constructor is `fresh`.
module _ (flags : Flags) (cemu_bytes rtl_bytes : ℕ → ℕ) (file : List ℕ) (cold : Core) where
  abbrev pub fresh_bus : Bus
  fresh_bus = record cold.bus {
    lr_valid = false;
    devices = [];
    heap = mem (ram cemu_bytes file) ∷ [];
  }

  abbrev pub fresh_xbar : Xbar
  fresh_xbar = record { devices = []; heap = mem (ram rtl_bytes file) ∷ [] }

  -- The emulator at the first address of the memory.
  unfoldable pub emulator : Bus → Outcome Core
  emulator bus =
      let c = jump (new_core flags.run_riscv_test flags.only_mode_m cold bus) 0x80000000 in
      if flags.init_gprs then fill_gprs 32 0 c else ok c

  -- The state before the loop; `delay` is 1500 in `riscv_test_run` and 10 in `make_cpu_trace`.
  unfoldable pub setup : {T : Type 0} → ℕ → Bool → Bool → ℕ → Top T → Outcome (Sim T)
  setup delay trace_file running sim_time top =
      Bus.add_dev fresh_bus 0x80000000 0x80000000 0 false >>= λ bus.
      let (bus, running) = asserted fresh_bus bus running in
      emulator bus >>= λ core. add_dev fresh_xbar 0x80000000 0x80000000 0 false >>= λ mmio.
      let (mmio, running) = asserted fresh_xbar mmio running in
      ok (record {
        top = top;
        core = core;
        mmio_sigs = blank;
        mmio = mmio;
        rst_ticks = 10;
        ticks = 0;
        last_commit = 0;
        pc_cnt = print_pc_cycle;
        delayslot_cnt = 0;
        delayslot_flag = true;
        delay = delay;
        sim_time = sim_time;
        running = running;
        total_cycle = 0;
        total_instr = 0;
        trace_file = trace_file;
        log = [];
      })
