-- ===== src/Sim/Main.antt =====
-- `main` of difftest/src/sim_mycpu.cpp, from the arguments to the end of the loop. A file is its bytes,
-- by its path; the signal that stops a run is not modelled.
use Prim.Native.String.{String}
use hdu_riscv_lab.Prelude.{
  ℕ, ◌<◌, ◌-◌, ◌^◌, subst, ◌≡◌, Bool, true, List, Outcome, ok, exits, faults, not, ◌&&◌,
  if◌then◌else◌, ◌>>=◌, Ensures, Ensures-if, Ensures->>=,
}
use hdu_riscv_lab.Core.{Core}
use hdu_riscv_lab.Sram.{Pointers, check}
use hdu_riscv_lab.Sim.{Design, Top, Sim}
use hdu_riscv_lab.Sim.Options.{
  RunMode, nop, riscv_test, cpu_trace, Args, nothing, parse, defaults, chosen,
}
use hdu_riscv_lab.Sim.Setup.{setup}
use hdu_riscv_lab.Sim.Round.{goes_on}
use hdu_riscv_lab.Sim.Loop.{rounds, trace_rounds}
use hdu_riscv_lab.Sim.Start.{setup-returns}
use hdu_riscv_lab.Sim.Stuck.{HasEnded, rounds-traced}

-- What `main` meets: the files, the bytes of the two new arrays, the core before its constructor, the
-- processor, the pointers to its pins, and whether `trace.txt` can be opened.
pub record World (T : Type 0) : Type 0 where
  pub read_file : String → List ℕ
  pub cemu_bytes : ℕ → ℕ
  pub rtl_bytes : ℕ → ℕ
  pub cold : Core
  pub top : Top T
  pub wires : Pointers
  pub opens : Bool

anything : {A : Type 0} (call : Outcome A) → Ensures (λ (x : A). Unit {0}) call
anything (ok x) = tt
anything (exits code) = tt
anything Outcome.aborts = tt
anything Outcome.faults = tt

module _ {T : Type 0} (design : Design T) (world : World T) where
  -- `fclose(trace_file)` behind the loop, once that has ended: of a null pointer it is undefined.
  abbrev pub closed : Sim T → Outcome (Sim T)
  closed s = if not (goes_on design s) && not s.trace_file then faults else ok s

  -- `riscv_test_run` and `make_cpu_trace`, with at most `n` rounds.
  unfoldable pub riscv_test_run : ℕ → Args → String → Outcome (Sim T)
  riscv_test_run n a path =
      setup a.flags world.cemu_bytes world.rtl_bytes (world.read_file path) world.cold 1500 true
        (check world.wires) a.sim_time world.top
      >>= λ s. rounds design a.flags n s

  unfoldable pub make_cpu_trace : ℕ → Args → String → Outcome (Sim T)
  make_cpu_trace n a path =
      setup a.flags world.cemu_bytes world.rtl_bytes (world.read_file path) world.cold 10
        world.opens (check world.wires) a.sim_time world.top
      >>= λ s. trace_rounds design a.flags n s >>= λ s'. closed s'

  -- The `switch` on the mode; -ENOENT is -2.
  unfoldable pub run_mode : ℕ → Args → RunMode → String → Outcome (Sim T)
  run_mode n a nop path = exits (2 ^ 32 - 2)
  run_mode n a riscv_test path = riscv_test_run n a path
  run_mode n a cpu_trace path = make_cpu_trace n a path

  unfoldable pub main : ℕ → List String → Outcome (Sim T)
  main n args = let a = parse nothing args defaults in chosen a >>= λ m. run_mode n a m.0 m.1

  riscv_test_run-ends :
      (a : Args) (path : String)
      → a.flags.trace_on ≡ true
      → a.sim_time < 2 ^ 63
      → Ensures (HasEnded design) (riscv_test_run a.sim_time a path)
  unfolding riscv_test_run
  riscv_test_run-ends a path on small =
      let (s, built, mmio, bus, pc, regs, runs, limit, held, held') =
        setup-returns a.flags world.cemu_bytes world.rtl_bytes (world.read_file path) world.cold
          1500 true (check world.wires) a.sim_time world.top in
      rw built (
        subst (λ (t : ℕ). Ensures (HasEnded design) (rounds design a.flags t s)) limit
          (rounds-traced design a.flags s on (rw limit small)).0)

  make_cpu_trace-ends :
      (a : Args) (path : String)
      → a.flags.trace_on ≡ true
      → a.sim_time < 2 ^ 63
      → Ensures (HasEnded design) (make_cpu_trace a.sim_time a path)
  unfolding make_cpu_trace
  make_cpu_trace-ends a path on small =
      let (s, built, mmio, bus, pc, regs, runs, limit, held, held') =
        setup-returns a.flags world.cemu_bytes world.rtl_bytes (world.read_file path) world.cold 10
          world.opens (check world.wires) a.sim_time world.top in
      rw built (
        Ensures->>= (HasEnded design) (HasEnded design) (trace_rounds design a.flags a.sim_time s) _
          (subst (λ (t : ℕ). Ensures (HasEnded design) (trace_rounds design a.flags t s)) limit
            (rounds-traced design a.flags s on (rw limit small)).1)
          (λ s' ended.
            Ensures-if (HasEnded design) (not (goes_on design s') && not s'.trace_file) faults
              (ok s') tt ended))

  ends-chosen :
      (a : Args) (mode : RunMode) (path : String)
      → a.flags.trace_on ≡ true
      → a.sim_time < 2 ^ 63
      → Ensures (HasEnded design) (run_mode a.sim_time a mode path)
  unfolding run_mode
  ends-chosen a nop path on small = tt
  ends-chosen a riscv_test path on small = riscv_test_run-ends a path on small
  ends-chosen a cpu_trace path on small = make_cpu_trace-ends a path on small

  -- With `-trace` and a limit that is a positive `long` each run that is not ended by the emulator or by
  -- undefined behaviour ends within as many rounds as the limit says, in both modes.
  pub main-ends :
      (args : List String)
      → (parse nothing args defaults).flags.trace_on ≡ true
      → (parse nothing args defaults).sim_time < 2 ^ 63
      → Ensures (HasEnded design) (main (parse nothing args defaults).sim_time args)
  unfolding main
  main-ends args on small =
      Ensures->>= (λ (m : RunMode × String). Unit {0}) (HasEnded design)
        (chosen (parse nothing args defaults)) _ (anything (chosen (parse nothing args defaults)))
        (λ m u. ends-chosen (parse nothing args defaults) m.0 m.1 on small)
