-- ===== src/Sim/Options.antt =====
-- The arguments of `main` in difftest/src/sim_mycpu.cpp.
use Prim.Native.String.{String, [], ◌∷◌}
use Prim.Native.Char.{code}
use text.Mathlib.Text.{◌==◌ as equal}
use hdu_riscv_lab.Prelude.{
  ℕ, ◌+◌, ◌-◌, ◌*◌, ◌%◌, ◌^◌, Bool, true, false, ◌&&◌, ◌||◌, leb, ◌==◌, if◌then◌else◌, List, Option,
  none, some, Outcome, ok, faults,
}
use hdu_riscv_lab.Sim.{Flags}

pub data RunMode : Type 0 where
  nop riscv_test cpu_trace : RunMode

-- The globals, and the variables of `main`; a path that was not given is uninitialized.
pub record Args : Type 0 where
  pub flags : Flags
  pub sim_time : ℕ
  pub file_load_path : Option String
  pub run_mode : RunMode

abbrev pub defaults : Args
defaults = record {
  flags = record {
    run_riscv_test = false;
    dump_pc_history = false;
    print_pc = false;
    should_delay = false;
    dual_issue = false;
    perf_counter = false;
    init_gprs = false;
    write_append = false;
    has_delayslot = false;
    only_mode_m = false;
    trace_start_time = 0;
    trace_on = false;
  };
  sim_time = 100000000;
  file_load_path = none;
  run_mode = riscv_test;
}

-- `sscanf` with `%lu`: white space, a sign, and digits; `none` if there is no digit.
abbrev is_digit : ℕ → Bool
is_digit c = leb 48 c && leb c 57

abbrev pub digits : String → ℕ → ℕ
digits [] n = n
digits (c ∷ cs) n =
    let rest = digits cs (n * 10 + (code c - 48)) in if is_digit (code c) then rest else n

abbrev pub unsigned : String → Option ℕ
unsigned [] = none
unsigned (c ∷ cs) = if is_digit (code c) then some (digits (c ∷ cs) 0) else none

-- A number that is too large gives the largest; a minus sign negates modulo 2 ^ 64.
abbrev pub clamped : Bool → Option ℕ → Option ℕ
clamped minus none = none
clamped minus (some n) =
    some (if leb (2 ^ 64) n then 2 ^ 64 - 1 else if minus then (2 ^ 64 - n) % 2 ^ 64 else n)

abbrev pub scan_lu : String → Option ℕ
scan_lu [] = none
scan_lu (c ∷ cs) =
    let rest = scan_lu cs in
    if (leb 9 (code c) && leb (code c) 13) || code c == 32
    then rest
    else if code c == 43
    then clamped false (unsigned cs)
    else if code c == 45
    then clamped true (unsigned cs)
    else clamped false (unsigned (c ∷ cs))

-- The option whose value is the next argument, if there is one.
pub data Pending : Type 0 where
  sim_time_next start_time_next nothing : Pending

abbrev pub scanned : Option ℕ → ℕ → ℕ
scanned none old = old
scanned (some n) old = n

unfoldable pub value : Pending → String → Args → Args
value sim_time_next arg a = record a { sim_time = scanned (scan_lu arg) a.sim_time }
value start_time_next arg a = record a {
  flags = record a.flags { trace_start_time = scanned (scan_lu arg) a.flags.trace_start_time };
}
value nothing arg a = a

-- An argument on its own: an option, or the path.
unfoldable pub plain : String → Args → Args
plain arg a =
    if equal arg "-rvtest"
    then record a { flags = record a.flags { run_riscv_test = true }; run_mode = riscv_test }
    else if equal arg "-perf"
    then record a { flags = record a.flags { perf_counter = true } }
    else if equal arg "-pc"
    then record a { flags = record a.flags { dump_pc_history = true } }
    else if equal arg "-printpc"
    then record a { flags = record a.flags { print_pc = true } }
    else if equal arg "-delay"
    then record a { flags = record a.flags { should_delay = true } }
    else if equal arg "-cpu_trace"
    then record a { run_mode = cpu_trace }
    else if equal arg "-initgprs"
    then record a { flags = record a.flags { init_gprs = true } }
    else if equal arg "-writeappend"
    then record a { flags = record a.flags { write_append = true } }
    else if equal arg "-hasdelayslot"
    then record a { flags = record a.flags { has_delayslot = true } }
    else if equal arg "-onlymodem"
    then record a { flags = record a.flags { only_mode_m = true } }
    else record a { file_load_path = some arg }

-- One argument, and the option that waits for the next.
unfoldable pub option : String → Args → Args × Pending
option arg a =
    if equal arg "-trace"
    then (record a { flags = record a.flags { trace_on = true } }, sim_time_next)
    else if equal arg "-starttrace"
    then (a, start_time_next)
    else (plain arg a, nothing)

-- The loop over the arguments.
unfoldable pub parse : Pending → List String → Args → Args
parse waits List.[] a = a
parse sim_time_next (List.◌∷◌ arg rest) a = parse nothing rest (value sim_time_next arg a)
parse start_time_next (List.◌∷◌ arg rest) a = parse nothing rest (value start_time_next arg a)
parse nothing (List.◌∷◌ arg rest) a = let (a', waits) = option arg a in parse waits rest a'

-- What is run, on which file; a path that was not given is read all the same.
unfoldable pub chosen : Args → Outcome (RunMode × String)
chosen a = elim a.file_load_path [ none ↦ faults | some path ↦ ok (a.run_mode, path) ]
