-- ===== src/Core/Examples.antt =====
-- A cycle of a core with a memory, and the theorems about the core on it.
use hdu_riscv_lab.Prelude.{ℕ, inr, arith, ◌≡◌, refl, true, false, [], ◌∷◌, length, replicate, ok}
use hdu_riscv_lab.Bytes.{store, to_bytes}
use hdu_riscv_lab.Mem.{Mem}
use hdu_riscv_lab.Mem
use hdu_riscv_lab.Mem.{write_at}
use hdu_riscv_lab.Device
use hdu_riscv_lab.Device.{mem, do_read}
use hdu_riscv_lab.Alu.{alu_exec, alu_switch}
use hdu_riscv_lab.Bus.{Bus, locate, prev_upper_bound, pa_read, pa_write}
use hdu_riscv_lab.Priv.{Priv}
use hdu_riscv_lab.Priv.Trap.{pre_exec, check_and_raise_int, final_int_index, int2index, post_exec}
use hdu_riscv_lab.Priv.Access.{va_if, va_if_within}
use hdu_riscv_lab.Core.{Core, reg, set_gpr, executed, writes}
use hdu_riscv_lab.Core.RoundTrip.{store-load}
use hdu_riscv_lab.Core.Compute.{opimm, opimm_table, base_op}
use hdu_riscv_lab.Core.Exec.{exec, fetch_exec, decode_exec, exec_opcode, exception, finish_exec}
use hdu_riscv_lab.Core.Cycle.{exec-Kept}

abbrev pub zeros : ℕ → ℕ
zeros i = 0

-- `addi x1, x0, 5` at the start of the memory.
abbrev pub program : Mem
program = record {
  mem = store zeros 0 (to_bytes 4 0x00500093);
  mem_size = 0x1000;
  allow_warp = false;
  diff_mem_write = false;
  diff_mem = zeros;
  running = true;
}

abbrev pub bus : Bus
bus = record {
  lr_pa = 0;
  lr_size = 0;
  lr_hart = 0;
  lr_valid = false;
  devices = record { lo = 0x80000000; hi = 0x80001000; dev = 0; raw_addr = false } ∷ [];
  heap = mem program ∷ [];
}

abbrev pub machine : Priv
machine = record {
  cur_priv = 3;
  hart_id = 0;
  cur_need_trap = false;
  trap_pc = 0;
  next_priv = 3;
  sv39 = record { random = 0; tlb = [] };
  status = 0;
  misa = 0;
  medeleg = 0;
  mideleg = 0;
  ie = 0;
  mtvec = 0;
  mscratch = 0;
  mepc = 0;
  mcause = 0;
  mtval = 0;
  mcounteren = 0;
  ip = 0;
  mcycle = 0;
  minstret = 0;
  stvec = 0;
  sscratch = 0;
  sepc = 0;
  scause = 0;
  stval = 0;
  satp = 0;
  scounteren = 0;
}

abbrev pub core : Core
core = record {
  pc = 0x80000000;
  gpr = replicate 32 0;
  priv = machine;
  bus = bus;
  debug_pc = 0;
  debug_reg_num = 0;
  debug_reg_wdata = 0;
  debug_inst = 0;
  debug_is_branch = false;
  int_allow = false;
  difftest_mode = false;
}

abbrev pub next_core : Core
next_core = record core {
  pc = 0x80000004;
  gpr = 0 ∷ 5 ∷ replicate 30 0;
  priv = record machine { mcycle = 1; minstret = 1 };
  debug_pc = 0x80000000;
  debug_reg_num = 1;
  debug_reg_wdata = 5;
  debug_inst = 0x00500093;
}

pub cycle : exec true false core false false false false ≡ ok next_core
unfolding exec pre_exec check_and_raise_int final_int_index int2index fetch_exec va_if va_if_within
    pa_read locate prev_upper_bound do_read Mem.do_read decode_exec exec_opcode opimm opimm_table
    base_op alu_exec alu_switch set_gpr exception finish_exec post_exec
cycle = refl

exec-Kept_example : (length next_core.gpr ≡ length core.gpr) × (reg next_core 0 ≡ reg core 0)
exec-Kept_example = exec-Kept true false core next_core false false false false cycle

-- `sd x2, 8(x1)` and `ld x3, 8(x1)`, with the address in the memory.
abbrev stored : Core
stored = record core { gpr = 0 ∷ 0x80000100 ∷ 77 ∷ replicate 29 0 }

abbrev bus_after : Bus
bus_after = record bus {
  heap = mem record program { mem = store program.mem 0x108 (to_bytes 8 77) } ∷ [];
}

accepted : pa_write bus 0x80000108 8 (to_bytes 8 77) ≡ ok (bus_after, true)
unfolding pa_write locate prev_upper_bound Device.do_write Mem.do_write write_at
accepted = refl

store-load_example :
    (exec_opcode false false stored 0x0020b423 ≡ ok (executed (record stored { bus = bus_after })))
    × (exec_opcode false false (record stored { bus = bus_after }) 0x0080b183
        ≡ writes (record stored { bus = bus_after }) 3 77)
unfolding locate prev_upper_bound
store-load_example =
    store-load false false stored bus_after
      record { lo = 0x80000000; hi = 0x80001000; dev = 0; raw_addr = false } program 3 1 2 8 3 1 8
      (inr refl) (omega arith) (omega arith) (omega arith) (omega arith) (omega arith) (omega arith)
      refl (omega arith) refl refl refl refl refl accepted
