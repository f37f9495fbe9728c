-- ===== src/Priv/Examples.antt =====
-- Runs of `rv_priv` (difftest/src/rv_priv.hpp) on concrete states.
use hdu_riscv_lab.Prelude.{ℕ, ◌≢◌, ◌≡◌, ◌≤◌, ◌↔◌, refl, inl, arith, true, false, [], some, ok}
use hdu_riscv_lab.Bus.{Bus}
use hdu_riscv_lab.Csr.{csr_cycle, u_mode, csr_mie, csr_mtvec, csr_mscratch, mie, mpp}
use hdu_riscv_lab.Sv39.{Sv39}
use hdu_riscv_lab.Priv.{Priv, reset, csr_read, csr_write}
use hdu_riscv_lab.Priv.Trap.{
  raise_trap, trapped, mret, pre_exec, post_exec, check_and_raise_int, with_lines, retired,
  final_int_index, int2index,
}
use hdu_riscv_lab.Priv.Invariant.{IsWf}
use hdu_riscv_lab.Priv.Reachable.{Reachable, starts, steps, traps, csr_writes, Reachable-IsWf}
use hdu_riscv_lab.Priv.Return.{Handles, done, begins, ends, writes, raise_trap-mret}
use hdu_riscv_lab.Priv.Registers.{csr_read-csr_write_both}
use hdu_riscv_lab.Priv.Priority.{Source, m_timer, code, rank}
use hdu_riscv_lab.Priv.Interrupts.{final_int_index_iff, IsActive, takes_interrupts}

abbrev no_tlb : Sv39
no_tlb = record { random = 0; tlb = [] }

abbrev powered_on : Priv
powered_on = record {
  cur_priv = 0;
  hart_id = 0;
  cur_need_trap = true;
  trap_pc = 7;
  next_priv = 1;
  sv39 = no_tlb;
  status = 99;
  misa = 0;
  medeleg = 5;
  mideleg = 5;
  ie = 5;
  mtvec = 5;
  mscratch = 5;
  mepc = 5;
  mcause = 5;
  mtval = 5;
  mcounteren = 5;
  ip = 5;
  mcycle = 5;
  minstret = 5;
  stvec = 5;
  sscratch = 5;
  sepc = 5;
  scause = 5;
  stval = 5;
  satp = 5;
  scounteren = 5;
}

abbrev started : Priv
started = reset true false powered_on

-- mtvec in vectored mode.
abbrev vectored : Priv
vectored = record started { mtvec = 0x80000101 }

vectored-Reachable : Reachable true false vectored
unfolding csr_write reset
vectored-Reachable = steps (starts powered_on) (csr_writes csr_mtvec 0x80000101 refl)

-- An `ecall` in machine mode, at 0x80000010.
abbrev called : Priv
called = trapped vectored 0x80000010 11 0 0

called_step : raise_trap vectored 0x80000010 11 0 0 ≡ ok called
unfolding raise_trap trapped reset
called_step = refl

called-Reachable : Reachable true false called
called-Reachable = steps vectored-Reachable (traps 0x80000010 11 0 0 called_step)

vectored-IsWf : IsWf vectored
vectored-IsWf = Reachable-IsWf true false vectored-Reachable

Reachable-IsWf_example : IsWf called
Reachable-IsWf_example = Reachable-IsWf true false called-Reachable

abbrev no_devices : Bus
no_devices = record {
  lr_pa = 0;
  lr_size = 0;
  lr_hart = 0;
  lr_valid = false;
  devices = [];
  heap = [];
}

-- The handler begins with the timer's line up, writes mscratch and the cause, and ends its instruction.
abbrev handling : Priv
handling = with_lines (retired called) false false true false

abbrev saved_context : Priv
saved_context = record handling { mscratch = 42 }

abbrev handled : Priv
handled = retired saved_context

call_ends : post_exec called ≡ ok (retired called)
unfolding post_exec trapped reset
call_ends = refl

handler_begins : pre_exec (retired called) 0x8000012c false false true false ≡ ok handling
unfolding pre_exec check_and_raise_int final_int_index int2index trapped reset
handler_begins = refl

handler_writes : csr_write true false handling csr_mscratch 42 ≡ ok (some saved_context)
unfolding csr_write
handler_writes = refl

handler_ends : post_exec saved_context ≡ ok handled
unfolding post_exec trapped reset
handler_ends = refl

called-Handles : Handles true false called handled
called-Handles = ends call_ends (
    begins 0x8000012c false false true false handler_begins
      (writes csr_mscratch 42 refl refl handler_writes (ends handler_ends done)))

raise_trap-mret_example :
    (r : Priv) × (q : Priv) × (pre_exec handled 0x80000130 false false true false ≡ ok r)
    × (mret r ≡ some q)
    × (q.next_priv ≡ vectored.cur_priv)
    × (q.trap_pc ≡ 0x80000010)
    × (mie q.status ≡ mie vectored.status)
    × (mpp q.status ≡ u_mode)
raise_trap-mret_example =
    raise_trap-mret true false vectored called handled 0x80000010 11 0 0 0x80000130 false false true
      false vectored-IsWf called_step called-Handles

abbrev all_enabled : Priv
all_enabled = record started { ie = 0xaaa }

all_enabled_step : csr_write true false started csr_mie 0xffff ≡ ok (some all_enabled)
unfolding csr_write reset
all_enabled_step = refl

-- The timer and an external interrupt of the supervisor are pending, in user mode.
abbrev interrupted : Priv
interrupted = record all_enabled { ip = 0x280; cur_priv = 0; next_priv = 0 }

interrupted-IsWf : IsWf interrupted
unfolding reset
interrupted-IsWf = record {
  plain_cur = inl refl;
  plain_next = inl refl;
  legal = (refl, refl, refl, refl, refl, refl, inl refl);
  no_medeleg = refl;
  no_mideleg = refl;
  no_satp = refl;
}

final_int_index_iff_example : (final_int_index interrupted ≡ code m_timer) ↔ (
    (takes_interrupts interrupted ≡ true)
    × IsActive interrupted m_timer
    × ((d : Source) → IsActive interrupted d → rank (code m_timer) ≤ rank (code d)))
final_int_index_iff_example = final_int_index_iff interrupted m_timer interrupted-IsWf

interrupted_timer : final_int_index interrupted ≡ 7
unfolding final_int_index int2index reset
interrupted_timer = refl

csr_read-csr_write_both_example :
    (csr_read all_enabled csr_mie ≡ some 0xaaa)
    × ((j : ℕ) → j ≢ csr_mie → j ≢ csr_cycle → csr_read all_enabled j ≡ csr_read started j)
unfolding reset
csr_read-csr_write_both_example =
    csr_read-csr_write_both true false started all_enabled csr_mie 0xffff (omega arith)
      all_enabled_step
