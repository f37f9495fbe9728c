-- ===== src/Core.antt =====
-- `rv_core` of difftest/src/rv_core.hpp: the state, the registers, and the access to memory.
-- A GPR is the bit pattern of its int64_t. The queues `trace` and `inst_trace`, which are only printed,
-- are left out.
pub mod Control
pub mod Compute
pub mod Access
pub mod System
pub mod Decoded
pub mod Words
pub mod RoundTrip
pub mod Rvc
pub mod Exec
pub mod Typed
pub mod Registers
pub mod Memory
pub mod Operations
pub mod Preservation
pub mod Privileged
pub mod Cycle
pub mod Shifts
pub mod Examples
use hdu_riscv_lab.Prelude.{
  ℕ, ◌%◌, Bool, true, false, not, ltb, ◌==◌, if◌then◌else◌, List, set, get_or, Option, none, some,
  Outcome, ok, ◌>>=◌, assert,
}
use hdu_riscv_lab.Bus.{Bus}
use hdu_riscv_lab.Csr.{exc_load_misalign, exc_store_misalign, exc_custom_ok}
use hdu_riscv_lab.Priv.{Priv}
use hdu_riscv_lab.Priv.Trap.{raise_trap}
use hdu_riscv_lab.Priv.Access.{va_read, va_write}

pub record Core : Type 0 where
  pub pc : ℕ
  pub gpr : List ℕ
  pub priv : Priv
  pub bus : Bus
  pub debug_pc : ℕ
  pub debug_reg_num : ℕ
  pub debug_reg_wdata : ℕ
  pub debug_inst : ℕ
  pub debug_is_branch : Bool
  pub int_allow : Bool
  pub difftest_mode : Bool

-- A part of `exec`, with the values of its variables `ri` and `new_pc` afterwards.
pub record Done : Type 0 where
  pub core : Core
  pub ri : Bool
  pub new_pc : Bool

abbrev pub executed : Core → Done
executed c = record { core = c; ri = false; new_pc = false }

abbrev pub illegal : Core → Done
illegal c = record { core = c; ri = true; new_pc = false }

abbrev pub reg : Core → ℕ → ℕ
reg c i = get_or c.gpr i 0

unfoldable pub set_gpr : Core → ℕ → ℕ → Outcome Core
set_gpr c i value = assert (ltb i 32) (
    ok (record c {
      gpr = if i == 0 then c.gpr else set c.gpr i value;
      debug_reg_num = i;
      debug_reg_wdata = value;
    }))

-- `set_GPR` as the last thing that an instruction does.
abbrev pub writes : Core → ℕ → ℕ → Outcome Done
writes c i value = set_gpr c i value >>= λ c'. ok (executed c')

-- `priv.raise_trap` of an exception.
unfoldable pub trap : Core → ℕ → ℕ → Outcome Core
trap c cause tval = raise_trap c.priv c.pc cause 0 tval >>= λ p. ok (record c { priv = p })

-- `none` is the result `false`, after a trap.
unfoldable pub mem_read : Core → ℕ → ℕ → Outcome (Core × Option (List ℕ))
mem_read c start_addr size =
    if not (start_addr % size == 0)
    then (trap c exc_load_misalign start_addr >>= λ c'. ok (c', none))
    else (va_read c.priv c.bus start_addr size >>= λ (p, va_err, buffer).
        let c' = record c { priv = p } in
        if va_err == exc_custom_ok
        then ok (c', some buffer)
        else (trap c' va_err start_addr >>= λ c''. ok (c'', none)))

unfoldable pub mem_write : Bool → Core → ℕ → ℕ → List ℕ → Outcome Core
mem_write run_riscv_test c start_addr size buffer =
    if not (start_addr % size == 0)
    then trap c exc_store_misalign start_addr
    else (va_write run_riscv_test c.priv c.bus start_addr size buffer >>= λ (p, b, va_err).
        let c' = record c { priv = p; bus = b } in
        if va_err == exc_custom_ok then ok c' else trap c' va_err start_addr)
