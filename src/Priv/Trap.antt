-- ===== src/Priv/Trap.antt =====
-- Traps, interrupts and returns of `rv_priv` in difftest/src/rv_priv.hpp.
-- `1 << cause` is read as a 64-bit shift: the causes in use are below 31.
use hdu_riscv_lab.Prelude.{
  ℕ, ◌+◌, ◌*◌, Bool, true, false, not, ◌&&◌, ◌||◌, ltb, ◌==◌, if◌then◌else◌, Option, none, some,
  Outcome, ok, assert, bit_and,
}
use hdu_riscv_lab.Word.{u64, add64, not64, has_bit}
use hdu_riscv_lab.Csr.{
  u_mode, s_mode, m_mode, nonzero, int_s_sw, int_m_sw, int_s_timer, int_m_timer, int_s_ext,
  int_m_ext, exc_breakpoint, exc_instr_pgfault, exc_custom_ok, blank0, sie, set_sie, blank1, mie,
  set_mie, blank2, spie, set_spie, mpie, set_mpie, spp, set_spp, mpp, set_mpp, set_mprv, tvm, tsr,
  blank3, blank4, cause_word, tvec_mode, tvec_base, set_m_s_ip, set_m_t_ip, set_s_e_ip, set_m_e_ip,
}
use hdu_riscv_lab.Sv39
use hdu_riscv_lab.Priv.{Priv}

-- The last argument of `difftest_preexec` is not used.
unfoldable pub difftest_preexec : Priv → ℕ → ℕ → ℕ → Priv
difftest_preexec p pua_mcycle pua_minstret pua_mip = record p {
  cur_need_trap = false;
  mcycle = pua_mcycle;
  minstret = pua_minstret;
  ip = pua_mip;
  cur_priv = p.next_priv;
}

abbrev pub delegated : Priv → ℕ → ℕ → Bool
delegated p cause interrupt =
    not (p.cur_priv == m_mode)
    && (if nonzero interrupt then has_bit p.mideleg cause else has_bit p.medeleg cause)

abbrev pub s_trap_status : ℕ → ℕ → ℕ
s_trap_status mode status = set_spp mode (set_sie 0 (set_spie (sie status) status))

abbrev pub m_trap_status : ℕ → ℕ → ℕ
m_trap_status mode status = set_mpp mode (set_mie 0 (set_mpie (mie status) status))

-- The state that a trap at `cur_pc` leads to.
unfoldable pub trapped : Priv → ℕ → ℕ → ℕ → ℕ → Priv
trapped p cur_pc cause interrupt tval =
    if delegated p cause interrupt
    then record p {
      cur_need_trap = true;
      stval = tval;
      scause = cause_word cause interrupt;
      sepc = cur_pc;
      status = s_trap_status p.cur_priv p.status;
      trap_pc =
          add64 (tvec_base p.stvec * 4) (if tvec_mode p.stvec == 1 then u64 (cause * 4) else 0);
      next_priv = s_mode;
    }
    else record p {
      cur_need_trap = true;
      mtval = tval;
      mcause = cause_word cause interrupt;
      mepc = cur_pc;
      status = m_trap_status p.cur_priv p.status;
      trap_pc =
          add64 (tvec_base p.mtvec * 4)
            (if nonzero (tvec_mode p.mtvec) then u64 (cause * 4) else 0);
      next_priv = m_mode;
    }

-- A page fault of the handler's own first instruction fails the last assertion.
unfoldable pub raise_trap : Priv → ℕ → ℕ → ℕ → ℕ → Outcome Priv
raise_trap p cur_pc cause interrupt tval =
    let p' = trapped p cur_pc cause interrupt tval in
    assert (not p.cur_need_trap)
      (assert (not ((cause == exc_instr_pgfault) && (tval == p'.trap_pc))) (ok p'))

unfoldable pub int2index : ℕ → ℕ
int2index int_mask =
    if has_bit int_mask int_m_ext
    then int_m_ext
    else if has_bit int_mask int_m_sw
    then int_m_sw
    else if has_bit int_mask int_m_timer
    then int_m_timer
    else if has_bit int_mask int_s_ext
    then int_s_ext
    else if has_bit int_mask int_s_sw
    then int_s_sw
    else if has_bit int_mask int_s_timer
    then int_s_timer
    else exc_custom_ok

-- `final_int_index`: the interrupt to take, `exc_custom_ok` for none.
unfoldable pub final_int_index : Priv → ℕ
final_int_index p =
    let int_bits = bit_and p.ip p.ie in
    let mmode_int_bits = bit_and int_bits (not64 p.mideleg) in
    let int_index = int2index int_bits in
    if p.cur_priv == m_mode
    then (if nonzero mmode_int_bits && nonzero (mie p.status)
        then int2index mmode_int_bits
        else exc_custom_ok)
    else if has_bit p.mideleg int_index
    then (if nonzero (sie p.status) || ltb p.cur_priv s_mode then int_index else exc_custom_ok)
    else (if nonzero (mie p.status) || ltb p.cur_priv m_mode then int_index else exc_custom_ok)

unfoldable pub check_and_raise_int : Priv → ℕ → Outcome Priv
check_and_raise_int p cur_pc =
    if not (final_int_index p == exc_custom_ok)
    then raise_trap p cur_pc (final_int_index p) 1 0
    else ok p

abbrev pub of_bool : Bool → ℕ
of_bool b = if b then 1 else 0

abbrev pub set_lines : Bool → Bool → Bool → Bool → ℕ → ℕ
set_lines meip msip mtip seip ip =
    set_s_e_ip (of_bool seip)
      (set_m_t_ip (of_bool mtip) (set_m_s_ip (of_bool msip) (set_m_e_ip (of_bool meip) ip)))

-- The state in which the next instruction begins, before an interrupt is taken.
abbrev pub with_lines : Priv → Bool → Bool → Bool → Bool → Priv
with_lines p meip msip mtip seip = record p {
  mcycle = u64 (p.mcycle + 1);
  ip = set_lines meip msip mtip seip p.ip;
  cur_need_trap = false;
  cur_priv = p.next_priv;
}

unfoldable pub pre_exec : Priv → ℕ → Bool → Bool → Bool → Bool → Outcome Priv
pre_exec p cur_pc meip msip mtip seip =
    check_and_raise_int (with_lines p meip msip mtip seip) cur_pc

abbrev pub blanks_zero : ℕ → Bool
blanks_zero status =
    (blank0 status == 0)
    && (blank1 status == 0)
    && (blank2 status == 0)
    && (blank3 status == 0)
    && (blank4 status == 0)

abbrev pub retired : Priv → Priv
retired p = record p {
  minstret = if p.cur_need_trap then p.minstret else u64 (p.minstret + 1);
  cur_need_trap = false;
}

unfoldable pub post_exec : Priv → Outcome Priv
post_exec p = assert (blanks_zero p.status) (ok (retired p))

unfoldable pub ecall : Priv → ℕ → Outcome Priv
ecall p cur_pc = raise_trap p cur_pc (p.cur_priv + 8) 0 0

unfoldable pub ebreak : Priv → ℕ → Outcome Priv
ebreak p cur_pc = raise_trap p cur_pc exc_breakpoint 0 0

-- mstatus after the return: `mprv` is dropped on the way to a lower mode.
abbrev pub mret_status : ℕ → ℕ
mret_status status =
    let s = set_mpie 1 (set_mie (mpie status) status) in
    set_mpp u_mode (if mpp s == m_mode then s else set_mprv 0 s)

abbrev pub sret_status : ℕ → ℕ
sret_status status =
    let s = set_spie 1 (set_sie (spie status) status) in
    set_spp u_mode (if spp s == m_mode then s else set_mprv 0 s)

-- The states after the returns.
abbrev pub m_returned : Priv → Priv
m_returned p = record p {
  status = mret_status p.status;
  next_priv = mpp p.status;
  cur_need_trap = true;
  trap_pc = p.mepc;
}

abbrev pub s_returned : Priv → Priv
s_returned p = record p {
  status = sret_status p.status;
  next_priv = spp p.status;
  cur_need_trap = true;
  trap_pc = p.sepc;
}

-- `none` is the result `false`.
unfoldable pub mret : Priv → Option Priv
mret p = if not (p.cur_priv == m_mode) then none else some (m_returned p)

unfoldable pub sret : Priv → Option Priv
sret p = if ltb p.cur_priv s_mode || nonzero (tsr p.status) then none else some (s_returned p)

unfoldable pub sfence_vma : Priv → ℕ → ℕ → Option Priv
sfence_vma p vaddr asid =
    if ltb p.cur_priv s_mode || ((p.cur_priv == s_mode) && nonzero (tvm p.status))
    then none
    else some (record p { sv39 = Sv39.sfence_vma p.sv39 vaddr asid })
