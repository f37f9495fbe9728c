-- ===== src/Sim/Start.antt =====
-- What the setup of difftest/src/sim_mycpu.cpp leads to.
use hdu_riscv_lab.Prelude.{
  ℕ, zero, suc, ◌+◌, ◌<◌, ◌≡◌, inl, inr, refl, ◌∙◌, arith, Bool, true, false, ◌&&◌, ltb, leb, ◌==◌,
  if◌then◌else◌, List, [], ◌∷◌, length, get_or, get_or-set_self, get_or-set_ne, replicate,
  length-set, set, either, ok, take, length-take, Bool-cases, some,
}
use hdu_riscv_lab.Bytes.{store}
use hdu_riscv_lab.Mem.{mem_of_file, new_mem}
use hdu_riscv_lab.Bus.{Bus}
use hdu_riscv_lab.Bus
use hdu_riscv_lab.Core.{Core, reg, set_gpr}
use hdu_riscv_lab.Core.Exec.{jump}
use hdu_riscv_lab.Sram.Xbar.{add_dev}
use hdu_riscv_lab.Sram.Memory.{with_memory}
use hdu_riscv_lab.Sim.Setup.{
  new_core, fill_gprs, emulator, setup, ram, ram_size, fresh_bus, fresh_xbar,
}
use hdu_riscv_lab.Sram.{blank}
use hdu_riscv_lab.Sram.Xbar
use hdu_riscv_lab.Sim.{print_pc_cycle, Flags, Top, Sim}
use hdu_riscv_lab.Sim.Options.{plain}

fill_one :
    (gpr : List ℕ) (i j : ℕ)
    → i < length gpr
    → get_or gpr 0 0 ≡ 0
    → get_or (if i == 0 then gpr else set gpr i i) j 0 ≡ (if j == i then i else get_or gpr j 0)
fill_one gpr i j small zeroed = elim (Bool-cases (i == 0)) [
  | inl first ↦
      let e : i ≡ 0 = ground arith in
      rw (first, e)
        (elim (Bool-cases (j == 0)) [
          | inl same ↦ (let f : j ≡ 0 = ground arith in rw (same, f) zeroed)
          | inr other ↦ rw other refl
        ])
  | inr later ↦ rw later (elim (Bool-cases (j == i)) [
    | inl same ↦ (let f : j ≡ i = ground arith in rw (same, f) (get_or-set_self gpr i i 0 small))
    | inr other ↦ rw other (get_or-set_ne gpr {i = i} {j = j} i 0 (λ z. ground arith))
  ])
]

one_more :
    (i j x y : ℕ)
    → i < 32
    → x ≡ (if j == i then i else y)
    → (if leb (suc i) j && ltb j 32 then j else x) ≡ (if leb i j && ltb j 32 then j else y)
one_more i j x y small e = ground arith

from_zero : (j x : ℕ) → x ≡ 0 → (if leb 0 j && ltb j 32 then j else x) ≡ (if ltb j 32 then j else 0)
from_zero j x e = ground arith

-- The loop that gives each register its number.
fill_gprs-reg :
    (n i : ℕ) (c : Core)
    → i + n ≡ 32
    → length c.gpr ≡ 32
    → reg c 0 ≡ 0
    → (c' : Core) × (fill_gprs n i c ≡ ok c')
      × (c'.pc ≡ c.pc)
      × (c'.bus ≡ c.bus)
      × ((j : ℕ) → reg c' j ≡ (if leb i j && ltb j 32 then j else reg c j))
unfolding fill_gprs set_gpr
fill_gprs-reg zero i c e size zeroed = (c, refl, refl, refl, λ j. ground arith)
fill_gprs-reg (suc n) i c e size zeroed =
    let inside : ltb i 32 ≡ true = ground arith in
    let gpr = if i == 0 then c.gpr else set c.gpr i i in
    let written : (j : ℕ) → get_or gpr j 0 ≡ (if j == i then i else reg c j) =
      λ j. fill_one c.gpr i j (omega arith) zeroed in
    let size' : length gpr ≡ 32 =
      either (λ (t : List ℕ). length t ≡ 32) (i == 0) _ _ size (length-set c.gpr i i ∙ size) in
    let c1 = record c { gpr = gpr; debug_reg_num = i; debug_reg_wdata = i } in
    let (c', filled, p, b, regs) =
      fill_gprs-reg n (suc i) c1 (omega arith) size' (written 0 ∙ ground arith) in
    (c', rw inside filled, p, b, λ j. regs j ∙ one_more i j _ _ (omega arith) (written j))

abbrev pub ram_entry : Bus.Entry
ram_entry = record { lo = 0x80000000; hi = 0x100000000; dev = 0; raw_addr = false }

get_or-replicate : (n j : ℕ) → get_or {A = ℕ} (replicate n 0) j 0 ≡ 0
get_or-replicate zero j = refl
get_or-replicate (suc n) zero = refl
get_or-replicate (suc n) (suc j) = get_or-replicate n j

get_or-take : (n : ℕ) (bs : List ℕ) (i : ℕ) → i < n → get_or (take n bs) i 0 ≡ get_or bs i 0
get_or-take zero bs i h = absurd (omega arith)
get_or-take (suc n) [] i h = refl
get_or-take (suc n) (b ∷ bs) zero h = refl
get_or-take (suc n) (b ∷ bs) (suc i) h = get_or-take n bs i (omega arith)

ram-mem :
    (new_bytes : ℕ → ℕ) (file : List ℕ) (i : ℕ)
    → (ram new_bytes file).mem i
      ≡ (if ltb i ram_size && ltb i (length file) then get_or file i 0 else new_bytes i)
unfolding mem_of_file new_mem
ram-mem new_bytes file i = stored ram_size
  where
    stored :
        (size : ℕ)
        → store new_bytes 0 (take (if ltb size (length file) then size else length file) file) i
          ≡ (if ltb i size && ltb i (length file) then get_or file i 0 else new_bytes i)
    stored size =
        let n = if ltb size (length file) then size else length file in
        let long : length (take n file) ≡ n = ground (arith, length-take n file) in
        ground (arith, long, get_or-take n file i)

module _ (flags : Flags) (cemu_bytes rtl_bytes : ℕ → ℕ) (file : List ℕ) (cold : Core) where
  emulator-reg :
      (bus : Bus)
      → (c : Core) × (emulator flags cemu_bytes rtl_bytes file cold bus ≡ ok c)
        × (c.pc ≡ 0x80000000)
        × (c.bus ≡ bus)
        × ((j : ℕ) → reg c j ≡ (if flags.init_gprs && ltb j 32 then j else 0))
  unfolding emulator new_core jump
  emulator-reg bus =
      let c0 = jump (new_core flags.run_riscv_test flags.only_mode_m cold bus) 0x80000000 in
      elim (Bool-cases flags.init_gprs) [
        | inl numbered ↦
            let (c, filled, p, b, regs) = fill_gprs-reg 32 0 c0 refl refl refl in
            (
              c,
              rw numbered filled,
              p,
              b,
              λ j. regs j ∙ rw numbered (from_zero j _ (get_or-replicate 32 j)),
            )
        | inr plain ↦ (c0, rw plain refl, refl, refl, λ j. get_or-replicate 32 j ∙ rw plain refl)
      ]

  bus_built :
      Bus.add_dev (fresh_bus flags cemu_bytes rtl_bytes file cold) 0x80000000 0x80000000 0 false
      ≡ ok (
          some
            (record (fresh_bus flags cemu_bytes rtl_bytes file cold) { devices = ram_entry ∷ [] }))
  unfolding Bus.add_dev Bus.upper_bound Bus.prev_upper_bound Bus.insert
  bus_built = refl

  xbar_built :
      add_dev (fresh_xbar flags cemu_bytes rtl_bytes file cold) 0x80000000 0x80000000 0 false
      ≡ ok (some (with_memory (ram rtl_bytes file)))
  unfolding add_dev Xbar.upper_bound Xbar.prev_upper_bound Xbar.insert
  xbar_built = refl

  -- The setup of both loops always returns: the emulator is at the start of the memory, which is the
  -- only range of its bus, its registers are 0 or, with `-initgprs`, their own numbers; the processor's
  -- crossbar has another memory at the same addresses, and no assertion stops the run. What fits of the
  -- file stands at the begin of both memories; behind it each has the bytes of its own new array.
  pub setup-returns :
      {T : Type 0} (delay : ℕ) (trace_file running : Bool) (sim_time : ℕ) (top : Top T)
      → (s : Sim T) × (setup flags cemu_bytes rtl_bytes file cold delay trace_file running sim_time
            top
          ≡ ok s)
        × (s.mmio ≡ with_memory (ram rtl_bytes file))
        × (s.core.bus
            ≡ record (fresh_bus flags cemu_bytes rtl_bytes file cold) { devices = ram_entry ∷ [] })
        × (s.core.pc ≡ 0x80000000)
        × ((j : ℕ) → reg s.core j ≡ (if flags.init_gprs && ltb j 32 then j else 0))
        × (s.running ≡ running)
        × (s.sim_time ≡ sim_time)
        × ((i : ℕ)
            → (ram cemu_bytes file).mem i
              ≡ (if ltb i ram_size && ltb i (length file) then get_or file i 0 else cemu_bytes i))
        × ((i : ℕ)
            → (ram rtl_bytes file).mem i
              ≡ (if ltb i ram_size && ltb i (length file) then get_or file i 0 else rtl_bytes i))
  unfolding setup
  setup-returns delay trace_file running sim_time top =
      let bus = record (fresh_bus flags cemu_bytes rtl_bytes file cold) {
        devices = ram_entry ∷ [];
      } in
      let (c, built, p, b, regs) = emulator-reg bus in
      (
        record {
          top = top;
          core = c;
          mmio_sigs = blank;
          mmio = with_memory (ram rtl_bytes file);
          rst_ticks = 10;
          ticks = 0;
          last_commit = 0;
          pc_cnt = print_pc_cycle;
          delayslot_cnt = 0;
          delayslot_flag = true;
          delay = delay;
          sim_time = sim_time;
          running = running;
          total_cycle = 0;
          total_instr = 0;
          trace_file = trace_file;
          log = [];
        },
        rw (setup, bus_built, built, xbar_built) refl,
        refl,
        b,
        p,
        regs,
        refl,
        refl,
        ram-mem cemu_bytes file,
        ram-mem rtl_bytes file,
      )
