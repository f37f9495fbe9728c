-- ===== src/Core/RoundTrip.antt =====
-- A store and a load of the same bytes in difftest/src/rv_core.hpp, from the register to the memory of
-- the bus and back.
use hdu_riscv_lab.Prelude.{
  ℕ, ◌+◌, ◌*◌, ◌%◌, ◌^◌, ◌<◌, ◌≤◌, ◌≡◌, ◌-◌, ltb, refl, ap, ◌∙◌, arith, ◌⊎◌, inl, inr, Bool, true,
  false, ◌==◌, List, get_elem?, length, take, some, ok, if◌then◌else◌,
}
use hdu_riscv_lab.Word.{add64, sext}
use hdu_riscv_lab.Bytes.{to_bytes, of_bytes}
use hdu_riscv_lab.Bytes.Laws.{of_bytes-to_bytes}
use hdu_riscv_lab.Mem.{Mem}
use hdu_riscv_lab.Device.{mem}
use hdu_riscv_lab.Bus.{Bus, Entry, locate, pa_write, pa_read}
use hdu_riscv_lab.Bus.Dispatch.{pa_read-pa_write}
use hdu_riscv_lab.Priv.Access.{data_bare, stops_test, va_read, va_write}
use hdu_riscv_lab.Instr.Formats.{i_type, s_type}
use hdu_riscv_lab.Core.{Core, reg, executed, writes, mem_read, mem_write}
use hdu_riscv_lab.Core.Access.{load_value}
use hdu_riscv_lab.Core.Rvc.Cases.{loads, stores}
use hdu_riscv_lab.Core.Exec.{exec_opcode}
use hdu_riscv_lab.Core.Words.{exec-lw, exec-ld, exec-sw, exec-sd}

module _ (rt : Bool) (c : Core) (b' : Bus) (start_addr size : ℕ) (buffer : List ℕ)
    (bare : data_bare c.priv ≡ true) (aligned : start_addr % size ≡ 0) where
  -- A store that the bus accepts changes the bus only.
  mem_write-accepted :
      stops_test rt start_addr buffer ≡ false
      → pa_write c.bus start_addr size buffer ≡ ok (b', true)
      → mem_write rt c start_addr size buffer ≡ ok (record c { bus = b' })
  unfolding mem_write va_write
  mem_write-accepted goes_on accepted =
      let even : (start_addr % size == 0) ≡ true = ground arith in
      rw (even, bare, goes_on, accepted) refl

  -- A load that the bus answers changes nothing.
  mem_read-answered :
      pa_read b' start_addr size ≡ ok (some buffer)
      → mem_read (record c { bus = b' }) start_addr size ≡ ok (record c { bus = b' }, some buffer)
  unfolding mem_read va_read
  mem_read-answered answered =
      let even : (start_addr % size == 0) ≡ true = ground arith in rw (even, bare, answered) refl

loaded_8 : (v : ℕ) → v < 2 ^ 64 → load_value 8 true (take 8 (to_bytes 8 v)) ≡ sext 64 v
loaded_8 v fits = ap (sext 64) (of_bytes-to_bytes 8 v fits)

loaded_4 : (v : ℕ) → load_value 4 true (take 4 (to_bytes 8 v)) ≡ sext 32 v
loaded_4 v = ap (λ n. if ltb n (2 ^ 31) then n else n + 2 ^ 64 - 2 ^ 32) low
  where
    low : of_bytes (take 4 (to_bytes 8 v)) % 2 ^ 32 ≡ v % 2 ^ 32
    low = omega arith

-- The two widths by their `funct3`.
value_of :
    (v f3 : ℕ)
    → v < 2 ^ 64
    → (f3 ≡ 2) ⊎ (f3 ≡ 3)
    → load_value (2 ^ f3) true (take (2 ^ f3) (to_bytes 8 v)) ≡ sext (8 * 2 ^ f3) v
value_of v f3 fits (inl e) = rw e (loaded_4 v)
value_of v f3 fits (inr e) = rw e (loaded_8 v fits)

module _ (rt om : Bool) (c : Core) (f3 : ℕ) (is_width : (f3 ≡ 2) ⊎ (f3 ≡ 3)) where
  exec-store :
      (s1 s2 imm : ℕ)
      → s1 < 32
      → s2 < 32
      → imm < 4096
      → exec_opcode rt om c (s_type 0x23 f3 s1 s2 imm)
        ≡ stores rt c (add64 (reg c s1) (sext 12 imm)) (2 ^ f3) s2
  exec-store s1 s2 imm p q r = by_width f3 is_width
    where
      by_width :
          (f3 : ℕ)
          → (f3 ≡ 2) ⊎ (f3 ≡ 3)
          → exec_opcode rt om c (s_type 0x23 f3 s1 s2 imm)
            ≡ stores rt c (add64 (reg c s1) (sext 12 imm)) (2 ^ f3) s2
      by_width f3 (inl e) = rw e (exec-sw rt om c s1 s2 imm p q r)
      by_width f3 (inr e) = rw e (exec-sd rt om c s1 s2 imm p q r)

  exec-load :
      (d s1 imm : ℕ)
      → d < 32
      → s1 < 32
      → imm < 4096
      → exec_opcode rt om c (i_type 3 d f3 s1 imm)
        ≡ loads c (add64 (reg c s1) (sext 12 imm)) (2 ^ f3) d
  exec-load d s1 imm p q r = by_width f3 is_width
    where
      by_width :
          (f3 : ℕ)
          → (f3 ≡ 2) ⊎ (f3 ≡ 3)
          → exec_opcode rt om c (i_type 3 d f3 s1 imm)
            ≡ loads c (add64 (reg c s1) (sext 12 imm)) (2 ^ f3) d
      by_width f3 (inl e) = rw e (exec-lw rt om c d s1 imm p q r)
      by_width f3 (inr e) = rw e (exec-ld rt om c d s1 imm p q r)

-- `sw` and `sd` to a memory, and `lw` and `ld` at the same address: where no translation is on and the
-- bus accepts the store, the store changes nothing but the bus, and the load writes the register that
-- was stored, cut to the width and sign-extended.
pub store-load :
    (rt om : Bool) (c : Core) (b' : Bus) (e : Entry) (m : Mem) (f3 s1 s2 imm d s1' imm' : ℕ)
    → (f3 ≡ 2) ⊎ (f3 ≡ 3)
    → s1 < 32
    → s2 < 32
    → imm < 4096
    → d < 32
    → s1' < 32
    → imm' < 4096
    → data_bare c.priv ≡ true
    → reg c s2 < 2 ^ 64
    → add64 (reg c s1) (sext 12 imm) % 2 ^ f3 ≡ 0
    → add64 (reg c s1') (sext 12 imm') ≡ add64 (reg c s1) (sext 12 imm)
    → stops_test rt (add64 (reg c s1) (sext 12 imm)) (to_bytes 8 (reg c s2)) ≡ false
    → locate c.bus.devices (add64 (reg c s1) (sext 12 imm)) (2 ^ f3) ≡ some e
    → get_elem? c.bus.heap e.dev ≡ some (mem m)
    → pa_write c.bus (add64 (reg c s1) (sext 12 imm)) (2 ^ f3) (to_bytes 8 (reg c s2))
      ≡ ok (b', true)
    → (exec_opcode rt om c (s_type 0x23 f3 s1 s2 imm) ≡ ok (executed (record c { bus = b' })))
      × (exec_opcode rt om (record c { bus = b' }) (i_type 3 d f3 s1' imm')
          ≡ writes (record c { bus = b' }) d (sext (8 * 2 ^ f3) (reg c s2)))
unfolding loads stores
store-load rt om c b' e m f3 s1 s2 imm d s1' imm' width p q r p' q' r' bare fits aligned same
      goes_on found at accepted =
    let a = add64 (reg c s1) (sext 12 imm) in
    let v = reg c s2 in
    let c' = record c { bus = b' } in
    let enough : 2 ^ f3 ≤ length (to_bytes 8 v) = ground (arith, width) in
    let back = pa_read-pa_write c.bus b' e m a (2 ^ f3) (to_bytes 8 v) found at enough accepted in
    (
      exec-store rt om c f3 width s1 s2 imm p q r
          ∙ rw (mem_write-accepted rt c b' a (2 ^ f3) (to_bytes 8 v) bare aligned goes_on accepted)
              refl,
      exec-load rt om c' f3 width d s1' imm' p' q' r'
          ∙ rw
              (
                same,
                mem_read-answered rt c b' a (2 ^ f3) (take (2 ^ f3) (to_bytes 8 v)) bare aligned
                    back,
              )
              (ap (writes c' d) (value_of v f3 fits width)),
    )
