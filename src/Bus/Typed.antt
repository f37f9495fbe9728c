-- ===== src/Bus/Typed.antt =====
-- That the calls of difftest/src/rv_systembus.hpp keep the bytes of the memories, and read bytes.
use hdu_riscv_lab.Prelude.{
  ℕ, ◌<◌, ◌≤◌, ◌^◌, arith, Bool, true, false, if◌then◌else◌, List, set, get_elem?, Option, none,
  some, ok, faults, ◌>>=◌, IfSome, Ensures, Ensures-any, Ensures-if, Ensures->>=,
}
use hdu_riscv_lab.Word.Signed.{sext32-lt}
use hdu_riscv_lab.Bytes.{to_bytes, of_bytes, AllBelow}
use hdu_riscv_lab.Bytes.Laws.{to_bytes-AllBelow}
use hdu_riscv_lab.Bytes.Reads.{IsRead, of_bytes-IsRead}
use hdu_riscv_lab.Device.{Device, do_read, do_write}
use hdu_riscv_lab.Bus.{
  Bus, Entry, locate, dev_addr, pa_read, pa_write, drop_reservation, pa_lr, pa_sc, sc_refused,
  AmoFunct, amo_result, amo_old, pa_amo_op,
}
use hdu_riscv_lab.Bus.Devices.{
  HoldsBytes, AllHoldBytes, do_read-IsRead, do_write-HoldsBytes, get_elem?-HoldsBytes,
  set-AllHoldBytes,
}

-- Every memory on the bus holds bytes.
abbrev pub HasBytes : Bus → Type 0
HasBytes b = AllHoldBytes b.heap

pub pa_read-IsRead :
    (b : Bus) (at size : ℕ) → HasBytes b → Ensures (IfSome (IsRead size)) (pa_read b at size)
unfolding pa_read
pa_read-IsRead b at size h = entry (locate b.devices at size)
  where
    device :
        (e : Entry) (o : Option Device)
        → IfSome HoldsBytes o
        → Ensures
            (IfSome (IsRead size))
            (elim o [ none ↦ faults | some d ↦ ok (do_read d (dev_addr e at) size) ])
    device e none held = tt
    device e (some d) held = do_read-IsRead d (dev_addr e at) size held

    entry :
        (o : Option Entry)
        → Ensures (IfSome (IsRead size)) (elim o [
          | none ↦ ok none
          | some e ↦ elim (get_elem? b.heap e.dev) [
            | none ↦ faults
            | some d ↦ ok (do_read d (dev_addr e at) size)
          ]
        ])
    entry none = tt
    entry (some e) = device e (get_elem? b.heap e.dev) (get_elem?-HoldsBytes b.heap e.dev h)

pub pa_write-HasBytes :
    (b : Bus) (at size : ℕ) (buffer : List ℕ)
    → HasBytes b
    → AllBelow 256 buffer
    → Ensures (λ (r : Bus × Bool). HasBytes r.0) (pa_write b at size buffer)
unfolding pa_write
pa_write-HasBytes b at size buffer h g = entry (locate b.devices at size)
  where
    after : Bus × Bool → Type 0
    after r = HasBytes r.0

    written :
        (i : ℕ) (o : Option Device)
        → IfSome HoldsBytes o
        → Ensures after (elim o [
          | none ↦ ok (drop_reservation b at size, false)
          | some d' ↦ ok (record (drop_reservation b at size) { heap = set b.heap i d' }, true)
        ])
    written i none w = h
    written i (some d') w = set-AllHoldBytes b.heap i d' h w

    device :
        (e : Entry) (o : Option Device)
        → IfSome HoldsBytes o
        → Ensures after (elim o [
          | none ↦ faults
          | some d ↦ elim (do_write d (dev_addr e at) size buffer) [
            | none ↦ ok (drop_reservation b at size, false)
            | some d' ↦
                ok (record (drop_reservation b at size) { heap = set b.heap e.dev d' }, true)
          ]
        ])
    device e none held = tt
    device e (some d) held =
        written e.dev (do_write d (dev_addr e at) size buffer)
          (do_write-HoldsBytes d (dev_addr e at) size buffer held g)

    entry :
        (o : Option Entry)
        → Ensures after (elim o [
          | none ↦ ok (drop_reservation b at size, false)
          | some e ↦ elim (get_elem? b.heap e.dev) [
            | none ↦ faults
            | some d ↦ elim (do_write d (dev_addr e at) size buffer) [
              | none ↦ ok (drop_reservation b at size, false)
              | some d' ↦
                  ok (record (drop_reservation b at size) { heap = set b.heap e.dev d' }, true)
            ]
          ]
        ])
    entry none = h
    entry (some e) = device e (get_elem? b.heap e.dev) (get_elem?-HoldsBytes b.heap e.dev h)

-- What `lr` gives back.
pub pa_lr-HasBytes :
    (b : Bus) (pa size hart_id : ℕ)
    → HasBytes b
    → Ensures
        (λ (r : Bus × Option (List ℕ)). HasBytes r.0 × IfSome (IsRead size) r.1)
        (pa_lr b pa size hart_id)
unfolding pa_lr
pa_lr-HasBytes b pa size hart_id h =
    Ensures->>= (IfSome (IsRead size)) _ (pa_read _ pa size) _ (pa_read-IsRead _ pa size h)
      (λ dst got. (h, got))

pub pa_sc-HasBytes :
    (b : Bus) (pa size : ℕ) (src : List ℕ) (hart_id : ℕ)
    → HasBytes b
    → AllBelow 256 src
    → Ensures (λ (r : Bus × Bool × Bool). HasBytes r.0) (pa_sc b pa size src hart_id)
unfolding pa_sc
pa_sc-HasBytes b pa size src hart_id h g = Ensures-if _ (sc_refused b pa size hart_id) _ _ h (
    Ensures->>= (λ (r : Bus × Bool). HasBytes r.0) _ (pa_write _ pa size src) _
      (pa_write-HasBytes _ pa size src h g) (λ r kept. kept))

amo_old-lt :
    (size : ℕ) (bytes : List ℕ) → size ≤ 8 → IsRead size bytes → amo_old size bytes < 2 ^ 64
amo_old-lt size bytes fits read =
    ground (arith, sext32-lt (of_bytes bytes), of_bytes-IsRead size bytes fits read)

abbrev pub IsWord : ℕ → Type 0
IsWord v = v < 2 ^ 64

-- An atomic operation keeps the memories, and the old value is a word.
pub pa_amo_op-HasBytes :
    (b : Bus) (pa size : ℕ) (op : AmoFunct) (src : ℕ)
    → size ≤ 8
    → HasBytes b
    → Ensures
        (λ (r : Bus × Option ℕ). HasBytes r.0 × IfSome IsWord r.1)
        (pa_amo_op b pa size op src)
unfolding pa_amo_op
pa_amo_op-HasBytes b pa size op src fits h =
    Ensures->>= (IfSome (IsRead size)) _ (pa_read b pa size) _ (pa_read-IsRead b pa size h) old
  where
    result :
        (done : Bool) (bytes : List ℕ)
        → IsRead size bytes
        → IfSome IsWord (if done then some (amo_old size bytes) else none)
    result true bytes read = amo_old-lt size bytes fits read
    result false bytes read = tt

    old :
        (o : Option (List ℕ))
        → IfSome (IsRead size) o
        → Ensures
            (λ (r : Bus × Option ℕ). HasBytes r.0 × IfSome IsWord r.1)
            (elim o [
              | none ↦ ok (b, none)
              | some bytes ↦ amo_result op src (amo_old size bytes) >>= λ to_write.
                  pa_write b pa size (to_bytes 8 to_write) >>= λ r.
                  ok (r.0, if r.1 then some (amo_old size bytes) else none)
            ])
    old none read = (h, tt)
    old (some bytes) read =
        Ensures->>= (λ (v : ℕ). Unit {0}) _ (amo_result op src (amo_old size bytes)) _
          (Ensures-any (amo_result op src (amo_old size bytes)))
          (λ v _.
            Ensures->>= (λ (r : Bus × Bool). HasBytes r.0) _ (pa_write b pa size (to_bytes 8 v)) _
              (pa_write-HasBytes b pa size (to_bytes 8 v) h (to_bytes-AllBelow 8 v))
              (λ r kept. (kept, result r.1 bytes read)))
