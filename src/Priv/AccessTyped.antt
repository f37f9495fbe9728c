-- ===== src/Priv/AccessTyped.antt =====
-- The accesses of `rv_priv` (difftest/src/rv_priv.hpp) to memory: they keep the CSRs words and the
-- memories bytes, and what they read is bytes.
use hdu_riscv_lab.Prelude.{
  ℕ, ◌%◌, ◌^◌, ◌≤◌, ◌<◌, ◌≡◌, refl, arith, Bool, true, false, not, ◌&&◌, ◌==◌, List, Option, none,
  some, Outcome, ok, exits, ◌>>=◌, Ensures, Ensures-if, Ensures->>=, Ensures-any, IfSome, Any,
}
use hdu_riscv_lab.Word.{add64}
use hdu_riscv_lab.Bytes.{AllBelow}
use hdu_riscv_lab.Bytes.Reads.{IsRead, []-IsRead, append-IsRead}
use hdu_riscv_lab.Bus.{Bus, AmoFunct, pa_read, pa_write, pa_lr, pa_sc, pa_amo_op}
use hdu_riscv_lab.Bus.Typed.{
  IsWord, pa_read-IsRead, HasBytes, pa_write-HasBytes, pa_lr-HasBytes, pa_sc-HasBytes,
  pa_amo_op-HasBytes,
}
use hdu_riscv_lab.Csr.{exc_custom_ok}
use hdu_riscv_lab.Sv39.{TlbEntry, local_tlbe_get}
use hdu_riscv_lab.Priv.{Priv}
use hdu_riscv_lab.Priv.Typed.{IsTyped}
use hdu_riscv_lab.Priv.Access.{
  fetch_bare, data_bare, crosses_page, pa_in, lookup, fetch_refused, load_refused, store_refused,
  user_page_refused, bytes_of, dst_of, va_if_within, va_if, va_read, stops_test, va_write,
  valid_size, va_lr, va_sc, va_amo,
}

bytes_of-IsRead :
    (size : ℕ) (o : Option (List ℕ)) → IfSome (IsRead size) o → IsRead size (bytes_of o)
bytes_of-IsRead size none h = []-IsRead size
bytes_of-IsRead size (some bytes) h = h

dst_of-IsWord : (o : Option ℕ) → IfSome IsWord o → dst_of o < 2 ^ 64
dst_of-IsWord none h = omega arith
dst_of-IsWord (some dst) h = h

-- A lookup changes the TLB only.
looked_up {ℓ κ} :
    {A : Type ℓ} (P : A → Type κ) (p : Priv) (b : Bus) (va : ℕ) (miss : Priv → Outcome A)
    (hit : Priv → TlbEntry → Outcome A)
    → IsTyped p
    → ((p' : Priv) → IsTyped p' → Ensures P (miss p'))
    → ((p' : Priv) (e : TlbEntry) → IsTyped p' → Ensures P (hit p' e))
    → Ensures P
        (lookup p b va >>= λ found. elim found.1 [ none ↦ miss found.0 | some e ↦ hit found.0 e ])
looked_up P p b va miss hit w missed found =
    Ensures->>= (λ (r : Priv × Option TlbEntry). IsTyped r.0) P (lookup p b va) _
      (Ensures->>= _ _ (local_tlbe_get 32 p.sv39 b p.satp va) _
        (Ensures-any (local_tlbe_get 32 p.sv39 b p.satp va)) (λ r _. w))
      (λ r w'. entry r.0 r.1 w')
  where
    entry :
        (p' : Priv) (o : Option TlbEntry)
        → IsTyped p'
        → Ensures P (elim o [ none ↦ miss p' | some e ↦ hit p' e ])
    entry p' none w' = missed p' w'
    entry p' (some e) w' = found p' e w'

assert-Ensures {ℓ κ} :
    {A : Type ℓ} (P : A → Type κ) (test : Bool) (call : Outcome A)
    → (test ≡ true → Ensures P call)
    → Ensures P (elim test [ true ↦ call | false ↦ Outcome.aborts ])
assert-Ensures P true call h = h refl
assert-Ensures P false call h = tt

abbrev pub HasRead : ℕ → Priv × ℕ × List ℕ → Type 0
HasRead size (p, exc, bytes) = IsTyped p × IsRead size bytes

module _ (p : Priv) (b : Bus) (w : IsTyped p) (bytes : HasBytes b) where
  read_at :
      (p' : Priv) (at size : ℕ) (exc : Option (List ℕ) → ℕ)
      → IsTyped p'
      → Ensures (HasRead size) (pa_read b at size >>= λ r. ok (p', exc r, bytes_of r))
  read_at p' at size exc w' =
      Ensures->>= (IfSome (IsRead size)) (HasRead size) (pa_read b at size) _
        (pa_read-IsRead b at size bytes) (λ r got. (w', bytes_of-IsRead size r got))

  va_if_within-HasRead :
      (start_addr size : ℕ) → Ensures (HasRead size) (va_if_within p b start_addr size)
  unfolding va_if_within
  va_if_within-HasRead start_addr size =
      Ensures-if (HasRead size) (fetch_bare p) _ _ (read_at p start_addr size _ w) (
        Ensures-if (HasRead size) (crosses_page start_addr size) _ _ (w, []-IsRead size)
          (looked_up (HasRead size) p b start_addr _ _ w (λ p' w'. (w', []-IsRead size))
            (λ p' e w'.
              Ensures-if (HasRead size) (fetch_refused p e) _ _ (w', []-IsRead size)
                (read_at p' (pa_in e start_addr) size _ w'))))

  pub va_read-HasRead : (start_addr size : ℕ) → Ensures (HasRead size) (va_read p b start_addr size)
  unfolding va_read
  va_read-HasRead start_addr size =
      Ensures-if (HasRead size) (data_bare p) _ _ (read_at p start_addr size _ w) (
        Ensures-if (HasRead size) (crosses_page start_addr size) _ _ (w, []-IsRead size)
          (looked_up (HasRead size) p b start_addr _ _ w (λ p' w'. (w', []-IsRead size))
            (λ p' e w'.
              Ensures-if (HasRead size) (load_refused p e) _ _ (w', []-IsRead size)
                (Ensures-if (HasRead size) (user_page_refused p e) _ _ (w', []-IsRead size)
                  (read_at p' (pa_in e start_addr) size _ w')))))

-- The fetch of an instruction: its bytes, and the address for a trap.
abbrev pub HasFetched : Priv × ℕ × List ℕ × ℕ → Type 0
HasFetched (p, exc, bytes, bad_va) = IsTyped p × IsRead 4 bytes × (bad_va < 2 ^ 64)

more-IsRead : (m n : ℕ) (bytes : List ℕ) → m ≤ n → IsRead m bytes → IsRead n bytes
more-IsRead m n bytes le (h, below) = (omega arith, below)

pub va_if-HasFetched :
    (p : Priv) (b : Bus) (start_addr : ℕ)
    → IsTyped p
    → HasBytes b
    → start_addr < 2 ^ 64
    → Ensures HasFetched (va_if p b start_addr 4)
unfolding va_if
va_if-HasFetched p b start_addr w bytes at =
    Ensures-if HasFetched ((4 == 4) && (start_addr % 4 == 2)) _ _
      (Ensures->>= (HasRead 2) HasFetched (va_if_within p b start_addr 2) _
        (va_if_within-HasRead p b w bytes start_addr 2)
        (λ (p0, res0, lower) (w0, low).
          Ensures-if HasFetched (not (res0 == exc_custom_ok)) _ _
            (w0, more-IsRead 2 4 lower (omega arith) low, at)
            (Ensures->>= (HasRead 2) HasFetched (va_if_within p0 b (add64 start_addr 2) 2) _
              (va_if_within-HasRead p0 b w0 bytes (add64 start_addr 2) 2)
              (λ (p1, res1, upper) (w1, high).
                (w1, append-IsRead 2 2 lower upper low high, omega arith)))))
      (Ensures->>= (HasRead 4) HasFetched (va_if_within p b start_addr 4) _
        (va_if_within-HasRead p b w bytes start_addr 4)
        (λ (p', res, got) (w', read). (w', read, at)))

abbrev pub HasStored {ℓ} : {A : Type ℓ} → (A → Type 0) → Priv × Bus × ℕ × A → Type 0
HasStored P (p, b, exc, result) = IsTyped p × HasBytes b × P result

abbrev pub HasWritten : Priv × Bus × ℕ → Type 0
HasWritten (p, b, exc) = IsTyped p × HasBytes b

module _ (p : Priv) (b : Bus) (start_addr size : ℕ) (w : IsTyped p) (bytes : HasBytes b) where
  pub va_write-HasWritten :
      (run_test : Bool) (buffer : List ℕ)
      → AllBelow 256 buffer
      → Ensures HasWritten (va_write run_test p b start_addr size buffer)
  unfolding va_write
  va_write-HasWritten run_test buffer below =
      let stored = λ (p' : Priv) (at : ℕ) (code : Bool → ℕ) (w' : IsTyped p').
        Ensures-if HasWritten (stops_test run_test at buffer) (exits 0)
          (pa_write b at size buffer >>= λ r. ok (p', r.0, code r.1)) tt
          (Ensures->>= (λ (r : Bus × Bool). HasBytes r.0) HasWritten (pa_write b at size buffer) _
            (pa_write-HasBytes b at size buffer bytes below) (λ r kept. (w', kept))) in
      Ensures-if HasWritten (data_bare p) _ _ (stored p start_addr _ w) (
        Ensures-if HasWritten (crosses_page start_addr size) _ _ (w, bytes)
          (looked_up HasWritten p b start_addr _ _ w (λ p' w'. (w', bytes))
            (λ p' e w'.
              Ensures-if HasWritten (store_refused p e) _ _ (w', bytes)
                (stored p' (pa_in e start_addr) _ w'))))

  pub va_lr-HasStored : Ensures (HasStored (IsRead size)) (va_lr p b start_addr size)
  unfolding va_lr
  va_lr-HasStored =
      let P = HasStored (IsRead size) in
      let reserved = λ (p' : Priv) (at : ℕ) (code : Option (List ℕ) → ℕ) (w' : IsTyped p').
        Ensures->>= (λ (r : Bus × Option (List ℕ)). HasBytes r.0 × IfSome (IsRead size) r.1) P
          (pa_lr b at size p.hart_id) (λ r. ok (p', r.0, code r.1, bytes_of r.1))
          (pa_lr-HasBytes b at size p.hart_id bytes)
          (λ r (kept, got). (w', kept, bytes_of-IsRead size r.1 got)) in
      assert-Ensures P (valid_size size) _ (λ _.
        Ensures-if P (data_bare p) _ _ (reserved p start_addr _ w) (
          Ensures-if P (crosses_page start_addr size) _ _ (w, bytes, []-IsRead size)
            (looked_up P p b start_addr _ _ w (λ p' w'. (w', bytes, []-IsRead size))
              (λ p' e w'.
                Ensures-if P (load_refused p e) _ _ (w', bytes, []-IsRead size)
                  (Ensures-if P (user_page_refused p e) _ _ (w', bytes, []-IsRead size)
                    (reserved p' (pa_in e start_addr) _ w'))))))

  pub va_sc-HasStored :
      (buffer : List ℕ)
      → AllBelow 256 buffer
      → Ensures (HasStored Any) (va_sc p b start_addr size buffer)
  unfolding va_sc
  va_sc-HasStored buffer below =
      let P = HasStored Any in
      let stored = λ (p' : Priv) (at : ℕ) (code : Bool → ℕ) (w' : IsTyped p').
        Ensures->>= (λ (r : Bus × Bool × Bool). HasBytes r.0) P (pa_sc b at size buffer p.hart_id)
          (λ (b', pstatus, sc_fail). ok (p', b', code pstatus, sc_fail))
          (pa_sc-HasBytes b at size buffer p.hart_id bytes below) (λ r kept. (w', kept, tt)) in
      assert-Ensures P (valid_size size) _ (λ _.
        Ensures-if P (data_bare p) _ _ (stored p start_addr _ w) (
          Ensures-if P (crosses_page start_addr size) _ _ (w, bytes, tt)
            (looked_up P p b start_addr _ _ w (λ p' w'. (w', bytes, tt))
              (λ p' e w'.
                Ensures-if P (store_refused p e) _ _ (w', bytes, tt)
                  (stored p' (pa_in e start_addr) _ w')))))

  pub va_amo-HasStored :
      (op : AmoFunct) (src : ℕ) → Ensures (HasStored IsWord) (va_amo p b start_addr size op src)
  unfolding va_amo
  va_amo-HasStored op src =
      let P = HasStored IsWord in
      let zero_IsWord : IsWord 0 = omega arith in
      assert-Ensures P (valid_size size) _ (λ valid.
        let fits : size ≤ 8 = ground (arith, valid) in
        let done = λ (p' : Priv) (at : ℕ) (code : Option ℕ → ℕ) (w' : IsTyped p').
          Ensures->>= (λ (r : Bus × Option ℕ). HasBytes r.0 × IfSome IsWord r.1) P
            (pa_amo_op b at size op src) (λ r. ok (p', r.0, code r.1, dst_of r.1))
            (pa_amo_op-HasBytes b at size op src fits bytes)
            (λ r (kept, old). (w', kept, dst_of-IsWord r.1 old)) in
        Ensures-if P (data_bare p) _ _ (done p start_addr _ w) (
          Ensures-if P (crosses_page start_addr size) _ _ (w, bytes, zero_IsWord)
            (looked_up P p b start_addr _ _ w (λ p' w'. (w', bytes, zero_IsWord))
              (λ p' e w'.
                Ensures-if P (store_refused p e) _ _ (w', bytes, zero_IsWord)
                  (done p' (pa_in e start_addr) _ w')))))
