-- ===== src/Bus/Reservation.antt =====
-- The reservation of `lr` and `sc`: when a store ends it, and when `sc` stores.
use hdu_riscv_lab.Prelude.{
  ℕ, ◌+◌, ◌^◌, ◌<◌, ◌≡◌, ◌≢◌, ◌↔◌, ◌⊎◌, inl, inr, refl, arith, Bool, true, false, ◌==◌,
  if◌then◌else◌, List, Option, ok, ◌>>=◌, >>=-returns, Bool-cases,
}
use hdu_riscv_lab.Bus.{Bus, pa_read, pa_write, pa_lr, pa_sc, sc_refused}

-- A store that returns ends the reservation if it begins at the reserved address, and not else, be it
-- accepted or not.
pub pa_write-lr_valid_iff :
    (b b' : Bus) (start_addr size : ℕ) (buffer : List ℕ) {r : Bool}
    → start_addr + size < 2 ^ 64
    → b.lr_pa + size < 2 ^ 64
    → pa_write b start_addr size buffer ≡ ok (b', r)
    → (b'.lr_valid ≡ true) ↔ ((b.lr_valid ≡ true) × (start_addr ≢ b.lr_pa))
unfolding pa_write
pa_write-lr_valid_iff b b' start_addr size buffer fits fits' e =
    (λ h. (ground arith, ground arith), λ (v, ne). ground arith)

pa_write-lr :
    (b b' : Bus) (start_addr size : ℕ) (buffer : List ℕ) {r : Bool}
    → pa_write b start_addr size buffer ≡ ok (b', r)
    → (b'.lr_pa ≡ b.lr_pa)
      × (b'.lr_size ≡ b.lr_size)
      × (b'.lr_hart ≡ b.lr_hart)
      × (b.lr_valid ≡ false → b'.lr_valid ≡ false)
unfolding pa_write
pa_write-lr b b' start_addr size buffer e =
    (ground arith, ground arith, ground arith, λ v. ground arith)

abbrev released : Bus → Bus
released b = record b { lr_valid = false }

pa_sc_stores :
    (b : Bus) (pa size : ℕ) (src : List ℕ) (hart : ℕ)
    → sc_refused b pa size hart ≡ false
    → pa_sc b pa size src hart ≡ (pa_write (released b) pa size src >>= λ r. ok (r.0, r.1, false))
unfolding pa_sc
pa_sc_stores b pa size src hart no_refusal = rw no_refusal

-- A call that returns stored, after it dropped the reservation, or it was refused.
pa_sc_cases :
    (b b' : Bus) (pa size : ℕ) (src : List ℕ) (hart : ℕ) {r f : Bool}
    → pa_sc b pa size src hart ≡ ok (b', r, f)
    → ((sc_refused b pa size hart ≡ true)
        × (f ≡ true)
        × (b' ≡ record b { lr_valid = if hart == b.lr_hart then false else b.lr_valid }))
      ⊎ ((sc_refused b pa size hart ≡ false)
          × (f ≡ false)
          × (pa_write (released b) pa size src ≡ ok (b', r)))
pa_sc_cases b b' pa size src hart e = elim (Bool-cases (sc_refused b pa size hart)) [
  | inl refused ↦ inl (refused, unfold pa_sc in ground arith, unfold pa_sc in ground arith)
  | inr stores ↦
      let bound = rw (pa_sc_stores b pa size src hart stores) at e in
      let (w, result, written) = >>=-returns (pa_write (released b) pa size src) _ bound in
      inr (stores, ground arith, ground arith)
]

pa_sc-lr :
    (b b' : Bus) (pa size : ℕ) (src : List ℕ) (hart : ℕ) {r f : Bool}
    → pa_sc b pa size src hart ≡ ok (b', r, f)
    → (b'.lr_valid ≡ false) ⊎ (b'.lr_hart ≢ hart)
pa_sc-lr b b' pa size src hart e = elim (pa_sc_cases b b' pa size src hart e) [
  | inl (refused, _, same) ↦ ground arith
  | inr (stores, _, written) ↦ inl ((pa_write-lr (released b) b' pa size src written).3 refl)
]

-- After any `sc` of a hart that returned, a further `sc` of that hart fails, to whatever address, and
-- stores nothing.
pub pa_sc-pa_sc :
    (b b' : Bus) (pa size : ℕ) (src : List ℕ) (hart : ℕ) {r f : Bool} (pa' size' : ℕ)
    (src' : List ℕ)
    → pa_sc b pa size src hart ≡ ok (b', r, f)
    → (b'' : Bus) × (pa_sc b' pa' size' src' hart ≡ ok (b'', true, true)) × (b''.heap ≡ b'.heap)
unfolding pa_sc
pa_sc-pa_sc b b' pa size src hart pa' size' src' e =
    (record b' { lr_valid = if hart == b'.lr_hart then false else b'.lr_valid }, rw refused, refl)
  where
    refused : sc_refused b' pa' size' hart ≡ true
    refused = ground (arith, pa_sc-lr b b' pa size src hart e)

pa_lr-lr :
    (b b' : Bus) (pa size hart : ℕ) {bytes : Option (List ℕ)}
    → pa_lr b pa size hart ≡ ok (b', bytes)
    → (b'.lr_pa ≡ pa) × (b'.lr_size ≡ size) × (b'.lr_hart ≡ hart) × (b'.lr_valid ≡ true)
unfolding pa_lr
pa_lr-lr b b' pa size hart e =
    let reserved = record b { lr_pa = pa; lr_size = size; lr_valid = true; lr_hart = hart } in
    let (bytes, result, read) = >>=-returns (pa_read reserved pa size) _ e in ground arith

-- Between an `lr` and the `sc` of the same hart to the same place, a store of any size keeps the `sc`
-- from storing exactly when it begins at the reserved address.
pub pa_lr-pa_write-pa_sc :
    (b b₁ b₂ b₃ : Bus) (pa size hart at len : ℕ) (buffer src : List ℕ) {bytes : Option (List ℕ)}
    {r s f : Bool}
    → pa + len < 2 ^ 64
    → at + len < 2 ^ 64
    → pa_lr b pa size hart ≡ ok (b₁, bytes)
    → pa_write b₁ at len buffer ≡ ok (b₂, r)
    → pa_sc b₂ pa size src hart ≡ ok (b₃, s, f)
    → f ≡ (at == pa)
pa_lr-pa_write-pa_sc b b₁ b₂ b₃ pa size hart at len buffer src fits fits' reserve stored
      conditional =
    elim (pa_sc_cases b₂ b₃ pa size src hart conditional) [
      | inl (refused, failed, _) ↦ ground (arith, held, kept, ends)
      | inr (stores, done, _) ↦ ground (arith, held, kept, ends)
    ]
  where
    held : (b₁.lr_pa ≡ pa) × (b₁.lr_size ≡ size) × (b₁.lr_hart ≡ hart) × (b₁.lr_valid ≡ true)
    held = pa_lr-lr b b₁ pa size hart reserve

    kept : (b₂.lr_pa ≡ pa) × (b₂.lr_size ≡ size) × (b₂.lr_hart ≡ hart)
    kept = ground (arith, held, pa_write-lr b₁ b₂ at len buffer stored)

    ends : (b₂.lr_valid ≡ true) ↔ ((b₁.lr_valid ≡ true) × (at ≢ b₁.lr_pa))
    ends = pa_write-lr_valid_iff b₁ b₂ at len buffer fits' (rw held.0 fits) stored
