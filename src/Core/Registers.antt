-- ===== src/Core/Registers.antt =====
-- The state through the instructions of difftest/src/rv_core.hpp: the size of the register file, the
-- zero of x0, and that words stay words.
use hdu_riscv_lab.Prelude.{
  ℕ, zero, suc, ◌^◌, ◌<◌, ◌≡◌, inl, inr, refl, sym, subst, ap, ◌∙◌, arith, Bool, true, false, ltb,
  ◌==◌, if◌then◌else◌, List, [], ◌∷◌, length, length-set, set, get_or, Option, none, some, Outcome,
  ok, exits, aborts, faults, ◌>>=◌, Bool-cases, Ensures, IfSome,
}
use hdu_riscv_lab.Bytes.{AllBelow}
use hdu_riscv_lab.Bytes.Laws.{AllBelow-set}
use hdu_riscv_lab.Bus.{Bus}
use hdu_riscv_lab.Bus.Typed.{HasBytes}
use hdu_riscv_lab.Priv.{Priv}
use hdu_riscv_lab.Priv.Typed.{raise_trap-IsTyped}
use hdu_riscv_lab.Priv.Typed as Csrs
use hdu_riscv_lab.Priv.Trap.{raise_trap}
use hdu_riscv_lab.Core.{Core, Done, reg, set_gpr, writes, trap}
use hdu_riscv_lab.Core.Typed.{IsTyped}

-- The registers that `c'` has are as many as those of `c`, its x0 is that of `c`, and where `c` holds
-- words and bytes so does `c'`.
abbrev pub Kept : Core → Core → Type 0
Kept c c' = (length c'.gpr ≡ length c.gpr) × (reg c' 0 ≡ reg c 0) × (IsTyped c → IsTyped c')

-- What returns keeps the registers.
abbrev pub Keeps {ℓ} : {A : Type ℓ} → Core → (A → Core) → Outcome A → Type 0
Keeps c core (ok a) = Kept c (core a)
Keeps c core (exits n) = Unit {0}
Keeps c core aborts = Unit {0}
Keeps c core faults = Unit {0}

get_or-set-suc : (xs : List ℕ) (i v : ℕ) → get_or (set xs (suc i) v) 0 0 ≡ get_or xs 0 0
get_or-set-suc [] i v = refl
get_or-set-suc (x ∷ xs) i v = refl

abbrev pub self : Core → Core
self c = c

abbrev pub after : Done → Core
after d = d.core

module _ {ℓ κ} {A : Type ℓ} {B : Type κ} (c : Core) (g : B → Core) where
  -- A call before another that keeps them, in whatever state it leaves.
  pub Keeps->>= :
      (f : A → Core) (m : Outcome A) (k : A → Outcome B)
      → Keeps c f m
      → ((a : A) → Kept c (f a) → Keeps c g (k a))
      → Keeps c g (m >>= k)
  Keeps->>= f (ok a) k h next = next a h
  Keeps->>= f (exits n) k h next = tt
  Keeps->>= f aborts k h next = tt
  Keeps->>= f faults k h next = tt

  -- The same, with what the call ensures of its result.
  pub Keeps-known :
      (f : A → Core) (P : A → Type 0) (m : Outcome A) (k : A → Outcome B)
      → Keeps c f m
      → (IsTyped c → Ensures P m)
      → ((a : A) → Kept c (f a) → (IsTyped c → P a) → Keeps c g (k a))
      → Keeps c g (m >>= k)
  Keeps-known f P (ok a) k h known next = next a h known
  Keeps-known f P (exits n) k h known next = tt
  Keeps-known f P aborts k h known next = tt
  Keeps-known f P faults k h known next = tt

  -- A call that knows nothing of the registers, with what it ensures.
  pub Keeps-after :
      (P : A → Type 0) (m : Outcome A) (k : A → Outcome B)
      → (IsTyped c → Ensures P m)
      → ((a : A) → (IsTyped c → P a) → Keeps c g (k a))
      → Keeps c g (m >>= k)
  Keeps-after P (ok a) k known next = next a known
  Keeps-after P (exits n) k known next = tt
  Keeps-after P aborts k known next = tt
  Keeps-after P faults k known next = tt

module _ {ℓ} {A : Type ℓ} (c : Core) (g : A → Core) where
  pub Keeps-if :
      (b : Bool) (x y : Outcome A) → Keeps c g x → Keeps c g y → Keeps c g (if b then x else y)
  Keeps-if true x y hx hy = hx
  Keeps-if false x y hx hy = hy

  -- The same, where the second branch uses that the test failed.
  pub Keeps-else :
      (b : Bool) (x y : Outcome A)
      → Keeps c g x
      → (b ≡ false → Keeps c g y)
      → Keeps c g (if b then x else y)
  Keeps-else true x y hx hy = hx
  Keeps-else false x y hx hy = hy refl

-- A choice on an optional value, with what is known of it.
pub Keeps-choice {ℓ} :
    {A : Type ℓ} (c : Core) (P : A → Type 0) (o : Option A) (x : Outcome Done)
    (k : A → Outcome Done)
    → (IsTyped c → IfSome P o)
    → Keeps c after x
    → ((a : A) → (IsTyped c → P a) → Keeps c after (k a))
    → Keeps c after (elim o [ none ↦ x | some a ↦ k a ])
Keeps-choice c P none x k known h next = h
Keeps-choice c P (some a) x k known h next = next a known

pub unchanged : (c : Core) → Kept c c
unchanged c = (refl, refl, λ t. t)

-- New values of other parts of the state.
module _ (c0 c : Core) (h : Kept c0 c) where
  pub machine-Kept :
      (p : Priv) (b : Bus)
      → (IsTyped c0 → Csrs.IsTyped p × HasBytes b)
      → Kept c0 (record c { priv = p; bus = b })
  machine-Kept p b new =
      (h.0, h.1, λ t. let (words, at, csrs, bytes) = h.2 t in (words, at, (new t).0, (new t).1))

  pub priv-Kept : (p : Priv) → (IsTyped c0 → Csrs.IsTyped p) → Kept c0 (record c { priv = p })
  priv-Kept p new =
      (h.0, h.1, λ t. let (words, at, csrs, bytes) = h.2 t in (words, at, new t, bytes))

  pub pc-Kept : (pc : ℕ) → (IsTyped c0 → pc < 2 ^ 64) → Kept c0 (record c { pc = pc })
  pc-Kept pc new =
      (h.0, h.1, λ t. let (words, at, csrs, bytes) = h.2 t in (words, new t, csrs, bytes))

pub set_gpr-Keeps :
    (c0 c : Core) (i v : ℕ) → Kept c0 c → (IsTyped c0 → v < 2 ^ 64) → Keeps c0 self (set_gpr c i v)
unfolding set_gpr
set_gpr-Keeps c0 c i v (len, zero_reg, typed) value = elim (Bool-cases (ltb i 32)) [
  | inl e ↦
      let (len', zero', words') = in_range i in
      rw e (
        len',
        zero',
        λ t. let (words, at, csrs, bytes) = typed t in (words' words (value t), at, csrs, bytes),
      )
  | inr e ↦ rw e tt
]
  where
    same : (j : ℕ) → (if suc j == 0 then c.gpr else set c.gpr (suc j) v) ≡ set c.gpr (suc j) v
    same j = ground arith

    in_range :
        (i : ℕ)
        → (length (if i == 0 then c.gpr else set c.gpr i v) ≡ length c0.gpr)
          × (get_or (if i == 0 then c.gpr else set c.gpr i v) 0 0 ≡ reg c0 0)
          × (AllBelow (2 ^ 64) c.gpr
              → v < 2 ^ 64
              → AllBelow (2 ^ 64) (if i == 0 then c.gpr else set c.gpr i v))
    in_range zero = (len, zero_reg, λ words word. words)
    in_range (suc j) = (
      ap length (same j) ∙ length-set c.gpr (suc j) v ∙ len,
      ap (λ xs. get_or xs 0 0) (same j) ∙ get_or-set-suc c.gpr j v ∙ zero_reg,
      λ words word.
          subst (AllBelow (2 ^ 64)) (sym (same j))
            (AllBelow-set (2 ^ 64) c.gpr (suc j) v word words),
    )

pub writes-Keeps :
    (c0 c : Core) (i v : ℕ) → Kept c0 c → (IsTyped c0 → v < 2 ^ 64) → Keeps c0 after (writes c i v)
writes-Keeps c0 c i v h value =
    Keeps->>= c0 after self (set_gpr c i v) _ (set_gpr-Keeps c0 c i v h value) (λ c' kept. kept)

pub trap-Keeps :
    (c0 c : Core) (cause tval : ℕ)
    → Kept c0 c
    → (IsTyped c0 → tval < 2 ^ 64)
    → Keeps c0 self (trap c cause tval)
unfolding trap
trap-Keeps c0 c cause tval h value =
    Keeps-after c0 self Csrs.IsTyped (raise_trap c.priv c.pc cause 0 tval) _
      (λ t.
        let (words, at, csrs, bytes) = h.2 t in
        raise_trap-IsTyped c.priv c.pc cause 0 tval at (value t) csrs)
      (λ p new. priv-Kept c0 c h p new)

-- A trap before a last step.
pub trapped-Keeps {ℓ} :
    {A : Type ℓ} (c0 c : Core) (g : A → Core) (cause tval : ℕ) (k : Core → Outcome A)
    → Kept c0 c
    → (IsTyped c0 → tval < 2 ^ 64)
    → ((c' : Core) → Kept c0 c' → Keeps c0 g (k c'))
    → Keeps c0 g (trap c cause tval >>= k)
trapped-Keeps c0 c g cause tval k h value next =
    Keeps->>= c0 g self (trap c cause tval) k (trap-Keeps c0 c cause tval h value) next
