-- ===== src/Prelude/Result.antt =====
-- How a call of the emulator ends: normally, by `exit(code)`, by a failed `assert` (an abort), or in
-- undefined behaviour, such as an access behind the end of an array.
use Prim.Native.Nat.{ℕ}
use mathlib.Core.Path.{◌≡◌, refl, subst}
use hdu_riscv_lab.Prelude.Tests.{if◌then◌else◌}
use mathlib.Core.Option.{Option, none, some}
use mathlib.Core.Bool.{Bool, true, false}

pub data Outcome {ℓ} (A : Type ℓ) : Type ℓ where
  ok : A → Outcome A
  exits : ℕ → Outcome A
  aborts faults : Outcome A

-- What comes after a call that did not return is not run.
infixl 5 ◌>>=◌
abbrev pub ◌>>=◌ {ℓ κ} : {B : Type κ} {A : Type ℓ} → Outcome A → (A → Outcome B) → Outcome B
call >>= next = elim call [
  | ok value ↦ next value
  | exits code ↦ exits code
  | aborts ↦ aborts
  | faults ↦ faults
]

-- `assert(test)` of the C library, before `rest`.
abbrev pub assert {ℓ} : {A : Type ℓ} → Bool → Outcome A → Outcome A
assert test rest = elim test [ true ↦ rest | false ↦ aborts ]

-- The parts of a sequence that returned.
pub >>=-returns {ℓ κ} :
    {B : Type κ} {A : Type ℓ} (call : Outcome A) (next : A → Outcome B) {result : B}
    → (call >>= next) ≡ ok result
    → (value : A) × (next value ≡ ok result) × (call ≡ ok value)
>>=-returns (ok value) next e = (value, e, refl)
>>=-returns (exits code) next e = cc
>>=-returns aborts next e = cc
>>=-returns faults next e = cc

-- What holds of the result if the call returns.
abbrev pub Ensures {ℓ κ} : {A : Type ℓ} → (A → Type κ) → Outcome A → Type κ
Ensures P call = elim call [
  | ok value ↦ P value
  | exits code ↦ Unit
  | aborts ↦ Unit
  | faults ↦ Unit
]

pub Ensures-if {ℓ κ} :
    {A : Type ℓ} (P : A → Type κ) (b : Bool) (x y : Outcome A)
    → Ensures P x
    → Ensures P y
    → Ensures P (if b then x else y)
Ensures-if P true x y hx hy = hx
Ensures-if P false x y hx hy = hy

pub Ensures-ok {ℓ κ} :
    {A : Type ℓ} (P : A → Type κ) (call : Outcome A) {value : A}
    → Ensures P call
    → call ≡ ok value
    → P value
Ensures-ok P (ok v) {value} h e = (let same : v ≡ value = cc in subst P same h)
Ensures-ok P (exits code) h e = cc
Ensures-ok P aborts h e = cc
Ensures-ok P faults h e = cc

pub Ensures-map {ℓ κ λ'} :
    {A : Type ℓ} (P : A → Type κ) (Q : A → Type λ') (call : Outcome A)
    → Ensures P call
    → ((value : A) → P value → Q value)
    → Ensures Q call
Ensures-map P Q (ok v) h k = k v h
Ensures-map P Q (exits code) h k = tt
Ensures-map P Q aborts h k = tt
Ensures-map P Q faults h k = tt

-- What follows a call holds if it holds for each of its results.
pub Ensures->>= {ℓ κ μ ν} :
    {A : Type ℓ} {B : Type κ} (P : A → Type μ) (Q : B → Type ν) (call : Outcome A)
    (next : A → Outcome B)
    → Ensures P call
    → ((value : A) → P value → Ensures Q (next value))
    → Ensures Q (call >>= next)
Ensures->>= P Q (ok v) next h k = k v h
Ensures->>= P Q (exits code) next h k = tt
Ensures->>= P Q aborts next h k = tt
Ensures->>= P Q faults next h k = tt

pub Ensures-both {ℓ κ μ} :
    {A : Type ℓ} (P : A → Type κ) (Q : A → Type μ) (call : Outcome A)
    → Ensures P call
    → Ensures Q call
    → Ensures (λ value. P value × Q value) call
Ensures-both P Q (ok v) h k = (h, k)
Ensures-both P Q (exits code) h k = tt
Ensures-both P Q aborts h k = tt
Ensures-both P Q faults h k = tt

-- A result of which nothing is known.
abbrev pub Any {ℓ} : {A : Type ℓ} → A → Type 0
Any a = Unit {0}

pub Ensures-any {ℓ} : {A : Type ℓ} (call : Outcome A) → Ensures (λ (value : A). Unit {0}) call
Ensures-any (ok v) = tt
Ensures-any (exits code) = tt
Ensures-any aborts = tt
Ensures-any faults = tt

-- What holds of each result holds of the call.
pub Ensures-of {ℓ κ} :
    {A : Type ℓ} (P : A → Type κ) (call : Outcome A)
    → ((value : A) → call ≡ ok value → P value)
    → Ensures P call
Ensures-of P (ok v) h = h v refl
Ensures-of P (exits code) h = tt
Ensures-of P aborts h = tt
Ensures-of P faults h = tt

-- What an optional result is, if there is one.
abbrev pub IfSome {ℓ κ} : {A : Type ℓ} → (A → Type κ) → Option A → Type κ
IfSome P none = Unit
IfSome P (some a) = P a

pub IfSome-if {ℓ κ} :
    {A : Type ℓ} (P : A → Type κ) (b : Bool) (x y : Option A)
    → IfSome P x
    → IfSome P y
    → IfSome P (if b then x else y)
IfSome-if P true x y hx hy = hx
IfSome-if P false x y hx hy = hy

pub IfSome-of {ℓ κ} :
    {A : Type ℓ} (P : A → Type κ) (o : Option A)
    → ((value : A) → o ≡ some value → P value)
    → IfSome P o
IfSome-of P none h = tt
IfSome-of P (some v) h = h v refl

pub IfSome-Any {ℓ} : {A : Type ℓ} (o : Option A) → IfSome Any o
IfSome-Any none = tt
IfSome-Any (some a) = tt
