-- ===== src/Alu/Product.antt =====
-- The two halves of a product: ALU_MUL with ALU_MULH, ALU_MULHU and ALU_MULHSU.
use native.Mathlib.Nat.{mul_comm, mul-le-mul}
use hdu_riscv_lab.Prelude.{
  sym, ◌∙◌, ℕ, ◌+◌, ◌-◌, ◌*◌, ◌/◌, ◌%◌, ◌^◌, ◌<◌, ◌≤◌, ◌≡◌, refl, false, ok, arith, zero, suc, ap,
  inl, inr,
}
use hdu_riscv_lab.Word.{signed64, word64, u64, mul64}
use hdu_riscv_lab.Word.Int.{ℤ, pos, negsuc, ◌+ℤ◌, ◌*ℤ◌, neg, shr_ℤ}
use hdu_riscv_lab.Word.Signed.{IsInt64, signed64-word64, signed64-cases, signed64-IsInt64}
use hdu_riscv_lab.Alu.{alu_mul, alu_mulh, alu_mulhu, mulh, mulhu, alu_switch, alu_exec}

-- Unsigned: the halves put together are the product.
pub alu_exec-mulhu-mul :
    (a b : ℕ)
    → (h l : ℕ) × (alu_exec a b alu_mulhu false ≡ ok h)
      × (alu_exec a b alu_mul false ≡ ok l)
      × (h * 2 ^ 64 + l ≡ a * b)
unfolding alu_exec alu_switch mulhu
alu_exec-mulhu-mul a b = (a * b / 2 ^ 64, u64 (a * b), refl, refl, omega arith)

word64-neg : (n : ℕ) → word64 (neg n) ≡ (2 ^ 64 - n % 2 ^ 64) % 2 ^ 64
word64-neg zero = ground arith
word64-neg (suc n) = ground arith

-- The complement of `b` counts for -b modulo 2 ^ 64.
complement-* : (a b c : ℕ) → b + c ≡ 2 ^ 64 → (2 ^ 64 - a * c % 2 ^ 64) % 2 ^ 64 ≡ a * b % 2 ^ 64
complement-* a b c e = omega (arith, ap (λ (t : ℕ). a * t) e)

complements-* : (a b c d : ℕ) → a + c ≡ 2 ^ 64 → b + d ≡ 2 ^ 64 → c * d % 2 ^ 64 ≡ a * b % 2 ^ 64
complements-* a b c d e f = omega (arith, ap (λ (t : ℕ). c * t) f, ap (λ (t : ℕ). t * b) e)

-- The low half of the product of two patterns is that of the signed product.
word64-* : (a b : ℕ) → a < 2 ^ 64 → b < 2 ^ 64 → word64 (signed64 a *ℤ signed64 b) ≡ mul64 a b
word64-* a b ha hb = elim (signed64-cases a ha) [
  | inl (_, ea) ↦ elim (signed64-cases b hb) [
    | inl (_, eb) ↦ rw (ea, eb)
    | inr (c, e, eb) ↦ rw (ea, eb, word64-neg (a * (c + 1))) (complement-* a b (c + 1) e)
  ]
  | inr (c, e, ea) ↦ elim (signed64-cases b hb) [
    | inl (_, eb) ↦
        rw (ea, eb, word64-neg ((c + 1) * b), mul_comm (c + 1) b, mul_comm a b)
          (complement-* b a (c + 1) e)
    | inr (d, f, eb) ↦ rw (ea, eb) (complements-* a b (c + 1) (d + 1) e f)
  ]
]

-- A signed number is its upper half and its low half.
halves : (z : ℤ) → shr_ℤ z 64 *ℤ pos (2 ^ 64) +ℤ pos (word64 z) ≡ z
halves (pos n) = ground arith
halves (negsuc n) = ground arith

product-le : (x y : ℕ) → x ≤ 2 ^ 63 → y ≤ 2 ^ 63 → x * y ≤ 2 ^ 126
product-le x y h g = mul-le-mul h g

shr_ℤ-neg : (n : ℕ) → n ≤ 2 ^ 126 → IsInt64 (shr_ℤ (neg n) 64)
shr_ℤ-neg zero h = ground arith
shr_ℤ-neg (suc n) h = ground arith

shr_ℤ-*-IsInt64 : (x y : ℤ) → IsInt64 x → IsInt64 y → IsInt64 (shr_ℤ (x *ℤ y) 64)
shr_ℤ-*-IsInt64 (pos a) (pos b) (h, _) (g, _) =
    omega (arith, product-le a b (omega arith) (omega arith))
shr_ℤ-*-IsInt64 (pos a) (negsuc b) (h, _) (_, g) =
    shr_ℤ-neg (a * (b + 1)) (product-le a (b + 1) (omega arith) (omega arith))
shr_ℤ-*-IsInt64 (negsuc a) (pos b) (_, h) (g, _) =
    shr_ℤ-neg ((a + 1) * b) (product-le (a + 1) b (omega arith) (omega arith))
shr_ℤ-*-IsInt64 (negsuc a) (negsuc b) (_, h) (_, g) =
    omega (arith, product-le (a + 1) (b + 1) (omega arith) (omega arith))

-- Signed: the upper half as a signed number and the lower half as an unsigned one are the product.
pub alu_exec-mulh-mul :
    (a b : ℕ)
    → a < 2 ^ 64
    → b < 2 ^ 64
    → (h l : ℕ) × (alu_exec a b alu_mulh false ≡ ok h)
      × (alu_exec a b alu_mul false ≡ ok l)
      × (signed64 h *ℤ pos (2 ^ 64) +ℤ pos l ≡ signed64 a *ℤ signed64 b)
unfolding alu_exec alu_switch mulh
alu_exec-mulh-mul a b ha hb = (
  mulh a b,
  mul64 a b,
  refl,
  refl,
  rw (exact, ← word64-* a b ha hb) (halves (signed64 a *ℤ signed64 b)),
)
  where
    exact : signed64 (mulh a b) ≡ shr_ℤ (signed64 a *ℤ signed64 b) 64
    exact =
        signed64-word64 _ (
          shr_ℤ-*-IsInt64 (signed64 a) (signed64 b) (signed64-IsInt64 a ha) (signed64-IsInt64 b hb))

-- The upper and the lower half of a product, signed by mulh and unsigned by mulhu, are together the
-- product of the operands; mul gives the lower half of both.
pub alu_exec-mul_halves :
    (a b : ℕ)
    → a < 2 ^ 64
    → b < 2 ^ 64
    → (h u l : ℕ) × (alu_exec a b alu_mulh false ≡ ok h)
      × (alu_exec a b alu_mulhu false ≡ ok u)
      × (alu_exec a b alu_mul false ≡ ok l)
      × (signed64 h *ℤ pos (2 ^ 64) +ℤ pos l ≡ signed64 a *ℤ signed64 b)
      × (u * 2 ^ 64 + l ≡ a * b)
alu_exec-mul_halves a b ha hb =
    let (h, l, mulh_h, mul_l, signed) = alu_exec-mulh-mul a b ha hb in
    let (u, l', mulhu_u, mul_l', unsigned) = alu_exec-mulhu-mul a b in
    let same : l' ≡ l = ok-same (sym mul_l' ∙ mul_l) in
    (h, u, l, mulh_h, mulhu_u, mul_l, signed, rw same at unsigned)
  where
    ok-same : {x y : ℕ} → ok x ≡ ok y → x ≡ y
    ok-same e = cc
