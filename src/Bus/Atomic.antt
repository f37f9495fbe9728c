-- ===== src/Bus/Atomic.antt =====
-- The atomic memory operations: what they store, and the register that they read.
use native.Mathlib.Nat.{mod-eq_of_lt}
use hdu_riscv_lab.Prelude.{
  ℕ, zero, suc, ◌+◌, ◌-◌, ◌*◌, ◌/◌, ◌%◌, ◌^◌, ◌≤◌, ◌<◌, ◌≡◌, ◌≢◌, refl, ◌∙◌, arith, ltb,
  if◌then◌else◌, ok, min, max, bit_and, bit_or, bit_xor,
}
use hdu_riscv_lab.Word.{u32, sext32}
use hdu_riscv_lab.Word.Int.{ℤ, pos, negsuc, ltb_ℤ}
use hdu_riscv_lab.Word.Signed.{u32-sext32}
use hdu_riscv_lab.Word.Bits.{mod-pow-suc}
use hdu_riscv_lab.Word.Digits.{bit_and_digit, bit_or_digit, bit_xor_digit}
use hdu_riscv_lab.Bus.{
  AmoFunct, amolr, amosc, amoswap, amoadd, amoxor, amoand, amoor, amomin, amomax, amominu, amomaxu,
  amo_result,
}

-- The low bits of `&`, `|` and `^` are those of the low bits.
bit_and-mod : (k a b : ℕ) → bit_and a b % 2 ^ k ≡ bit_and (a % 2 ^ k) (b % 2 ^ k)
bit_and-mod zero a b =
    let x : a % 1 ≡ 0 = omega arith in let y : b % 1 ≡ 0 = omega arith in rw (x, y) (omega arith)
bit_and-mod (suc k) a b =
    let x = a / 2 % 2 ^ k * 2 + a % 2 in
    let y = b / 2 % 2 ^ k * 2 + b % 2 in
    let x_half : x / 2 ≡ a / 2 % 2 ^ k = omega arith in
    let y_half : y / 2 ≡ b / 2 % 2 ^ k = omega arith in
    let half : bit_and a b / 2 ≡ bit_and (a / 2) (b / 2) = omega (arith, bit_and_digit a b) in
    rw
      (
        mod-pow-suc a k,
        mod-pow-suc b k,
        mod-pow-suc (bit_and a b) k,
        bit_and_digit x y,
        x_half,
        y_half,
        half,
      )
      (omega (arith, bit_and_digit a b, bit_and-mod k (a / 2) (b / 2)))

bit_or-mod : (k a b : ℕ) → bit_or a b % 2 ^ k ≡ bit_or (a % 2 ^ k) (b % 2 ^ k)
bit_or-mod zero a b =
    let x : a % 1 ≡ 0 = omega arith in let y : b % 1 ≡ 0 = omega arith in rw (x, y) (omega arith)
bit_or-mod (suc k) a b =
    let x = a / 2 % 2 ^ k * 2 + a % 2 in
    let y = b / 2 % 2 ^ k * 2 + b % 2 in
    let x_half : x / 2 ≡ a / 2 % 2 ^ k = omega arith in
    let y_half : y / 2 ≡ b / 2 % 2 ^ k = omega arith in
    let half : bit_or a b / 2 ≡ bit_or (a / 2) (b / 2) = omega (arith, bit_or_digit a b) in
    rw
      (
        mod-pow-suc a k,
        mod-pow-suc b k,
        mod-pow-suc (bit_or a b) k,
        bit_or_digit x y,
        x_half,
        y_half,
        half,
      )
      (omega (arith, bit_or_digit a b, bit_or-mod k (a / 2) (b / 2)))

bit_xor-mod : (k a b : ℕ) → bit_xor a b % 2 ^ k ≡ bit_xor (a % 2 ^ k) (b % 2 ^ k)
bit_xor-mod zero a b =
    let x : a % 1 ≡ 0 = omega arith in let y : b % 1 ≡ 0 = omega arith in rw (x, y) (omega arith)
bit_xor-mod (suc k) a b =
    let x = a / 2 % 2 ^ k * 2 + a % 2 in
    let y = b / 2 % 2 ^ k * 2 + b % 2 in
    let x_half : x / 2 ≡ a / 2 % 2 ^ k = omega arith in
    let y_half : y / 2 ≡ b / 2 % 2 ^ k = omega arith in
    let half : bit_xor a b / 2 ≡ bit_xor (a / 2) (b / 2) = omega (arith, bit_xor_digit a b) in
    rw
      (
        mod-pow-suc a k,
        mod-pow-suc b k,
        mod-pow-suc (bit_xor a b) k,
        bit_xor_digit x y,
        x_half,
        y_half,
        half,
      )
      (omega (arith, bit_xor_digit a b, bit_xor-mod k (a / 2) (b / 2)))

-- The 32-bit operations of the RISC-V manual, on two 32-bit patterns: the register's and the old one.
abbrev pub signed32 : ℕ → ℤ
signed32 w = if ltb w (2 ^ 31) then pos w else negsuc (2 ^ 32 - w - 1)

abbrev pub amo32 : AmoFunct → ℕ → ℕ → ℕ
amo32 amoswap s r = s
amo32 amoadd s r = (s + r) % 2 ^ 32
amo32 amoand s r = bit_and s r
amo32 amoor s r = bit_or s r
amo32 amoxor s r = bit_xor s r
amo32 amomax s r = if ltb_ℤ (signed32 s) (signed32 r) then r else s
amo32 amomin s r = if ltb_ℤ (signed32 r) (signed32 s) then r else s
amo32 amomaxu s r = max s r
amo32 amominu s r = min s r
amo32 amolr s r = r
amo32 amosc s r = r

module _ (src old : ℕ) (old_fits : old < 2 ^ 32) (canonical : sext32 src ≡ src) where
  abbrev IsWord : AmoFunct → Type 0
  IsWord op = (w : ℕ) × (amo_result op src (sext32 old) ≡ ok w) × (u32 w ≡ amo32 op (u32 src) old)

  old_word : u32 (sext32 old) ≡ old
  old_word = u32-sext32 old ∙ mod-eq_of_lt old_fits

  -- On 4 bytes the low half of what is stored is what the manual says, where the register holds a
  -- sign-extended 32-bit number.
  pub amo_result-IsWord : (op : AmoFunct) → op ≢ amolr → op ≢ amosc → IsWord op
  unfolding amo_result
  amo_result-IsWord amoswap p q = (_, refl, refl)
  amo_result-IsWord amoadd p q = (_, refl, omega (arith, old_word))
  amo_result-IsWord amoand p q = (_, refl, bit_and-mod 32 src (sext32 old) ∙ rw old_word)
  amo_result-IsWord amoor p q = (_, refl, bit_or-mod 32 src (sext32 old) ∙ rw old_word)
  amo_result-IsWord amoxor p q = (_, refl, bit_xor-mod 32 src (sext32 old) ∙ rw old_word)
  amo_result-IsWord amomin p q = (_, refl, ground arith)
  amo_result-IsWord amomax p q = (_, refl, ground arith)
  amo_result-IsWord amominu p q = (_, refl, ground arith)
  amo_result-IsWord amomaxu p q = (_, refl, ground arith)
  amo_result-IsWord amolr p q = absurd (p refl)
  amo_result-IsWord amosc p q = absurd (q refl)

-- On a register whose value is positive and has a bit above the low half, `amomax.w` compares the
-- whole register: where its low half is below the positive old word, the low half is stored all the
-- same, and the instruction set keeps the old word.
pub amomax_upper_bits :
    (src old : ℕ)
    → 2 ^ 32 ≤ src
    → src < 2 ^ 63
    → old < 2 ^ 31
    → u32 src < old
    → (w : ℕ) × (amo_result amomax src (sext32 old) ≡ ok w)
      × (u32 w ≡ u32 src)
      × (amo32 amomax (u32 src) old ≡ old)
unfolding amo_result
amomax_upper_bits src old above below fits low = (src, ground arith, refl, ground arith)
