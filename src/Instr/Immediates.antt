-- ===== src/Instr/Immediates.antt =====
-- What the immediates of difftest/src/rv_core.hpp stand for.
use hdu_riscv_lab.Prelude.{
  ℕ, ◌+◌, ◌-◌, ◌*◌, ◌/◌, ◌%◌, ◌^◌, ◌<◌, ◌≡◌, ◌↔◌, sym, ap, ◌∙◌, arith, bit_or,
}
use hdu_riscv_lab.Word.{sext, shl64, get_bits, shr, add64}
use hdu_riscv_lab.Word.Bits.{bit_or-shifted, bit_xor-zero_within}
use hdu_riscv_lab.Word.Digits.{bit_xor_digit}
use hdu_riscv_lab.Instr.{imm12, s_imm, b_imm, j_imm, jalr_imm}

-- The low 12, 13 and 21 bits of the immediates, put together as the instruction formats say.
abbrev pub s_field : ℕ → ℕ
s_field w = get_bits 25 7 w * 2 ^ 5 + get_bits 7 5 w

abbrev pub b_field : ℕ → ℕ
b_field w =
    get_bits 31 1 w * 2 ^ 12
    + get_bits 7 1 w * 2 ^ 11
    + get_bits 25 6 w * 2 ^ 5
    + get_bits 8 4 w * 2

abbrev pub j_field : ℕ → ℕ
j_field w =
    get_bits 31 1 w * 2 ^ 20
    + get_bits 12 8 w * 2 ^ 12
    + get_bits 20 1 w * 2 ^ 11
    + get_bits 21 10 w * 2

-- `|` of a word whose `k` lower bits are 0, and a value below `2 ^ k`.
bit_or-add : (k x r : ℕ) → x ≡ x / 2 ^ k * 2 ^ k → r < 2 ^ k → bit_or x r ≡ x + r
bit_or-add k x r e h =
    ap (λ (t : ℕ). bit_or t r) e ∙ bit_or-shifted k (x / 2 ^ k) r h ∙ ap (λ (t : ℕ). t + r) (sym e)

s_imm-sext : (w : ℕ) → s_imm w ≡ sext 12 (s_field w)
s_imm-sext w =
    bit_or-add 5 (shl64 (sext 7 (shr w 25)) 5) (get_bits 7 5 w) (ground arith) (ground arith)
    ∙ ground arith

-- Three fields below a first part, each under the lowest bit of the one before.
bit_or-add3 :
    (k1 k2 k3 x y1 y2 y3 : ℕ)
    → x ≡ x / 2 ^ k1 * 2 ^ k1
    → y1 < 2 ^ k1
    → x + y1 ≡ (x + y1) / 2 ^ k2 * 2 ^ k2
    → y2 < 2 ^ k2
    → x + y1 + y2 ≡ (x + y1 + y2) / 2 ^ k3 * 2 ^ k3
    → y3 < 2 ^ k3
    → bit_or (bit_or (bit_or x y1) y2) y3 ≡ x + y1 + y2 + y3
bit_or-add3 k1 k2 k3 x y1 y2 y3 e1 h1 e2 h2 e3 h3 =
    rw (bit_or-add k1 x y1 e1 h1, bit_or-add k2 (x + y1) y2 e2 h2)
      (bit_or-add k3 (x + y1 + y2) y3 e3 h3)

b_parts :
    (a b c d : ℕ)
    → b < 2
    → c < 64
    → d < 16
    → shl64 (sext 1 a) 12 + shl64 b 11 + shl64 c 5 + shl64 d 1
      ≡ sext 13 (a % 2 ^ 1 * 2 ^ 12 + b * 2 ^ 11 + c * 2 ^ 5 + d * 2)
b_parts a b c d hb hc hd = ground arith

j_parts :
    (a b c d : ℕ)
    → b < 256
    → c < 2
    → d < 1024
    → shl64 (sext 1 a) 20 + shl64 b 12 + shl64 c 11 + shl64 d 1
      ≡ sext 21 (a % 2 ^ 1 * 2 ^ 20 + b * 2 ^ 12 + c * 2 ^ 11 + d * 2)
j_parts a b c d hb hc hd = ground arith

b_imm-sext : (w : ℕ) → b_imm w ≡ sext 13 (b_field w)
b_imm-sext w =
    bit_or-add3 12 11 5 (shl64 (sext 1 (shr w 31)) 12) (shl64 (get_bits 7 1 w) 11)
      (shl64 (get_bits 25 6 w) 5) (shl64 (get_bits 8 4 w) 1) (ground arith) (ground arith)
      (ground arith) (ground arith) (ground arith) (ground arith)
    ∙ b_parts (shr w 31) (get_bits 7 1 w) (get_bits 25 6 w) (get_bits 8 4 w) (omega arith)
        (omega arith) (omega arith)

j_imm-sext : (w : ℕ) → j_imm w ≡ sext 21 (j_field w)
j_imm-sext w =
    bit_or-add3 20 12 11 (shl64 (sext 1 (shr w 31)) 20) (shl64 (get_bits 12 8 w) 12)
      (shl64 (get_bits 20 1 w) 11) (shl64 (get_bits 21 10 w) 1) (ground arith) (ground arith)
      (ground arith) (ground arith) (ground arith) (ground arith)
    ∙ j_parts (shr w 31) (get_bits 12 8 w) (get_bits 20 1 w) (get_bits 21 10 w) (omega arith)
        (omega arith) (omega arith)

-- The immediates of stores, branches and `jal` are the 12, 13 and 21 bits that the formats of the
-- instruction set spread over the word, sign-extended to 64 bits.
pub immediates-sext :
    (w : ℕ)
    → (s_imm w ≡ sext 12 (s_field w))
      × (b_imm w ≡ sext 13 (b_field w))
      × (j_imm w ≡ sext 21 (j_field w))
immediates-sext w = (s_imm-sext w, b_imm-sext w, j_imm-sext w)

jalr_imm-even : (w : ℕ) → jalr_imm w ≡ imm12 w - imm12 w % 2
jalr_imm-even w = ground (
  arith,
  bit_xor_digit (imm12 w) 1,
  bit_xor-zero_within (imm12 w / 2) (imm12 w / 2) (omega arith),
)

-- `jalr` clears the lowest bit of the immediate, and the instruction set that of the sum. The targets are
-- the same exactly if the base register is even.
pub jalr_target_iff :
    (w base : ℕ)
    → base < 2 ^ 64
    → (add64 base (jalr_imm w) ≡ add64 base (imm12 w) - add64 base (imm12 w) % 2) ↔ (base % 2 ≡ 0)
jalr_target_iff w base fits = rw (jalr_imm-even w) (
  λ same. lowest_bit base (imm12 w) fits (sext-lt w) same,
  λ even. even_base base (imm12 w) fits (sext-lt w) even,
)
  where
    sext-lt : (w : ℕ) → imm12 w < 2 ^ 64
    sext-lt w = ground arith

    lowest_bit :
        (base i : ℕ)
        → base < 2 ^ 64
        → i < 2 ^ 64
        → add64 base (i - i % 2) ≡ add64 base i - add64 base i % 2
        → base % 2 ≡ 0
    lowest_bit base i h g e = omega arith

    even_base :
        (base i : ℕ)
        → base < 2 ^ 64
        → i < 2 ^ 64
        → base % 2 ≡ 0
        → add64 base (i - i % 2) ≡ add64 base i - add64 base i % 2
    even_base base i h g e = omega arith
