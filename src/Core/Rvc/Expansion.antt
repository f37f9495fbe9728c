-- ===== src/Core/Rvc/Expansion.antt =====
-- The 32-bit instructions that the compressed ones stand for, as the manual of the instruction set
-- gives them: an immediate is the list of the bits that it is made of, the lowest first.
use hdu_riscv_lab.Prelude.{ℕ, ◌+◌, ◌-◌, ◌*◌, ◌^◌, ◌≡◌, ◌≢◌, List, [], ◌∷◌, ltb, if◌then◌else◌}
use hdu_riscv_lab.Word.{get_bits}
use hdu_riscv_lab.Instr.Formats.{r_type, i_type, s_type, u_type}

abbrev pub gathered : ℕ → List ℕ → ℕ
gathered inst [] = 0
gathered inst (k ∷ ks) = get_bits k 1 inst + 2 * gathered inst ks

-- A field of `n` bits with the value of one of `k` bits that has a sign.
abbrev pub signed_field : ℕ → ℕ → ℕ → ℕ
signed_field k n v = if ltb v (2 ^ (k - 1)) then v else v + 2 ^ n - 2 ^ k

-- The two lowest and the three highest bits name a group.
abbrev pub IsGroup : ℕ → ℕ → ℕ → Type 0
IsGroup inst quadrant funct3 = (get_bits 0 2 inst ≡ quadrant) × (get_bits 13 3 inst ≡ funct3)

abbrev pub reg_full : ℕ → ℕ
reg_full = get_bits 7 5

abbrev pub reg_full2 : ℕ → ℕ
reg_full2 = get_bits 2 5

abbrev pub reg_short : ℕ → ℕ
reg_short inst = 8 + get_bits 7 3 inst

abbrev pub reg_short2 : ℕ → ℕ
reg_short2 inst = 8 + get_bits 2 3 inst

abbrev pub addi4spn_bits : ℕ → ℕ
addi4spn_bits inst = 4 * gathered inst (6 ∷ 5 ∷ 11 ∷ 12 ∷ 7 ∷ 8 ∷ 9 ∷ 10 ∷ [])

abbrev pub word_bits : ℕ → ℕ
word_bits inst = 4 * gathered inst (6 ∷ 10 ∷ 11 ∷ 12 ∷ 5 ∷ [])

abbrev pub double_bits : ℕ → ℕ
double_bits inst = 8 * gathered inst (10 ∷ 11 ∷ 12 ∷ 5 ∷ 6 ∷ [])

abbrev pub bits6 : ℕ → ℕ
bits6 inst = gathered inst (2 ∷ 3 ∷ 4 ∷ 5 ∷ 6 ∷ 12 ∷ [])

abbrev pub addi16spn_bits : ℕ → ℕ
addi16spn_bits inst = 16 * gathered inst (6 ∷ 2 ∷ 5 ∷ 3 ∷ 4 ∷ 12 ∷ [])

abbrev pub lwsp_bits : ℕ → ℕ
lwsp_bits inst = 4 * gathered inst (4 ∷ 5 ∷ 6 ∷ 12 ∷ 2 ∷ 3 ∷ [])

abbrev pub ldsp_bits : ℕ → ℕ
ldsp_bits inst = 8 * gathered inst (5 ∷ 6 ∷ 12 ∷ 2 ∷ 3 ∷ 4 ∷ [])

abbrev pub swsp_bits : ℕ → ℕ
swsp_bits inst = 4 * gathered inst (9 ∷ 10 ∷ 11 ∷ 12 ∷ 7 ∷ 8 ∷ [])

abbrev pub sdsp_bits : ℕ → ℕ
sdsp_bits inst = 8 * gathered inst (10 ∷ 11 ∷ 12 ∷ 7 ∷ 8 ∷ 9 ∷ [])

abbrev pub j_bits : ℕ → ℕ
j_bits inst = 2 * gathered inst (3 ∷ 4 ∷ 5 ∷ 11 ∷ 2 ∷ 7 ∷ 6 ∷ 9 ∷ 10 ∷ 8 ∷ 12 ∷ [])

abbrev pub b_bits : ℕ → ℕ
b_bits inst = 2 * gathered inst (3 ∷ 4 ∷ 10 ∷ 11 ∷ 2 ∷ 5 ∷ 6 ∷ 12 ∷ [])

-- The operations on two registers of 3 bits: bit 12 and bits 6 to 5, and opcode, funct3 and funct7.
pub data Arithmetic : ℕ → ℕ → ℕ → ℕ → ℕ → Type 0 where
  as_sub : Arithmetic 0 0 0x33 0 0x20
  as_xor : Arithmetic 0 1 0x33 4 0
  as_or : Arithmetic 0 2 0x33 6 0
  as_and : Arithmetic 0 3 0x33 7 0
  as_subw : Arithmetic 1 0 0x3b 0 0x20
  as_addw : Arithmetic 1 1 0x3b 0 0

-- The instructions that compute, load and store, without those whose operands are reserved or hints.
pub data Expands (inst : ℕ) : ℕ → Type 0 where
  as_addi4spn :
      IsGroup inst 0 0
      → addi4spn_bits inst ≢ 0
      → Expands inst (i_type 0x13 (reg_short2 inst) 0 2 (addi4spn_bits inst))
  as_lw :
      IsGroup inst 0 2
      → Expands inst (i_type 3 (reg_short2 inst) 2 (reg_short inst) (word_bits inst))
  as_ld :
      IsGroup inst 0 3
      → Expands inst (i_type 3 (reg_short2 inst) 3 (reg_short inst) (double_bits inst))
  as_sw :
      IsGroup inst 0 6
      → Expands inst (s_type 0x23 2 (reg_short inst) (reg_short2 inst) (word_bits inst))
  as_sd :
      IsGroup inst 0 7
      → Expands inst (s_type 0x23 3 (reg_short inst) (reg_short2 inst) (double_bits inst))
  as_addi :
      IsGroup inst 1 0
      → bits6 inst ≢ 0
      → Expands inst
          (i_type 0x13 (reg_full inst) 0 (reg_full inst) (signed_field 6 12 (bits6 inst)))
  as_addiw :
      IsGroup inst 1 1
      → Expands inst
          (i_type 0x1b (reg_full inst) 0 (reg_full inst) (signed_field 6 12 (bits6 inst)))
  as_li :
      IsGroup inst 1 2
      → Expands inst (i_type 0x13 (reg_full inst) 0 0 (signed_field 6 12 (bits6 inst)))
  as_addi16sp :
      IsGroup inst 1 3
      → reg_full inst ≡ 2
      → addi16spn_bits inst ≢ 0
      → Expands inst (i_type 0x13 2 0 2 (signed_field 10 12 (addi16spn_bits inst)))
  as_lui :
      IsGroup inst 1 3
      → reg_full inst ≢ 2
      → bits6 inst ≢ 0
      → Expands inst (u_type 0x37 (reg_full inst) (signed_field 6 20 (bits6 inst)))
  as_srli :
      IsGroup inst 1 4
      → get_bits 10 2 inst ≡ 0
      → bits6 inst ≢ 0
      → Expands inst (i_type 0x13 (reg_short inst) 5 (reg_short inst) (bits6 inst))
  as_srai :
      IsGroup inst 1 4
      → get_bits 10 2 inst ≡ 1
      → bits6 inst ≢ 0
      → Expands inst (i_type 0x13 (reg_short inst) 5 (reg_short inst) (0x400 + bits6 inst))
  as_andi :
      IsGroup inst 1 4
      → get_bits 10 2 inst ≡ 2
      → Expands inst
          (i_type 0x13 (reg_short inst) 7 (reg_short inst) (signed_field 6 12 (bits6 inst)))
  as_arithmetic :
      (op funct3 funct7 : ℕ)
      → IsGroup inst 1 4
      → get_bits 10 2 inst ≡ 3
      → Arithmetic (get_bits 12 1 inst) (get_bits 5 2 inst) op funct3 funct7
      → Expands inst (r_type op (reg_short inst) funct3 (reg_short inst) (reg_short2 inst) funct7)
  as_slli :
      IsGroup inst 2 0
      → bits6 inst ≢ 0
      → Expands inst (i_type 0x13 (reg_full inst) 1 (reg_full inst) (bits6 inst))
  as_lwsp : IsGroup inst 2 2 → Expands inst (i_type 3 (reg_full inst) 2 2 (lwsp_bits inst))
  as_ldsp : IsGroup inst 2 3 → Expands inst (i_type 3 (reg_full inst) 3 2 (ldsp_bits inst))
  as_mv :
      IsGroup inst 2 4
      → get_bits 12 1 inst ≡ 0
      → reg_full2 inst ≢ 0
      → Expands inst (r_type 0x33 (reg_full inst) 0 0 (reg_full2 inst) 0)
  as_add :
      IsGroup inst 2 4
      → get_bits 12 1 inst ≡ 1
      → reg_full2 inst ≢ 0
      → Expands inst (r_type 0x33 (reg_full inst) 0 (reg_full inst) (reg_full2 inst) 0)
  as_swsp : IsGroup inst 2 6 → Expands inst (s_type 0x23 2 2 (reg_full2 inst) (swsp_bits inst))
  as_sdsp : IsGroup inst 2 7 → Expands inst (s_type 0x23 3 2 (reg_full2 inst) (sdsp_bits inst))
