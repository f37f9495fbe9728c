-- ===== src/Core/Typed.antt =====
-- What the state of `rv_core` (difftest/src/rv_core.hpp) holds: words of 64 bits in the registers, the
-- pc and the CSRs, and bytes in the memories.
use hdu_riscv_lab.Prelude.{ℕ, ◌^◌, ◌<◌, arith}
use hdu_riscv_lab.Bytes.{AllBelow}
use hdu_riscv_lab.Bytes.Reads.{get_or-AllBelow}
use hdu_riscv_lab.Bus.Typed.{HasBytes}
use hdu_riscv_lab.Priv.Typed as Priv
use hdu_riscv_lab.Core.{Core, reg}

abbrev pub IsTyped : Core → Type 0
IsTyped c = AllBelow (2 ^ 64) c.gpr × (c.pc < 2 ^ 64) × Priv.IsTyped c.priv × HasBytes c.bus

pub reg-lt : (c : Core) (i : ℕ) → IsTyped c → reg c i < 2 ^ 64
reg-lt c i (words, at, csrs, bytes) = get_or-AllBelow (2 ^ 64) c.gpr i (omega arith) words
