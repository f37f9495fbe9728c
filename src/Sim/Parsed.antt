-- ===== src/Sim/Parsed.antt =====
-- What no argument of difftest/src/sim_mycpu.cpp can change.
use Prim.Native.String.{String}
use text.Mathlib.Text.{◌==◌ as equal}
use hdu_riscv_lab.Prelude.{
  ◌≡◌, ◌≢◌, ◌⊎◌, inl, inr, refl, true, false, List, [], ◌∷◌, either, Bool-cases,
}
use hdu_riscv_lab.Sim.Options.{
  nop, Args, Pending, sim_time_next, start_time_next, nothing, value, option, plain, parse,
  defaults,
}

-- What no argument can change.
abbrev pub IsFixed : Args → Pending → Type 0
IsFixed a waits =
    (a.flags.dual_issue ≡ false)
    × (a.run_mode ≢ nop)
    × ((a.flags.trace_on ≡ true) ⊎ ((a.sim_time ≡ 100000000) × (waits ≢ sim_time_next)))

abbrev After : Args × Pending → Type 0
After (a, waits) = IsFixed a waits

abbrev Plain : Args → Type 0
Plain a = IsFixed a nothing

plain-IsFixed : (arg : String) (a : Args) → IsFixed a nothing → Plain (plain arg a)
unfolding plain
plain-IsFixed arg a (d, m, t) = elim (Bool-cases (equal arg "-rvtest")) [
  | inl this ↦ rw this (d, (λ e. cc), t)
  | inr other ↦ rw other (elim (Bool-cases (equal arg "-perf")) [
    | inl this ↦ rw this (d, m, t)
    | inr other ↦ rw other (elim (Bool-cases (equal arg "-pc")) [
      | inl this ↦ rw this (d, m, t)
      | inr other ↦ rw other (elim (Bool-cases (equal arg "-printpc")) [
        | inl this ↦ rw this (d, m, t)
        | inr other ↦ rw other (elim (Bool-cases (equal arg "-delay")) [
          | inl this ↦ rw this (d, m, t)
          | inr other ↦ rw other (elim (Bool-cases (equal arg "-cpu_trace")) [
            | inl this ↦ rw this (d, (λ e. cc), t)
            | inr other ↦ rw other (elim (Bool-cases (equal arg "-initgprs")) [
              | inl this ↦ rw this (d, m, t)
              | inr other ↦ rw other (elim (Bool-cases (equal arg "-writeappend")) [
                | inl this ↦ rw this (d, m, t)
                | inr other ↦ rw other (elim (Bool-cases (equal arg "-hasdelayslot")) [
                  | inl this ↦ rw this (d, m, t)
                  | inr other ↦ rw other (elim (Bool-cases (equal arg "-onlymodem")) [
                    | inl this ↦ rw this (d, m, t)
                    | inr other ↦ rw other (d, m, t)
                  ])
                ])
              ])
            ])
          ])
        ])
      ])
    ])
  ])
]

option-IsFixed : (arg : String) (a : Args) → IsFixed a nothing → After (option arg a)
unfolding option
option-IsFixed arg a (d, m, t) =
    either After (equal arg "-trace")
      (record a { flags = record a.flags { trace_on = true } }, sim_time_next) _ (d, m, inl refl)
      (either After (equal arg "-starttrace") (a, start_time_next) (plain arg a, nothing)
        (d, m, elim t [ inl on ↦ inl on | inr (limit, w) ↦ inr (limit, λ e. cc) ])
        (plain-IsFixed arg a (d, m, t)))

parse-IsFixed_within :
    (args : List String) (waits : Pending) (a : Args)
    → IsFixed a waits
    → IsFixed (parse waits args a) nothing
unfolding parse value
parse-IsFixed_within [] waits a (d, m, t) =
    (d, m, elim t [ inl on ↦ inl on | inr (limit, w) ↦ inr (limit, λ e. cc) ])
parse-IsFixed_within (arg ∷ args) sim_time_next a (d, m, t) =
    parse-IsFixed_within args nothing (value sim_time_next arg a)
      (d, m, elim t [ inl on ↦ inl on | inr (limit, w) ↦ absurd (w refl) ])
parse-IsFixed_within (arg ∷ args) start_time_next a (d, m, t) =
    parse-IsFixed_within args nothing (value start_time_next arg a)
      (d, m, elim t [ inl on ↦ inl on | inr (limit, w) ↦ inr (limit, λ e. cc) ])
parse-IsFixed_within (arg ∷ args) nothing a h =
    parse-IsFixed_within args (option arg a).1 (option arg a).0 (option-IsFixed arg a h)

-- Whatever the arguments are, `dual_issue` stays off and the mode is never `NOP`; without `-trace` the
-- limit `sim_time` is its default, and nothing counts it down.
pub parse-IsFixed : (args : List String) → IsFixed (parse nothing args defaults) nothing
parse-IsFixed args =
    parse-IsFixed_within args nothing defaults (refl, (λ e. cc), inr (refl, λ e. cc))
