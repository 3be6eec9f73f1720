-- ===== src/Config/Durations/Progress.antt =====
-- The loop of `parse_go_duration` ends: a round reads at least one character.
use harbor_router.Common.{
  ℕ, zero, suc, ◌+◌, ◌%◌, ◌^◌, ◌≤◌, ◌<◌, ◌≡◌, refl, inl, inr, some, [], ◌∷◌, arith, ◌==◌,
  Bool-cases, Option-cases, length, Text,
}
use harbor_router.Config.Floats.{parse_f64}
use harbor_router.Config.Durations.{
  take_number, unit_ms, one_char_unit, take_unit, take_component, components,
}

length-take_number : (s : Text) → length (take_number s).0 + length (take_number s).1 ≡ length s
unfolding take_number
length-take_number [] = refl
length-take_number (c ∷ s) = ground (arith, length-take_number s)

one_char_unit-rest :
    (n c : ℕ) (s rest : Text) (ms : ℕ) → one_char_unit n c s ≡ some (ms, rest) → rest ≡ s
unfolding one_char_unit
one_char_unit-rest n c s rest ms e = ground (arith, Option-cases (unit_ms c))

take_unit-shorter :
    (n : ℕ) (s rest : Text) (ms : ℕ) → take_unit n s ≡ some (ms, rest) → length rest < length s
unfolding take_unit
take_unit-shorter n [] rest ms e = cc
take_unit-shorter n (c ∷ []) rest ms e = rw (one_char_unit-rest n c [] rest ms e) (omega arith)
take_unit-shorter n (c ∷ d ∷ s) rest ms e =
    ground (
      arith,
      Bool-cases (c == b'm'),
      Bool-cases (d == b's'),
      one_char_unit-rest n c (d ∷ s) rest ms,
    )

take_component-shorter :
    (s rest : Text) (ms : ℕ) → take_component s ≡ some (ms, rest) → length rest < length s
unfolding take_component
take_component-shorter s rest ms e = elim (Option-cases (parse_f64 (take_number s).0)) [
  | inl bad ↦ absurd (ground arith)
  | inr (n, read) ↦
      ground (arith, take_unit-shorter n (take_number s).1 rest ms, length-take_number s)
]

components-fuel :
    (fuel fuel' sum : ℕ) (s : Text)
    → length s ≤ fuel
    → length s ≤ fuel'
    → components fuel sum s ≡ components fuel' sum s
unfolding components
components-fuel fuel fuel' sum [] h h' = ground arith
components-fuel zero fuel' sum (c ∷ s) h h' = absurd (omega arith)
components-fuel (suc fuel) zero sum (c ∷ s) h h' = absurd (omega arith)
components-fuel (suc fuel) (suc fuel') sum (c ∷ s) h h' =
    elim (Option-cases (take_component (c ∷ s))) [
      | inl bad ↦ rw (components, bad) refl
      | inr ((ms, rest), read) ↦
          rw (components, read)
            (let shorter = take_component-shorter (c ∷ s) rest ms read in
              components-fuel fuel fuel' ((sum + ms) % 2 ^ 64) rest (omega arith) (omega arith))
    ]
