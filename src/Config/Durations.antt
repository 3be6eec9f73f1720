-- ===== src/Config/Durations.antt =====
-- `parse_go_duration` of src/config.rs; a `Duration` is a number of milliseconds.
pub mod Printed
pub mod Progress
use harbor_router.Common.{
  ℕ, zero, suc, ◌+◌, ◌%◌, ◌^◌, Bool, true, false, ◌||◌, Option, none, some, List, [], ◌∷◌, ◌==◌,
  if◌then◌else◌, is_empty, length, is_ascii_digit, Text,
}
use harbor_router.Config.Floats.{parse_f64, times, as_u64}

abbrev pub is_number_char : ℕ → Bool
is_number_char c = is_ascii_digit c || c == b'.'

-- The inner loop: the digits and points in front, and the rest.
unfoldable pub take_number : Text → Text × Text
take_number [] = ([], [])
take_number (c ∷ s) =
    let (number, rest) = take_number s in
    if is_number_char c then (c ∷ number, rest) else ([], c ∷ s)

-- The milliseconds in the unit of one character.
unfoldable pub unit_ms : ℕ → Option ℕ
unit_ms c =
    if c == b's'
    then some 1000
    else if c == b'm'
    then some 60000
    else if c == b'h'
    then some 3600000
    else none

unfoldable pub one_char_unit : (n c : ℕ) → Text → Option (ℕ × Text)
one_char_unit n c rest = elim (unit_ms c) [ none ↦ none | some k ↦ some (as_u64 (times n k), rest) ]

-- The unit behind a number n, in milliseconds with what follows it. "ms" is tried first.
unfoldable pub take_unit : ℕ → Text → Option (ℕ × Text)
take_unit n [] = none
take_unit n (c ∷ []) = one_char_unit n c []
take_unit n (c ∷ d ∷ rest) =
    let single = one_char_unit n c (d ∷ rest) in
    elim (c == b'm') [
      | true ↦ elim (d == b's') [ true ↦ some (as_u64 n, rest) | false ↦ single ]
      | false ↦ single
    ]

-- One round of the outer loop.
unfoldable pub take_component : Text → Option (ℕ × Text)
take_component s =
    let (number, rest) = take_number s in
    elim (is_empty number) [
      | true ↦ none
      | false ↦ elim (parse_f64 number) [ none ↦ none | some n ↦ take_unit n rest ]
    ]

-- The sum is of u64, in a build without overflow checks.
unfoldable pub components : (fuel total_ms : ℕ) → Text → Option ℕ
components fuel total_ms [] = some total_ms
components zero total_ms (_ ∷ _) = none
components (suc fuel) total_ms (c ∷ s) = elim (take_component (c ∷ s)) [
  | none ↦ none
  | some (ms, rest) ↦ components fuel ((total_ms + ms) % 2 ^ 64) rest
]

-- Every round reads at least one character.
unfoldable pub parse_go_duration : Text → Option ℕ
parse_go_duration s = if is_empty s then none else components (length s) 0 s
