-- ===== src/Config/Durations/Printed.antt =====
-- Durations as they are printed, a sum of whole numbers of units, and what the parser makes of them.
use harbor_router.Common.{
  ℕ, zero, suc, ◌+◌, ◌*◌, ◌%◌, ◌^◌, ◌≤◌, ◌<◌, ◌≡◌, refl, ◌∙◌, true, false, some, List, [], ◌∷◌,
  ◌++◌, arith, ◌==◌, is_empty, all, All, length, length-append, is_ascii_digit, starts_with,
  print_u64, all-print_u64, is_empty-print_u64, Text, codes,
}
use harbor_router.Config.Floats.{one, parse_f64, times, as_u64}
use harbor_router.Config.Floats.Exact.{times-exact, as_u64-whole, parse_f64-print_u64}
use harbor_router.Config.Durations.{
  is_number_char, take_number, unit_ms, one_char_unit, take_unit, take_component, components,
  parse_go_duration,
}

pub data DurationUnit : Type 0 where
  hours minutes seconds milliseconds : DurationUnit

abbrev pub unit_text : DurationUnit → Text
unit_text hours = codes "h"
unit_text minutes = codes "m"
unit_text seconds = codes "s"
unit_text milliseconds = codes "ms"

abbrev pub factor : DurationUnit → ℕ
factor hours = 3600000
factor minutes = 60000
factor seconds = 1000
factor milliseconds = 1

unfoldable pub print_duration : List (ℕ × DurationUnit) → Text
print_duration [] = []
print_duration ((n, u) ∷ ds) = print_u64 n ++ (unit_text u ++ print_duration ds)

unfoldable pub total : List (ℕ × DurationUnit) → ℕ
total [] = 0
total ((n, u) ∷ ds) = n * factor u + total ds

-- A component of fewer than 2^53 milliseconds.
abbrev pub IsExact : ℕ × DurationUnit → Type 0
IsExact (n, u) = n * factor u < 2 ^ 53

take_number-digits :
    (s rest : Text) (c : ℕ)
    → all is_ascii_digit s ≡ true
    → is_number_char c ≡ false
    → take_number (s ++ c ∷ rest) ≡ (s, c ∷ rest)
unfolding take_number
take_number-digits [] rest c h stop = ground arith
take_number-digits (d ∷ s) rest c h stop = ground (arith, take_number-digits s rest c)

scaled : (n k : ℕ) → n * k < 2 ^ 53 → as_u64 (times (n * one) k) ≡ n * k
scaled n k h = rw (times-exact n k h) (as_u64-whole (n * k) (omega arith))

plain_digits :
    (s rest : Text)
    → is_empty s ≡ false
    → all is_ascii_digit s ≡ true
    → starts_with (codes "s") (s ++ rest) ≡ false
unfolding starts_with
plain_digits [] rest some_digit h = ground arith
plain_digits (c ∷ s) rest some_digit h = ground arith

-- A unit is of one millisecond at least.
below : {n : ℕ} (u : DurationUnit) → n * factor u < 2 ^ 53 → n < 2 ^ 53
below hours h = omega arith
below minutes h = omega arith
below seconds h = omega arith
below milliseconds h = omega arith

take_number-printed :
    (n : ℕ) (u : DurationUnit) (rest : Text)
    → take_number (print_u64 n ++ (unit_text u ++ rest)) ≡ (print_u64 n, unit_text u ++ rest)
take_number-printed n hours rest = take_number-digits (print_u64 n) rest b'h' (all-print_u64 n) refl
take_number-printed n minutes rest =
    take_number-digits (print_u64 n) rest b'm' (all-print_u64 n) refl
take_number-printed n seconds rest =
    take_number-digits (print_u64 n) rest b's' (all-print_u64 n) refl
take_number-printed n milliseconds rest =
    take_number-digits (print_u64 n) (codes "s" ++ rest) b'm' (all-print_u64 n) refl

take_unit-printed :
    (n : ℕ) (u : DurationUnit) (rest : Text)
    → n * factor u < 2 ^ 53
    → starts_with (codes "s") rest ≡ false
    → take_unit (n * one) (unit_text u ++ rest) ≡ some (n * factor u, rest)
unfolding take_unit one_char_unit unit_ms starts_with
take_unit-printed n hours [] h plain = rw (scaled n 3600000 h) refl
take_unit-printed n hours (c ∷ rest) h plain = rw (scaled n 3600000 h) refl
take_unit-printed n minutes [] h plain = rw (scaled n 60000 h) refl
take_unit-printed n minutes (c ∷ rest) h plain =
    let other : (c == b's') ≡ false = ground arith in rw (take_unit, other, scaled n 60000 h) refl
take_unit-printed n seconds [] h plain = rw (scaled n 1000 h) refl
take_unit-printed n seconds (c ∷ rest) h plain = rw (scaled n 1000 h) refl
take_unit-printed n milliseconds rest h plain =
    let same : as_u64 (n * one) ≡ n * 1 = omega (arith, as_u64-whole n (omega arith)) in
    rw same refl

print_duration-plain :
    (ds : List (ℕ × DurationUnit)) → starts_with (codes "s") (print_duration ds) ≡ false
unfolding print_duration starts_with
print_duration-plain [] = refl
print_duration-plain ((n, u) ∷ ds) =
    plain_digits (print_u64 n) (unit_text u ++ print_duration ds) (is_empty-print_u64 n)
      (all-print_u64 n)

take_component_of :
    (s number rest : Text) (n : ℕ)
    → take_number s ≡ (number, rest)
    → is_empty number ≡ false
    → parse_f64 number ≡ some n
    → take_component s ≡ take_unit n rest
unfolding take_component
take_component_of s number rest n taken some_digit read =
    rw (take_component, taken, some_digit, taken, read, taken) refl

take_component-printed :
    (n : ℕ) (u : DurationUnit) (ds : List (ℕ × DurationUnit))
    → n * factor u < 2 ^ 53
    → take_component (print_duration ((n, u) ∷ ds)) ≡ some (n * factor u, print_duration ds)
unfolding print_duration
take_component-printed n u ds h =
    take_component_of (print_duration ((n, u) ∷ ds)) (print_u64 n)
      (unit_text u ++ print_duration ds) (n * one) (take_number-printed n u (print_duration ds))
      (is_empty-print_u64 n) (parse_f64-print_u64 n (below u h))
    ∙ take_unit-printed n u (print_duration ds) h (print_duration-plain ds)

components_step :
    (fuel sum ms : ℕ) (s rest : Text)
    → is_empty s ≡ false
    → take_component s ≡ some (ms, rest)
    → components (suc fuel) sum s ≡ components fuel ((sum + ms) % 2 ^ 64) rest
unfolding components
components_step fuel sum ms [] rest h e = cc
components_step fuel sum ms (c ∷ s) rest h e = rw (components, e) refl

is_empty-append : (s t : Text) → is_empty s ≡ false → is_empty (s ++ t) ≡ false
is_empty-append [] t h = cc
is_empty-append (_ ∷ _) t h = refl

is_empty-length : (s : Text) → is_empty s ≡ false → 1 ≤ length s
is_empty-length [] h = ground arith
is_empty-length (c ∷ s) h = omega arith

length-print_duration :
    (n : ℕ) (u : DurationUnit) (ds : List (ℕ × DurationUnit))
    → suc (length (print_duration ds)) ≤ length (print_duration ((n, u) ∷ ds))
unfolding print_duration
length-print_duration n u ds = omega (
  arith,
  length-append (print_u64 n) (unit_text u ++ print_duration ds),
  length-append (unit_text u) (print_duration ds),
  is_empty-length (print_u64 n) (is_empty-print_u64 n),
)

is_empty-print_duration :
    (n : ℕ) (u : DurationUnit) (ds : List (ℕ × DurationUnit))
    → is_empty (print_duration ((n, u) ∷ ds)) ≡ false
unfolding print_duration
is_empty-print_duration n u ds =
    is_empty-append (print_u64 n) (unit_text u ++ print_duration ds) (is_empty-print_u64 n)

components-printed :
    (fuel sum : ℕ) (ds : List (ℕ × DurationUnit))
    → All IsExact ds
    → length (print_duration ds) ≤ fuel
    → sum < 2 ^ 64
    → components fuel sum (print_duration ds) ≡ some ((sum + total ds) % 2 ^ 64)
unfolding total print_duration components
components-printed fuel sum [] exact enough small = ground arith
components-printed zero sum ((n, u) ∷ ds) exact enough small =
    absurd (omega (arith, length-print_duration n u ds))
components-printed (suc fuel) sum ((n, u) ∷ ds) exact enough small =
    components_step fuel sum (n * factor u) (print_duration ((n, u) ∷ ds)) (print_duration ds)
      (is_empty-print_duration n u ds) (take_component-printed n u ds exact.0)
    ∙ (components-printed fuel ((sum + n * factor u) % 2 ^ 64) ds exact.1
          (omega (arith, length-print_duration n u ds)) (omega arith)
        ∙ ground arith)

-- A duration that is printed as whole numbers of hours, minutes, seconds and milliseconds, each
-- of fewer than 2^53 milliseconds, is read as the sum of them in milliseconds, modulo 2^64, in
-- whatever order the units stand.
pub parse_go_duration-print_duration :
    (n : ℕ) (u : DurationUnit) (ds : List (ℕ × DurationUnit))
    → All IsExact ((n, u) ∷ ds)
    → parse_go_duration (print_duration ((n, u) ∷ ds)) ≡ some (total ((n, u) ∷ ds) % 2 ^ 64)
unfolding parse_go_duration
parse_go_duration-print_duration n u ds exact =
    let text : Text = print_duration ((n, u) ∷ ds) in
    let sum : components (length text) 0 text ≡ some ((0 + total ((n, u) ∷ ds)) % 2 ^ 64) =
      components-printed (length text) 0 ((n, u) ∷ ds) exact (omega arith) (omega arith) in
    ground (arith, is_empty-print_duration n u ds)
