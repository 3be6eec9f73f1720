-- ===== src/Config/Floats.antt =====
-- The part of f64 that `parse_go_duration` of src/config.rs uses: reading a numeral without sign or
-- exponent, multiplication by a whole number, `as u64`. Every finite f64 that is not negative is a
-- multiple of 2^-1074, so the number x is the natural number x * 2^1074. Values from 2^1024 on,
-- which f64 has no number for, stand for infinity: `as u64` sends both to the largest u64.
pub mod Exact
use Prim.Native.Nat.{min}
use harbor_router.Common.{
  ℕ, zero, suc, ◌+◌, ◌-◌, ◌*◌, ◌/◌, ◌%◌, ◌^◌, Bool, true, false, not, ◌&&◌, ◌||◌, Option, none,
  some, List, [], ◌∷◌, ◌++◌, ltb, ◌==◌, if◌then◌else◌, is_empty, all, length, is_ascii_digit,
  has_char, split_once, decimal_value, Text,
}

-- One, in multiples of 2^-1074.
unfoldable pub one : ℕ
one = 2 ^ 1074

-- The least power of two for which q has 53 binary digits before it; q halvings are more than enough.
unfoldable pub unit_of : ℕ → ℕ → ℕ
unit_of zero q = 1
unit_of (suc fuel) q = elim (ltb q (2 ^ 53)) [ true ↦ 1 | false ↦ 2 * unit_of fuel (q / 2) ]

-- Whether the remainder r of a division by d rounds up: to the nearest, ties to even.
unfoldable pub rounds_up : (quotient r d : ℕ) → Bool
rounds_up quotient r d = ltb d (2 * r) || (2 * r == d && quotient % 2 == 1)

unfoldable pub nearest_multiple : (n d : ℕ) → ℕ
unfolding rounds_up
nearest_multiple n d =
    let quotient : ℕ = n / d in if rounds_up quotient (n % d) d then quotient + 1 else quotient

-- The f64 that is nearest to the fraction n / d.
unfoldable pub nearest : (n d : ℕ) → ℕ
nearest n d = let u = unit_of (n / d) (n / d) in nearest_multiple n (d * u) * u

unfoldable pub decimal : (whole fraction : Text) → Option ℕ
decimal whole fraction =
    if is_empty (whole ++ fraction) || not (all is_ascii_digit (whole ++ fraction))
    then none
    else some (nearest (decimal_value 0 (whole ++ fraction) * one) (10 ^ length fraction))

-- `parse::<f64>` on a text of digits and points.
unfoldable pub parse_f64 : Text → Option ℕ
parse_f64 s = elim (split_once b'.' s) [
  | none ↦ decimal s []
  | some (whole, fraction) ↦ decimal whole fraction
]

-- `n * k` for a whole number k.
unfoldable pub times : (n k : ℕ) → ℕ
times n k = nearest (n * k) 1

-- `n as u64`: the fraction is cut off, and what is too large becomes the largest u64.
unfoldable pub as_u64 : ℕ → ℕ
as_u64 n = min (n / one) (2 ^ 64 - 1)
