-- ===== src/Config/Floats/Exact.antt =====
-- Whole numbers below 2^53 are numbers of f64, and what is read or multiplied within them is exact.
use native.Mathlib.Nat.{pow-suc, mul-div_cancel, mul-mod_left}
use harbor_router.Common.{
  ℕ, zero, suc, ◌*◌, ◌/◌, ◌^◌, ◌<◌, ◌≡◌, refl, ap, inl, inr, true, false, none, some, [], ◌∷◌, ◌++◌,
  append-nil, arith, ltb, Bool-cases, is_empty, all, is_ascii_digit, split_once, print_u64,
  decimal_value, decimal_value-print_u64, all-print_u64, is_empty-print_u64, Text,
}
use harbor_router.Config.Floats.{
  one, unit_of, rounds_up, nearest_multiple, nearest, decimal, parse_f64, times, as_u64,
}

-- The unit of m * 2^k divides 2^k.
unit_of_divides : (fuel m k : ℕ) → m < 2 ^ 53 → (d : ℕ) × (2 ^ k ≡ d * unit_of fuel (m * 2 ^ k))
unfolding unit_of
unit_of_divides zero m k h = (2 ^ k, omega arith)
unit_of_divides (suc fuel) m zero h = (1, ground arith)
unit_of_divides (suc fuel) m (suc k) h = elim (Bool-cases (ltb (m * 2 ^ suc k) (2 ^ 53))) [
  | inl small ↦ (2 ^ suc k, rw (small, unit_of) (omega arith))
  | inr large ↦
      let (d, e) = unit_of_divides fuel m k h in
      let half : m * 2 ^ suc k / 2 ≡ m * 2 ^ k =
        omega (arith, ap (λ (t : ℕ). m * t) (pow-suc 2 k)) in
      (d, rw (large, unit_of, half) (omega (arith, pow-suc 2 k, ap (λ (t : ℕ). t * 2) e)))
]

unit_of_pos : (fuel q : ℕ) → 0 < unit_of fuel q
unfolding unit_of
unit_of_pos zero q = omega arith
unit_of_pos (suc fuel) q = ground (arith, unit_of_pos fuel (q / 2))

-- A fraction that is a whole number of units is not rounded.
nearest_multiple_exact : (m d : ℕ) → 0 < d → nearest_multiple (m * d) d ≡ m
unfolding nearest_multiple rounds_up
nearest_multiple_exact m d k = ground (arith, mul-div_cancel m k, mul-mod_left m d)

nearest-exact : (m k : ℕ) → m < 2 ^ 53 → nearest (m * 2 ^ k) 1 ≡ m * 2 ^ k
unfolding nearest
nearest-exact m k h =
    let whole : m * 2 ^ k / 1 ≡ m * 2 ^ k = omega arith in
    let u : ℕ = unit_of (m * 2 ^ k) (m * 2 ^ k) in
    let (d, e) = unit_of_divides (m * 2 ^ k) m k h in
    let times_d : m * 2 ^ k ≡ m * d * (1 * u) = omega (arith, ap (λ (t : ℕ). m * t) e) in
    let units : nearest_multiple (m * 2 ^ k) (1 * u) ≡ m * d = rw (← times_d) at (
      nearest_multiple_exact (m * d) (1 * u)
        (omega (arith, unit_of_pos (m * 2 ^ k) (m * 2 ^ k)))) in
    rw (whole, units) (omega (arith, times_d))

-- A number of f64 times a whole number, within 2^53, is exact.
pub times-exact : (n k : ℕ) → n * k < 2 ^ 53 → times (n * one) k ≡ n * k * one
unfolding times one
times-exact n k h =
    let e : n * 2 ^ 1074 * k ≡ n * k * 2 ^ 1074 = omega arith in rw e (nearest-exact (n * k) 1074 h)

one_pos : 0 < one
unfolding one
one_pos = omega arith

pub as_u64-whole : (n : ℕ) → n < 2 ^ 64 → as_u64 (n * one) ≡ n
unfolding as_u64
as_u64-whole n h = let e : n * one / one ≡ n = mul-div_cancel n one_pos in omega (arith, e)

nearest-whole : (n : ℕ) → n < 2 ^ 53 → nearest (n * one) 1 ≡ n * one
unfolding one
nearest-whole n h = nearest-exact n 1074 h

split_once-digits : (s : Text) → all is_ascii_digit s ≡ true → split_once b'.' s ≡ none
unfolding split_once
split_once-digits [] h = refl
split_once-digits (c ∷ s) h = ground (arith, split_once-digits s)

decimal-digits :
    (s : Text)
    → is_empty s ≡ false
    → all is_ascii_digit s ≡ true
    → decimal s [] ≡ some (nearest (decimal_value 0 s * one) 1)
unfolding decimal
decimal-digits s some_digit digits =
    let e : s ++ [] ≡ s = append-nil s in rw (e, some_digit, digits) refl

-- The numeral of a whole number below 2^53 is read exactly.
pub parse_f64-print_u64 : (n : ℕ) → n < 2 ^ 53 → parse_f64 (print_u64 n) ≡ some (n * one)
unfolding parse_f64
parse_f64-print_u64 n h =
    rw
      (
        parse_f64,
        split_once-digits (print_u64 n) (all-print_u64 n),
        decimal-digits (print_u64 n) (is_empty-print_u64 n) (all-print_u64 n),
        decimal_value-print_u64 n (omega arith),
        nearest-whole n h,
      )
      refl
