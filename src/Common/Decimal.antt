-- ===== src/Common/Decimal.antt =====
-- Decimal numerals of u64: `to_string`, and `str::parse::<u64>`.
use Prim.Native.Nat.{ℕ, zero, suc, ◌+◌, ◌-◌, ◌*◌, ◌/◌, ◌%◌, ◌^◌, ◌<◌}
use native.Mathlib.Nat.{pow-suc}
use mathlib.Core.Path.{◌≡◌, refl, ◌∙◌}
use mathlib.Core.Bool.{true, false, ◌&&◌}
use mathlib.Core.Option.{Option, none, some}
use mathlib.Core.Logic.{inl, inr}
use mathlib.Core.List.{[], ◌∷◌, ◌++◌}
use native.Mathlib.Omega.{arith}
use harbor_router.Common.Tests.{ltb, Bool-cases, Option-cases, ◌==◌, if◌then◌else◌}
use harbor_router.Common.Lists.{is_empty, all, all-append}
use harbor_router.Common.Chars.{Text, is_ascii_digit}

-- At most `fuel` digits; 20 are enough for every u64.
digits : ℕ → ℕ → Text
digits zero n = []
digits (suc fuel) n =
    let rest = digits fuel (n / 10) in
    if ltb n 10 then (b'0' + n) ∷ [] else rest ++ (b'0' + n % 10) ∷ []

unfoldable pub print_u64 : ℕ → Text
unfolding digits
print_u64 n = digits 20 n

-- One round of the parser: `checked_mul(10)` and `checked_add` of the digit.
push_digit : ℕ → ℕ → Option ℕ
push_digit acc c =
    let next : ℕ = acc * 10 + (c - b'0') in
    if is_ascii_digit c && ltb next (2 ^ 64) then some next else none

parse_digits : ℕ → Text → Option ℕ
parse_digits acc [] = some acc
parse_digits acc (c ∷ s) = elim (push_digit acc c) [ none ↦ none | some n ↦ parse_digits n s ]

-- `parse::<u64>`: a leading plus sign is allowed, an empty numeral is not.
unfoldable pub parse_u64 : Text → Option ℕ
unfolding parse_digits push_digit
parse_u64 [] = none
parse_u64 (c ∷ []) = parse_digits 0 (c ∷ [])
parse_u64 (c ∷ d ∷ s) = if c == b'+' then parse_digits 0 (d ∷ s) else parse_digits 0 (c ∷ d ∷ s)

parse_digits-append :
    (s : Text) (c acc n : ℕ)
    → parse_digits acc s ≡ some n
    → parse_digits acc (s ++ c ∷ []) ≡ push_digit n c
unfolding parse_digits
parse_digits-append [] c acc n e = ground (arith, Option-cases (push_digit n c))
parse_digits-append (d ∷ s) c acc n e = elim (Option-cases (push_digit acc d)) [
  | inl bad ↦ absurd (ground arith)
  | inr (m, next) ↦
      rw (next, parse_digits) (parse_digits-append s c m n (rw (next, parse_digits) at e))
]

push_digit-last : (n : ℕ) → n < 2 ^ 64 → push_digit (n / 10) (b'0' + n % 10) ≡ some n
unfolding push_digit
push_digit-last n k = ground arith

push_digit-first : (n : ℕ) → n < 10 → push_digit 0 (b'0' + n) ≡ some n
unfolding push_digit
push_digit-first n k = ground arith

parse_digits-digits :
    (fuel n : ℕ) → n < 10 ^ fuel → n < 2 ^ 64 → parse_digits 0 (digits fuel n) ≡ some n
unfolding digits parse_digits
parse_digits-digits zero n h k = ground arith
parse_digits-digits (suc fuel) n h k =
    let ih = parse_digits-digits fuel (n / 10) (omega (arith, pow-suc 10 fuel)) (omega arith) in
    elim (Bool-cases (ltb n 10)) [
      | inl small ↦ rw small (rw (push_digit-first n (ground arith), parse_digits) refl)
      | inr large ↦ rw large (
          parse_digits-append (digits fuel (n / 10)) (b'0' + n % 10) 0 (n / 10) ih
          ∙ push_digit-last n k)
    ]

append-ne-nil : (s : Text) (c : ℕ) → is_empty (s ++ c ∷ []) ≡ false
append-ne-nil [] c = refl
append-ne-nil (_ ∷ _) c = refl

digits-ne-nil : (fuel n : ℕ) → is_empty (digits (suc fuel) n) ≡ false
unfolding digits
digits-ne-nil fuel n = ground (arith, append-ne-nil (digits fuel (n / 10)) (b'0' + n % 10))

parse_u64_of_digits :
    (s : Text) (n : ℕ) → is_empty s ≡ false → parse_digits 0 s ≡ some n → parse_u64 s ≡ some n
unfolding parse_u64
parse_u64_of_digits [] n ne e = cc
parse_u64_of_digits (c ∷ []) n ne e = e
parse_u64_of_digits (c ∷ d ∷ s) n ne e = ground arith

-- The numeral that is printed for a u64 is read back.
pub parse_u64-print_u64 : (n : ℕ) → n < 2 ^ 64 → parse_u64 (print_u64 n) ≡ some n
unfolding print_u64
parse_u64-print_u64 n k =
    parse_u64_of_digits (digits 20 n) n (digits-ne-nil 19 n)
      (parse_digits-digits 20 n (omega arith) k)

-- What a numeral of whatever length stands for.
unfoldable pub decimal_value : ℕ → Text → ℕ
decimal_value acc [] = acc
decimal_value acc (c ∷ s) = decimal_value (acc * 10 + (c - b'0')) s

decimal_value-append :
    (s : Text) (acc c : ℕ) → decimal_value acc (s ++ c ∷ []) ≡ decimal_value acc s * 10 + (c - b'0')
unfolding decimal_value
decimal_value-append [] acc c = refl
decimal_value-append (d ∷ s) acc c = decimal_value-append s (acc * 10 + (d - b'0')) c

decimal_value-digits : (fuel n : ℕ) → n < 10 ^ fuel → decimal_value 0 (digits fuel n) ≡ n
unfolding digits decimal_value
decimal_value-digits zero n h = omega arith
decimal_value-digits (suc fuel) n h =
    let ih = decimal_value-digits fuel (n / 10) (omega (arith, pow-suc 10 fuel)) in
    elim (Bool-cases (ltb n 10)) [
      | inl small ↦ rw small (omega arith)
      | inr large ↦
          rw (large, decimal_value-append (digits fuel (n / 10)) 0 (b'0' + n % 10), ih)
            (omega arith)
    ]

pub decimal_value-print_u64 : (n : ℕ) → n < 2 ^ 64 → decimal_value 0 (print_u64 n) ≡ n
unfolding print_u64
decimal_value-print_u64 n h = decimal_value-digits 20 n (omega arith)

all-digits : (fuel n : ℕ) → all is_ascii_digit (digits fuel n) ≡ true
unfolding digits
all-digits zero n = refl
all-digits (suc fuel) n = ground (
  arith,
  all-digits fuel (n / 10),
  all-append is_ascii_digit (digits fuel (n / 10)) ((b'0' + n % 10) ∷ []),
)

pub all-print_u64 : (n : ℕ) → all is_ascii_digit (print_u64 n) ≡ true
unfolding print_u64
all-print_u64 n = all-digits 20 n

pub is_empty-print_u64 : (n : ℕ) → is_empty (print_u64 n) ≡ false
unfolding print_u64
is_empty-print_u64 n = digits-ne-nil 19 n

parse_digits-lt : (s : Text) (acc n : ℕ) → acc < 2 ^ 64 → parse_digits acc s ≡ some n → n < 2 ^ 64
unfolding parse_digits push_digit
parse_digits-lt [] acc n h e = ground arith
parse_digits-lt (c ∷ s) acc n h e = elim (Option-cases (push_digit acc c)) [
  | inl bad ↦ absurd (ground arith)
  | inr (m, next) ↦ parse_digits-lt s m n (ground arith) (rw (next, parse_digits) at e)
]

-- What is read is a u64.
pub parse_u64-lt : (s : Text) (n : ℕ) → parse_u64 s ≡ some n → n < 2 ^ 64
unfolding parse_u64
parse_u64-lt [] n e = cc
parse_u64-lt (c ∷ []) n e = parse_digits-lt (c ∷ []) 0 n (omega arith) e
parse_u64-lt (c ∷ d ∷ s) n e = elim (Bool-cases (c == b'+')) [
  | inl plus ↦ parse_digits-lt (d ∷ s) 0 n (omega arith) (rw (plus, parse_u64) at e)
  | inr digit ↦ parse_digits-lt (c ∷ d ∷ s) 0 n (omega arith) (rw (digit, parse_u64) at e)
]
