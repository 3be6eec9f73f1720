-- ===== src/Common/Search.antt =====
-- What `rfind` and `strip_suffix` find.
use Prim.Native.Nat.{ℕ, suc, ◌+◌}
use Prim.Native.Nat.add
use mathlib.Core.Path.{◌≡◌, refl, ap}
use mathlib.Core.Logic.{inl, inr}
use mathlib.Core.Bool.{true, false}
use mathlib.Core.Option.{none, some}
use mathlib.Core.List.{[], ◌∷◌, ◌++◌, append-nil}
use native.Mathlib.Omega.{arith}
use harbor_router.Common.Tests.{Option-cases, Bool-cases}
use harbor_router.Common.Lists.{length, take, drop, length-append}
use harbor_router.Common.Chars.{Text, has_char, text_eq, text_eq_iff, text_eq_self}
use harbor_router.Common.Find.{starts_with, contains, rfind, strip_suffix}

starts_with-drop : (p s : Text) → starts_with p s ≡ true → s ≡ p ++ drop (length p) s
unfolding starts_with
starts_with-drop [] s h = refl
starts_with-drop (c ∷ p) [] h = ground arith
starts_with-drop (c ∷ p) (d ∷ s) h = ground (arith, starts_with-drop p s)

pub starts_with-append : (p s : Text) → starts_with p (p ++ s) ≡ true
unfolding starts_with
starts_with-append [] s = refl
starts_with-append (c ∷ p) s = ground (arith, starts_with-append p s)

-- The text is what stands before the place found, the pattern, and what stands behind it.
pub rfind_split :
    (p s : Text) (i : ℕ) → rfind p s ≡ some i → s ≡ take i s ++ (p ++ drop (i + length p) s)
unfolding rfind starts_with
rfind_split [] [] i e = let z : i ≡ 0 = ground arith in rw z
rfind_split (d ∷ p) [] i e = cc
rfind_split p (c ∷ s) i e = elim (Option-cases (rfind p s)) [
  | inr (j, found) ↦
      let after : i ≡ suc j = ground arith in
      rw (after, add.suc) (ap (λ t. c ∷ t) (rfind_split p s j found))
  | inl missed ↦
      let z : i ≡ 0 = ground arith in rw (z, add.zero) (starts_with-drop p (c ∷ s) (ground arith))
]

pub rfind-append :
    (p a b : Text) (i : ℕ) → rfind p b ≡ some i → rfind p (a ++ b) ≡ some (length a + i)
unfolding rfind
rfind-append p [] b i e = ground arith
rfind-append p (c ∷ a) b i e = ground (arith, rfind-append p a b i e)

-- A pattern that begins with a character is not found in a text without it.
pub rfind-none : (c : ℕ) (p s : Text) → has_char c s ≡ false → rfind (c ∷ p) s ≡ none
unfolding rfind starts_with
rfind-none c p [] h = refl
rfind-none c p (d ∷ s) h = ground (arith, rfind-none c p s)

pub strip_suffix_split : (p s r : Text) → strip_suffix p s ≡ some r → s ≡ r ++ p
unfolding strip_suffix
strip_suffix_split p [] r e = ground (arith, text_eq_iff p [])
strip_suffix_split p (c ∷ s) r e = elim (Bool-cases (text_eq p (c ∷ s))) [
  | inl whole ↦ ground (arith, text_eq_iff p (c ∷ s))
  | inr part ↦ elim (Option-cases (strip_suffix p s)) [
    | inl missed ↦ absurd (ground arith)
    | inr (r', found) ↦
        let longer : r ≡ c ∷ r' = ground arith in
        rw longer (ap (λ t. c ∷ t) (strip_suffix_split p s r' found))
  ]
]

text_eq-longer : (p a : Text) (c : ℕ) → text_eq p (c ∷ (a ++ p)) ≡ false
text_eq-longer p a c = elim (Bool-cases (text_eq p (c ∷ (a ++ p)))) [
  | inl same ↦ absurd (
      omega
        (arith, ap (λ t. length t) ((text_eq_iff p (c ∷ (a ++ p))).0 same), length-append {0} a p))
  | inr other ↦ other
]

pub strip_suffix-append : (p a : Text) → strip_suffix p (a ++ p) ≡ some a
unfolding strip_suffix
strip_suffix-append [] [] = ground (arith, text_eq_self [])
strip_suffix-append (c ∷ p) [] = ground (arith, text_eq_self (c ∷ p))
strip_suffix-append p (c ∷ a) = ground (arith, text_eq-longer p a c, strip_suffix-append p a)

-- What a text contains, a longer one contains.
pub contains-append : (p a s : Text) → contains p s ≡ true → contains p (a ++ s) ≡ true
unfolding contains
contains-append p [] s h = h
contains-append p (c ∷ a) s h = ground (arith, contains-append p a s h)

pub contains_self : (p : Text) → contains p p ≡ true
unfolding contains
contains_self [] = starts_with-append [] []
contains_self (c ∷ p) =
    let front : starts_with (c ∷ p) (c ∷ p) ≡ true =
      rw append-nil at (starts_with-append (c ∷ p) []) in
    ground (arith, front)

-- A pattern is not found across the end of a text that lacks its first character.
pub contains-append_lacking :
    (c : ℕ) (p a s : Text) → has_char c a ≡ false → contains (c ∷ p) (a ++ s) ≡ contains (c ∷ p) s
unfolding contains starts_with
contains-append_lacking c p [] s h = refl
contains-append_lacking c p (d ∷ a) s h = ground (arith, contains-append_lacking c p a s)
