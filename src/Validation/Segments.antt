-- ===== src/Validation/Segments.antt =====
-- A text without ".." has no parent segment, also after joining with slashes.
use harbor_router.Common.{
  ℕ, ◌≡◌, ◌≢◌, refl, true, false, Bool-cases, inl, inr, List, [], ◌∷◌, ◌++◌, arith, ◌==◌, All, Text,
  starts_with, contains, split,
}
use harbor_router.Validation.{dots}

-- Joining two texts by a slash makes no ".." of its own.
pub contains-dots_append :
    (a b : Text)
    → contains dots a ≡ false
    → contains dots b ≡ false
    → contains dots (a ++ b'/' ∷ b) ≡ false
unfolding contains starts_with
contains-dots_append [] b ha hb = ground arith
contains-dots_append (x ∷ []) b ha hb = ground arith
contains-dots_append (x ∷ y ∷ a) b ha hb = ground (arith, contains-dots_append (y ∷ a) b)

split-cons : (s : Text) → (p : Text) × (ps : List Text) × (split b'/' s ≡ p ∷ ps)
unfolding split
split-cons [] = ([], [], refl)
split-cons (c ∷ s) =
    let (p, ps, e) = split-cons s in
    elim (Bool-cases (c == b'/')) [
      | inl slash ↦ ([], split b'/' s, rw slash)
      | inr other ↦ (c ∷ p, ps, ground arith)
    ]

-- The first piece of a split stands at the front of the text.
split-starts_with : (s p : Text) (ps : List Text) → split b'/' s ≡ p ∷ ps → starts_with p s ≡ true
unfolding split starts_with
split-starts_with [] p ps e = ground arith
split-starts_with (c ∷ s) p ps e =
    let (p', ps', e') = split-cons s in let front = split-starts_with s p' ps' e' in ground arith

split-ne-dots_cons :
    (c : ℕ) (s p : Text) → contains dots (c ∷ s) ≡ false → starts_with p s ≡ true → c ∷ p ≢ dots
unfolding contains starts_with
split-ne-dots_cons c s p h front e = ground arith

-- No segment of a text without ".." is "..".
pub split-ne-dots : (s : Text) → contains dots s ≡ false → All (λ p. p ≢ dots) (split b'/' s)
unfolding contains split
split-ne-dots [] h = (λ e. cc, tt)
split-ne-dots (c ∷ s) h =
    let (p, ps, e) = split-cons s in
    let ih = split-ne-dots s (ground arith) in
    elim (Bool-cases (c == b'/')) [
      | inl slash ↦ rw slash ((λ e. cc), ih)
      | inr other ↦
          rw (other, e) (split-ne-dots_cons c s p h (split-starts_with s p ps e), (rw e at ih).1)
    ]
