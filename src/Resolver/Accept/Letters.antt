-- ===== src/Resolver/Accept/Letters.antt =====
-- When two texts are the same but for the case of ASCII letters, and that `lowercase` tells it.
use harbor_router.Common.{ℕ, ◌+◌, ◌≤◌, ◌≡◌, ◌⊎◌, ◌↔◌, refl, arith, [], ◌∷◌, Text}
use harbor_router.Resolver.Accept.{to_ascii_lowercase, lowercase}

abbrev pub IsUpper : ℕ → Type 0
IsUpper c = (b'A' ≤ c) × (c ≤ b'Z')

-- The code of a small letter is that of the capital one, and 32.
abbrev pub IsSameLetter : ℕ → ℕ → Type 0
IsSameLetter c d = (c ≡ d) ⊎ ((IsUpper c × (d ≡ c + 32)) ⊎ (IsUpper d × (c ≡ d + 32)))

abbrev pub IsAlike : Text → Text → Type 0
IsAlike [] [] = Unit
IsAlike (c ∷ s) (d ∷ t) = IsSameLetter c d × IsAlike s t
IsAlike [] (d ∷ t) = ⊥
IsAlike (c ∷ s) [] = ⊥

letter_sound : (c d : ℕ) → to_ascii_lowercase c ≡ to_ascii_lowercase d → IsSameLetter c d
letter_sound c d h = ground (arith, h)

letter_complete : (c d : ℕ) → IsSameLetter c d → to_ascii_lowercase c ≡ to_ascii_lowercase d
letter_complete c d h = ground (arith, h)

cons_injective : {c d : ℕ} {s t : Text} → c ∷ s ≡ d ∷ t → (c ≡ d) × (s ≡ t)
cons_injective h = (cc, cc)

lowercase_sound : (s t : Text) → lowercase s ≡ lowercase t → IsAlike s t
unfolding lowercase
lowercase_sound [] [] h = tt
lowercase_sound [] (d ∷ t) h = absurd (cc h)
lowercase_sound (c ∷ s) [] h = absurd (cc h)
lowercase_sound (c ∷ s) (d ∷ t) h =
    let (same, later) = cons_injective h in (letter_sound c d same, lowercase_sound s t later)

lowercase_complete : (s t : Text) → IsAlike s t → lowercase s ≡ lowercase t
unfolding lowercase
lowercase_complete [] [] h = refl
lowercase_complete [] (d ∷ t) h = absurd h
lowercase_complete (c ∷ s) [] h = absurd h
lowercase_complete (c ∷ s) (d ∷ t) (same, later) =
    rw (letter_complete c d same, lowercase_complete s t later) refl

pub lowercase_iff : (s t : Text) → (lowercase s ≡ lowercase t) ↔ IsAlike s t
lowercase_iff s t = (lowercase_sound s t, lowercase_complete s t)
