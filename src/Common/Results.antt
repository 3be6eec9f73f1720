-- ===== src/Common/Results.antt =====
-- `anyhow::Result`: a value, or an error with the message that `to_string` gives.
use mathlib.Core.Path.{◌≡◌, refl}
use mathlib.Core.Logic.{◌⊎◌, inl, inr}
use mathlib.Core.Bool.{Bool}
use harbor_router.Common.Tests.{if◌then◌else◌}
use harbor_router.Common.Chars.{Text}

pub data Outcome {ℓ} (A : Type ℓ) : Type ℓ where
  ok : A → Outcome A
  err : Text → Outcome A

abbrev pub map_ok {ℓ κ} : {A : Type ℓ} {B : Type κ} → (A → B) → Outcome A → Outcome B
map_ok f (ok a) = ok (f a)
map_ok f (err e) = err e

pub Outcome-cases {ℓ} :
    {A : Type ℓ} (o : Outcome A) → ((a : A) × (o ≡ ok a)) ⊎ ((e : Text) × (o ≡ err e))
Outcome-cases (ok a) = inl (a, refl)
Outcome-cases (err e) = inr (e, refl)

-- `if test { bail!(message) }`.
abbrev pub bail_if : (test : Bool) (message : Text) → Outcome (Unit {0})
bail_if test message = if test then err message else ok tt

module _ {ℓ κ} {A : Type ℓ} {B : Type κ} where
  -- The operator `?`: what is left of a block is not run after an error.
  infixl 5 ◌>>=◌
  abbrev pub ◌>>=◌ : (outcome : Outcome A) (left : A → Outcome B) → Outcome B
  outcome >>= left = elim outcome [ err message ↦ err message | ok value ↦ left value ]

  -- A block that ends well got past its first step.
  pub >>=_inverse :
      (outcome : Outcome A) (left : A → Outcome B) {end : B}
      → outcome >>= left ≡ ok end
      → (value : A) × (outcome ≡ ok value) × (left value ≡ ok end)
  >>=_inverse outcome left ended = elim (Outcome-cases outcome) [
    | inl (value, good) ↦ (value, good, rw good at ended)
    | inr (message, bad) ↦ absurd (cc (rw bad at ended))
  ]

module _ {ℓ} {A : Type ℓ} where
  infixl 5 ◌>>◌
  abbrev pub ◌>>◌ : Outcome (Unit {0}) → (left : Outcome A) → Outcome A
  check >> left = check >>= λ nothing. left

pub ok_injective {ℓ} : {A : Type ℓ} {a b : A} → ok a ≡ ok b → a ≡ b
ok_injective h = cc
