-- ===== src/Cache/Moka.antt =====
-- `MokaCache` of src/cache.rs. The library's cache is a parameter: it keeps values, and asks an expiry
-- for how long.
use harbor_router.Common.{
  ℕ, ◌+◌, ◌≡◌, refl, ap, ◌∙◌, Option, none, some, Text, text_eq, ltb, if◌then◌else◌, arith,
}
use harbor_router.Cache.{CacheBackend}
use harbor_router.Cache.Lawful.{IsLawful}

pub record MokaValue : Type 0 where
  pub value : Text
  pub ttl : ℕ

pub record Moka : Type 1 where
  pub State : Type 0
  pub get : ℕ → Text → State → Option MokaValue
  pub insert : ℕ → Text → MokaValue → State → State
  pub invalidate : ℕ → Text → State → State

-- `MokaExpiry`, after a creation and after an update.
abbrev pub expire_after : MokaValue → Option ℕ
expire_after v = some v.ttl

-- What `moka` promises below its capacity, for an expiry.
pub record IsMoka (m : Moka) (expiry : MokaValue → Option ℕ) : Type 0 where
  pub get-insert :
      (now later : ℕ) (k j : Text) (v : MokaValue) (s : m.State)
      → m.get later j (m.insert now k v s) ≡ (
          if text_eq k j
          then elim (expiry v) [
            | none ↦ some v
            | some ttl ↦ if ltb later (now + ttl) then some v else none
          ]
          else m.get later j s)
  pub get-invalidate :
      (now later : ℕ) (k j : Text) (s : m.State)
      → m.get later j (m.invalidate now k s) ≡ (if text_eq k j then none else m.get later j s)

abbrev pub value_of : Option MokaValue → Option Text
value_of none = none
value_of (some v) = some v.value

abbrev pub moka_cache : Moka → ℕ → CacheBackend
moka_cache m default_ttl = record {
  State = m.State;
  get = λ now k s. (value_of (m.get now k s), s);
  set = λ now k v s. m.insert now k (record { value = v; ttl = default_ttl }) s;
  set_with_ttl = λ now k v ttl s. m.insert now k (record { value = v; ttl = ttl }) s;
  delete = λ now k s. m.invalidate now k s;
}

-- Over a library that keeps entries as its expiry says, the in-memory cache meets the laws of a
-- cache, with its own lifetime as the default.
pub moka_cache-IsLawful :
    (m : Moka) (default_ttl : ℕ)
    → IsMoka m expire_after
    → IsLawful (moka_cache m default_ttl) default_ttl
moka_cache-IsLawful m default_ttl law = record {
  get-set_with_ttl = λ now later k j v ttl s.
      ap value_of (law.get-insert now later k j (record { value = v; ttl = ttl }) s) ∙ ground arith;
  set_default = λ now k v s. refl;
  get-delete = λ now later k j s. ap value_of (law.get-invalidate now later k j s) ∙ ground arith;
  get_pure = λ now k s. refl;
}
