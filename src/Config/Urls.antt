-- ===== src/Config/Urls.antt =====
-- `should_warn_plaintext_url` of src/config.rs.
use harbor_router.Common.{
  ℕ, ◌++◌, ◌≡◌, refl, arith, Bool, true, false, not, ◌||◌, none, some, [], ◌∷◌, starts_with,
  strip_prefix, has_char, before, text_eq, Text, codes,
}

abbrev pub is_local : (host : Text) → Bool
is_local host =
    text_eq host (codes "localhost")
    || text_eq host (codes "127.0.0.1")
    || text_eq host (codes "harbor-core")

unfoldable pub should_warn_plaintext_url : Text → Bool
should_warn_plaintext_url url = elim (strip_prefix (codes "http://") url) [
  | none ↦ false
  | some host_part ↦ not (is_local (before b'/' (before b':' host_part)))
]

-- What may follow a host in a URL: nothing, a port or a path.
abbrev pub ends_host : Text → Bool
ends_host rest = text_eq rest [] || starts_with (codes ":") rest || starts_with (codes "/") rest

before-lacking : (c : ℕ) (s t : Text) → has_char c s ≡ false → before c (s ++ t) ≡ s ++ before c t
unfolding before
before-lacking c [] t h = refl
before-lacking c (d ∷ s) t h = ground (arith, before-lacking c s t)

before-end :
    (c : ℕ) (host rest : Text)
    → has_char c host ≡ false
    → starts_with (c ∷ []) rest ≡ true
    → before c (host ++ rest) ≡ host
unfolding before starts_with
before-end c [] [] h e = refl
before-end c [] (d ∷ rest) h e = ground arith
before-end c (d ∷ host) rest h e = ground (arith, before-end c host rest)
