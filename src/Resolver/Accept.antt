-- ===== src/Resolver/Accept.antt =====
-- `content_type_matches` of src/resolver.rs.
pub mod Letters
pub mod MediaTypes
pub mod Laws
use Prim.Native.Nat.{min}
use harbor_router.Common.{
  ℕ, ◌+◌, Bool, true, false, not, ◌&&◌, ◌||◌, Option, none, some, List, [], ◌∷◌, leb, if◌then◌else◌,
  is_empty, any, Text, codes, text_eq, trim, before, split, strip_suffix,
}

-- `eq_ignore_ascii_case`.
abbrev pub to_ascii_lowercase : ℕ → ℕ
to_ascii_lowercase c = if leb b'A' c && leb c b'Z' then c + 32 else c

unfoldable pub lowercase : Text → Text
lowercase [] = []
lowercase (c ∷ s) = to_ascii_lowercase c ∷ lowercase s

-- `s.split(';').next().unwrap_or("").trim()`: a media type without its parameters.
unfoldable pub media_type : Text → Text
media_type s = trim (before b';' s)

-- One round of the inner loop, for the media range `av`.
unfoldable pub range_matches : Text → Text → Bool
range_matches ct av =
    if is_empty av
    then false
    else text_eq av (codes "*/*")
      || (elim (strip_suffix (codes "/*") av) [
        | none ↦ false
        | some prefix ↦ text_eq (before b'/' ct) prefix
      ])
      || text_eq (lowercase ct) (lowercase av)

unfoldable pub content_type_matches : Text → List Text → Bool
content_type_matches response_ct accept_values =
    let ct = media_type response_ct in
    any (λ header. any (λ accept. range_matches ct (media_type accept)) (split b',' header))
      accept_values
