-- ===== src/Resolver/Accept/Laws.antt =====
-- `content_type_matches` decides whether a media range of the Accept headers admits a media type.
use mathlib.Core.List.{Memᴰ}
use harbor_router.Common.{
  ◌≡◌, ◌≢◌, ◌↔◌, refl, sym, ap, ◌∙◌, true, false, List, [], ◌∷◌, ◌++◌, arith, Option-cases,
  Bool-cases, inl, inr, is_empty, any, any_sound, any_complete, Text, codes, text_eq, text_eq_iff,
  text_eq_self, before, split, strip_suffix,
}
use harbor_router.Common.Search.{strip_suffix_split, strip_suffix-append}
use harbor_router.Resolver.Accept.MediaTypes.{
  IsMediaType, IsTail, lacks, before-append, before_split, lacks-before, media_type-eq,
  media_type-IsMediaType,
}
use harbor_router.Resolver.Accept.Letters.{IsAlike, lowercase_iff}
use harbor_router.Resolver.Accept.{lowercase, media_type, range_matches, content_type_matches}

-- The type of a media type is what stands before its first slash, or all of it.
pub record IsFamily (ct prefix : Text) : Type 0 where
  pub rest : Text
  pub spelled : ct ≡ prefix ++ rest
  pub behind : IsTail b'/' rest
  pub single : lacks b'/' prefix ≡ true

-- A media range without parameters admits a media type: it is "*/*", or "{type}/*" with the type
-- of the response, or the same media type but for the case of its letters.
pub data Admits (ct av : Text) : Type 0 where
  anything : av ≡ codes "*/*" → Admits ct av
  family : (prefix : Text) → IsFamily ct prefix → av ≡ prefix ++ codes "/*" → Admits ct av
  same : av ≢ [] → IsAlike ct av → Admits ct av

before-IsFamily : (ct : Text) → IsFamily ct (before b'/' ct)
before-IsFamily ct =
    let (rest, spelled, behind) = before_split b'/' ct in
    record { rest = rest; spelled = spelled; behind = behind; single = lacks-before b'/' ct }

before-eq : (ct prefix : Text) → IsFamily ct prefix → before b'/' ct ≡ prefix
before-eq ct prefix f =
    ap (before b'/') f.spelled ∙ before-append b'/' prefix f.rest f.single f.behind

is_empty-append : (a : Text) → is_empty (a ++ codes "/*") ≡ false
is_empty-append [] = refl
is_empty-append (_ ∷ _) = refl

range_matches_sound : (ct av : Text) → range_matches ct av ≡ true → Admits ct av
unfolding range_matches
range_matches_sound ct [] h = cc
range_matches_sound ct (c ∷ av) h = elim (Bool-cases (text_eq (c ∷ av) (codes "*/*"))) [
  | inl star ↦ anything ((text_eq_iff _ _).0 star)
  | inr no_star ↦ elim (Bool-cases (text_eq (lowercase ct) (lowercase (c ∷ av)))) [
    | inl alike ↦ same (λ e. cc) ((lowercase_iff _ _).0 ((text_eq_iff _ _).0 alike))
    | inr differ ↦ elim (Option-cases (strip_suffix (codes "/*") (c ∷ av))) [
      | inl plain ↦ absurd (ground arith)
      | inr (prefix, found) ↦
          let front = (text_eq_iff (before b'/' ct) prefix).0 (ground arith) in
          family (before b'/' ct) (before-IsFamily ct) (
            strip_suffix_split (codes "/*") (c ∷ av) prefix found
            ∙ ap (λ p. p ++ codes "/*") (sym front))
    ]
  ]
]

range_matches_complete : {ct av : Text} → Admits ct av → range_matches ct av ≡ true
unfolding range_matches
range_matches_complete {ct} {av} (anything e) = rw e (ground (arith, text_eq_self (codes "*/*")))
range_matches_complete {ct} {av} (family prefix f e) =
    let front : av ≡ before b'/' ct ++ codes "/*" =
      e ∙ ap (λ p. p ++ codes "/*") (sym (before-eq ct prefix f)) in
    rw front (
      ground (
        arith,
        is_empty-append (before b'/' ct),
        strip_suffix-append (codes "/*") (before b'/' ct),
        text_eq_iff (before b'/' ct) (before b'/' ct),
      ))
range_matches_complete {ct} {av = []} (same ne e) = absurd (ne refl)
range_matches_complete {ct} {av = c ∷ av} (same ne e) =
    let alike = (lowercase_iff ct (c ∷ av)).1 e in
    ground (arith, alike, text_eq_iff (lowercase ct) (lowercase (c ∷ av)))

-- A response matches exactly when its content type and some media range of some Accept header,
-- cut at commas, are spelled as media types (white space, the type, white space and parameters
-- behind a semicolon) of which the media range admits the type of the response.
pub content_type_matches_iff :
    (response_ct : Text) (accept_values : List Text)
    → (content_type_matches response_ct accept_values ≡ true) ↔ (
        (header : Text) × (range : Text) × (ct : Text) × (av : Text) × Memᴰ header accept_values
        × Memᴰ range (split b',' header)
        × IsMediaType response_ct ct
        × IsMediaType range av
        × Admits ct av)
unfolding content_type_matches
content_type_matches_iff response_ct accept_values =
    let ct = media_type response_ct in
    let test = λ (range : Text). range_matches ct (media_type range) in
    (
      (λ h.
          let (header, in_values, found) =
            any_sound (λ t. any test (split b',' t)) accept_values h in
          let (range, in_header, e) = any_sound test (split b',' header) found in
          (
            header,
            range,
            ct,
            media_type range,
            in_values,
            in_header,
            media_type-IsMediaType response_ct,
            media_type-IsMediaType range,
            range_matches_sound ct (media_type range) e,
          )),
      (λ (header, range, ct', av, in_values, in_header, of_response, of_range, admits).
          let fits : range_matches ct (media_type range) ≡ true =
            rw (media_type-eq response_ct ct' of_response, media_type-eq range av of_range)
              (range_matches_complete admits) in
          any_complete (λ t. any test (split b',' t)) in_values (any_complete test in_header fits)),
    )
