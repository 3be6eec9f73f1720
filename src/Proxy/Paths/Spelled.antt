-- ===== src/Proxy/Paths/Spelled.antt =====
-- Which paths `parse_path` accepts, and as what: the grammar of request paths.
use harbor_router.Common.{
  ◌≡◌, ◌↔◌, ◌∙◌, refl, ap, inl, inr, none, Option-cases, Text, codes, rfind, strip_suffix, ok,
}
use harbor_router.Proxy.Paths.{manifests, blobs, tags, ParsedPath, marker, parse_path}
use harbor_router.Proxy.Paths.Sound.{
  IsParse, print_path, parse_path-IsParse, parse_reference-ok, parse_tags-ok,
}
use harbor_router.Proxy.Paths.RoundTrip.{parse_path-print}

-- The path is spelled from checked names; a tag list has the reference "list", and the path of a blob
-- does not spell "/manifests/" too, which is tried first.
pub record IsSpelled (path : Text) (p : ParsedPath) : Type 0 where
  pub parts : IsParse path p
  pub list_only : p.kind ≡ tags → p.reference ≡ codes "list"
  pub no_manifests : p.kind ≡ blobs → rfind (marker manifests) path ≡ none

kind_conditions :
    (path : Text) (p : ParsedPath)
    → parse_path path ≡ ok p
    → (p.kind ≡ tags → p.reference ≡ codes "list")
      × (p.kind ≡ blobs → rfind (marker manifests) path ≡ none)
unfolding parse_path
kind_conditions path p e = elim (Option-cases (strip_suffix (marker tags) path)) [
  | inr (image, found) ↦
      let (same, safe) = parse_tags-ok image p (rw (found, parse_path) at e) in
      rw same ((λ h. refl, λ h. cc))
  | inl no_tags ↦ elim (Option-cases (rfind (marker manifests) path)) [
    | inr (idx, found) ↦
        let (same, safe, safe_ref) =
          parse_reference-ok manifests path idx p (rw (no_tags, found, parse_path) at e) in
        rw same ((λ h. cc, λ h. cc))
    | inl no_manifests ↦ elim (Option-cases (rfind (marker blobs) path)) [
      | inr (idx, found) ↦
          let (same, safe, safe_ref) =
            parse_reference-ok blobs path idx p
              (rw (no_tags, no_manifests, found, parse_path) at e) in
          rw same ((λ h. cc, λ h. no_manifests))
      | inl no_blobs ↦ absurd (cc (e, no_tags, no_manifests, no_blobs))
    ]
  ]
]

spelled_parse : (path : Text) (p : ParsedPath) → IsSpelled path p → parse_path path ≡ ok p
spelled_parse path p s =
    let same : path ≡ print_path p = s.parts.spelled in
    let read =
      parse_path-print p s.parts.safe_image s.parts.safe_reference s.list_only
        (λ h. rw same at s.no_manifests h) in
    ap parse_path same ∙ read

-- A path is accepted as an image, a kind and a reference exactly when it is the image, the marker
-- of the kind and the reference, one after the other, and both names pass their checks; the
-- reference of a tag list is "list", and the path of a blob does not spell "/manifests/" too,
-- which is tried first.
pub parse_path_iff : (path : Text) (p : ParsedPath) → (parse_path path ≡ ok p) ↔ IsSpelled path p
parse_path_iff path p = (
  λ e.
      let (list_only, no_manifests) = kind_conditions path p e in
      record {
        parts = parse_path-IsParse path p e;
        list_only = list_only;
        no_manifests = no_manifests;
      },
  spelled_parse path p,
)
