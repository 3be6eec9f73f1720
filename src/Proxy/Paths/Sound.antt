-- ===== src/Proxy/Paths/Sound.antt =====
-- What a path that `parse_path` accepts looks like.
use harbor_router.Common.{
  ℕ, ◌+◌, ◌≡◌, refl, true, some, ◌++◌, arith, length, take, drop, Option-cases, inl, inr, Text,
  codes, rfind, strip_suffix, contains, starts_with, text_eq, trim, ok,
}
use harbor_router.Validation.{is_safe_image_name, is_safe_reference}
use harbor_router.Proxy.Paths.{
  PathKind, manifests, blobs, tags, ParsedPath, marker, parse_reference, parse_tags, parse_path,
}
use harbor_router.Common.Search.{rfind_split, strip_suffix_split}

-- The text that a parsed path was read from.
abbrev pub print_kind : PathKind → Text → Text → Text
print_kind tags image reference = image ++ marker tags
print_kind kind image reference = image ++ (marker kind ++ reference)

abbrev pub print_path : ParsedPath → Text
print_path p = print_kind p.kind p.image p.reference

pub record IsParse (path : Text) (p : ParsedPath) : Type 0 where
  pub spelled : path ≡ print_path p
  pub safe_image : is_safe_image_name p.image ≡ true
  pub safe_reference : is_safe_reference p.reference ≡ true

pub parse_reference-ok :
    (kind : PathKind) (path : Text) (idx : ℕ) (p : ParsedPath)
    → parse_reference kind path idx ≡ ok p
    → (p ≡ record {
      image = take idx path;
      kind = kind;
      reference = drop (idx + length (marker kind)) path;
    })
      × (is_safe_image_name (take idx path) ≡ true)
      × (is_safe_reference (drop (idx + length (marker kind)) path) ≡ true)
unfolding parse_reference
parse_reference-ok kind path idx p e = (ground arith, ground arith, ground arith)

pub parse_tags-ok :
    (image : Text) (p : ParsedPath)
    → parse_tags image ≡ ok p
    → (p ≡ record { image = image; kind = tags; reference = codes "list" })
      × (is_safe_image_name image ≡ true)
unfolding parse_tags
parse_tags-ok image p e = (ground arith, ground arith)

list_is_safe_reference : is_safe_reference (codes "list") ≡ true
unfolding is_safe_reference contains starts_with text_eq trim
list_is_safe_reference = refl

parse_tags-IsParse :
    (path image : Text) (p : ParsedPath)
    → strip_suffix (marker tags) path ≡ some image
    → parse_tags image ≡ ok p
    → IsParse path p
parse_tags-IsParse path image p found e =
    let (same, safe) = parse_tags-ok image p e in
    rw same (record {
      spelled = strip_suffix_split (marker tags) path image found;
      safe_image = safe;
      safe_reference = list_is_safe_reference;
    })

manifests_lem :
    (path : Text) (idx : ℕ) (p : ParsedPath)
    → rfind (marker manifests) path ≡ some idx
    → parse_reference manifests path idx ≡ ok p
    → IsParse path p
manifests_lem path idx p found e =
    let (same, safe, safe_ref) = parse_reference-ok manifests path idx p e in
    rw same (record {
      spelled = rfind_split (marker manifests) path idx found;
      safe_image = safe;
      safe_reference = safe_ref;
    })

blobs_lem :
    (path : Text) (idx : ℕ) (p : ParsedPath)
    → rfind (marker blobs) path ≡ some idx
    → parse_reference blobs path idx ≡ ok p
    → IsParse path p
blobs_lem path idx p found e =
    let (same, safe, safe_ref) = parse_reference-ok blobs path idx p e in
    rw same (record {
      spelled = rfind_split (marker blobs) path idx found;
      safe_image = safe;
      safe_reference = safe_ref;
    })

-- A path that is accepted is the image, the marker of its kind and the reference, spelled one
-- after the other, and both names pass their checks. (For a tag list the reference is "list".)
pub parse_path-IsParse : (path : Text) (p : ParsedPath) → parse_path path ≡ ok p → IsParse path p
unfolding parse_path
parse_path-IsParse path p e = elim (Option-cases (strip_suffix (marker tags) path)) [
  | inr (image, found) ↦ parse_tags-IsParse path image p found (rw (found, parse_path) at e)
  | inl no_tags ↦ elim (Option-cases (rfind (marker manifests) path)) [
    | inr (idx, found) ↦ manifests_lem path idx p found (rw (no_tags, found, parse_path) at e)
    | inl no_manifests ↦ elim (Option-cases (rfind (marker blobs) path)) [
      | inr (idx, found) ↦
          blobs_lem path idx p found (rw (no_tags, no_manifests, found, parse_path) at e)
      | inl no_blobs ↦ absurd (cc (e, no_tags, no_manifests, no_blobs))
    ]
  ]
]
