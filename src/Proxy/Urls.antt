-- ===== src/Proxy/Urls.antt =====
-- The upstream URLs that src/proxy.rs and src/resolver.rs build from names that were checked.
use harbor_router.Common.{
  ◌≡◌, ◌≢◌, refl, true, false, [], ◌∷◌, ◌++◌, arith, All, any, any-append, has_char, is_control,
  contains, starts_with, split, Text, codes, Bool-cases, inl, inr, ok, ◌==◌,
}
use harbor_router.Validation.{
  dots, is_safe_project_name, is_safe_image_name, is_safe_reference, normalize_docker_library_image,
}
use harbor_router.Validation.Segments.{contains-dots_append, split-ne-dots}
use harbor_router.Proxy.Paths.{PathKind, manifests, blobs, tags, ParsedPath, marker, parse_path}
use harbor_router.Proxy.Paths.Sound.{parse_path-IsParse}

-- What `format!` puts behind the base URL: "/v2/{project}/{image}/manifests/{reference}" and
-- the like.
unfoldable pub upstream_path : PathKind → Text → Text → Text → Text
upstream_path tags project image reference =
    codes "/v2/" ++ (project ++ (codes "/" ++ (image ++ codes "/tags/list")))
upstream_path kind project image reference =
    codes "/v2/" ++ (project ++ (codes "/" ++ (image ++ (marker kind ++ reference))))

-- No parent segment, no backslash, no control character.
abbrev pub IsPlain : Text → Type 0
IsPlain s = (contains dots s ≡ false) × (has_char b'\\' s ≡ false) × (any is_control s ≡ false)

IsPlain-join : (a b : Text) → IsPlain a → IsPlain b → IsPlain (a ++ b'/' ∷ b)
IsPlain-join a b (da, ba, ca) (db, bb, cb) = (
  contains-dots_append a b da db,
  ground (arith, any-append (λ c. c == b'\\') a (b'/' ∷ b)),
  ground (arith, any-append is_control a (b'/' ∷ b)),
)

project-IsPlain : (s : Text) → is_safe_project_name s ≡ true → IsPlain s
unfolding is_safe_project_name
project-IsPlain s h = (ground arith, ground arith, ground arith)

image-IsPlain : (s : Text) → is_safe_image_name s ≡ true → IsPlain s
unfolding is_safe_image_name
image-IsPlain s h = (ground arith, ground arith, ground arith)

reference-IsPlain : (s : Text) → is_safe_reference s ≡ true → IsPlain s
unfolding is_safe_reference
reference-IsPlain s h = (ground arith, ground arith, ground arith)

normalize-IsPlain :
    (image : Text)
    → is_safe_image_name image ≡ true
    → IsPlain (normalize_docker_library_image image)
unfolding normalize_docker_library_image contains starts_with
normalize-IsPlain image h = elim (Bool-cases (has_char b'/' image)) [
  | inl slash ↦ rw slash (image-IsPlain image h)
  | inr bare ↦
      rw bare (IsPlain-join (codes "library") image (refl, refl, refl) (image-IsPlain image h))
]

upstream_path-IsPlain :
    (kind : PathKind) (project image reference : Text)
    → IsPlain project
    → IsPlain image
    → IsPlain reference
    → IsPlain (upstream_path kind project image reference)
unfolding upstream_path contains starts_with
upstream_path-IsPlain kind project image reference hp hi hr = by_kind kind
  where
    front :
        (rest : Text) → IsPlain rest → IsPlain (codes "/v2/" ++ (project ++ (codes "/" ++ rest)))
    front rest h =
        IsPlain-join [] (codes "v2/" ++ (project ++ (codes "/" ++ rest))) (refl, refl, refl)
          (IsPlain-join (codes "v2") (project ++ (codes "/" ++ rest)) (refl, refl, refl)
            (IsPlain-join project rest hp h))

    by_kind : (k : PathKind) → IsPlain (upstream_path k project image reference)
    by_kind tags = front (image ++ codes "/tags/list") (
        IsPlain-join image (codes "tags/list") hi
          (IsPlain-join (codes "tags") (codes "list") (refl, refl, refl) (refl, refl, refl)))
    by_kind manifests = front (image ++ (marker manifests ++ reference)) (
        IsPlain-join image (codes "manifests/" ++ reference) hi
          (IsPlain-join (codes "manifests") reference (refl, refl, refl) hr))
    by_kind blobs = front (image ++ (marker blobs ++ reference)) (
        IsPlain-join image (codes "blobs/" ++ reference) hi
          (IsPlain-join (codes "blobs") reference (refl, refl, refl) hr))

-- For every request path that `parse_path` accepts and every project name that passes its check,
-- the path sent upstream has no segment "..", no backslash and no control character.
pub upstream_path-safe :
    (path project : Text) (p : ParsedPath)
    → parse_path path ≡ ok p
    → is_safe_project_name project ≡ true
    → let url = upstream_path p.kind project (normalize_docker_library_image p.image) p.reference in
      All (λ segment. segment ≢ dots) (split b'/' url)
      × (has_char b'\\' url ≡ false)
      × (any is_control url ≡ false)
upstream_path-safe path project p e hp =
    let parsed = parse_path-IsParse path p e in
    let (d, b, c) =
      upstream_path-IsPlain p.kind project (normalize_docker_library_image p.image) p.reference
        (project-IsPlain project hp) (normalize-IsPlain p.image parsed.safe_image)
        (reference-IsPlain p.reference parsed.safe_reference) in
    (split-ne-dots _ d, b, c)
