-- ===== src/Proxy/Paths.antt =====
-- `parse_path` of src/proxy.rs: what follows the proxy project in a request's path.
pub mod Sound
pub mod RoundTrip
pub mod Encoded
pub mod Spelled
use harbor_router.Common.{
  ℕ, ◌+◌, true, false, not, ◌||◌, none, some, ◌++◌, length, take, drop, is_empty, if◌then◌else◌,
  Text, codes, rfind, strip_suffix, Outcome, ok, err,
}
use harbor_router.Validation.{is_safe_image_name, is_safe_reference}

pub data PathKind : Type 0 where
  manifests blobs tags : PathKind

pub record ParsedPath : Type 0 where
  pub image : Text
  pub kind : PathKind
  pub reference : Text

abbrev pub marker : PathKind → Text
marker manifests = codes "/manifests/"
marker blobs = codes "/blobs/"
marker tags = codes "/tags/list"

abbrev pub unsafe_image : Text
unsafe_image = codes "invalid image name: unsafe characters or path traversal"

abbrev pub unsafe_reference : Text
unsafe_reference = codes "invalid reference: unsafe characters or path traversal"

-- The branch of a marker that was found at `idx`, the same for manifests and blobs.
unfoldable pub parse_reference : PathKind → Text → ℕ → Outcome ParsedPath
parse_reference kind path idx =
    let image = take idx path in
    let reference = drop (idx + length (marker kind)) path in
    if is_empty image || is_empty reference
    then err (codes "invalid path: missing image or reference")
    else if not (is_safe_image_name image)
    then err unsafe_image
    else if not (is_safe_reference reference)
    then err unsafe_reference
    else ok (record { image = image; kind = kind; reference = reference })

unfoldable pub parse_tags : Text → Outcome ParsedPath
parse_tags image =
    if is_empty image
    then err (codes "invalid path: missing image name")
    else if not (is_safe_image_name image)
    then err unsafe_image
    else ok (record { image = image; kind = tags; reference = codes "list" })

unfoldable pub parse_path : Text → Outcome ParsedPath
parse_path path = elim (strip_suffix (marker tags) path) [
  | some image ↦ parse_tags image
  | none ↦ elim (rfind (marker manifests) path) [
    | some idx ↦ parse_reference manifests path idx
    | none ↦ elim (rfind (marker blobs) path) [
      | some idx ↦ parse_reference blobs path idx
      | none ↦ err (codes "path must contain /manifests/, /blobs/, or /tags/list")
    ]
  ]
]
