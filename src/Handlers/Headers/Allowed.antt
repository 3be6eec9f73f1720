-- ===== src/Handlers/Headers/Allowed.antt =====
-- Which headers reach the client.
use harbor_router.Common.{
  ◌≡◌, Option, some, List, [], ◌∷◌, arith, if◌then◌else◌, Text, text_eq, text_eq_iff, Dict, lookup,
  insert, lookup-insert,
}
use harbor_router.Handlers.Headers.{is_allowed, copy_headers}

-- The last value of a header.
unfoldable pub last_value : Text → List (Text × Text) → Option Text → Option Text
last_value name [] before = before
last_value name ((n, value) ∷ src) before =
    last_value name src (if text_eq n name then some value else before)

-- After the headers are copied, an allowed header has the last value that the source has for it,
-- or else its old one, and every other header is as it was.
pub lookup-copy_headers :
    (name : Text) (src : List (Text × Text)) (dst : Dict Text)
    → lookup name (copy_headers src dst)
      ≡ (if is_allowed name then last_value name src (lookup name dst) else lookup name dst)
unfolding copy_headers last_value
lookup-copy_headers name [] dst = ground arith
lookup-copy_headers name ((n, value) ∷ src) dst = ground (
  arith,
  lookup-copy_headers name src dst,
  lookup-copy_headers name src (insert n value dst),
  lookup-insert n name value dst,
  text_eq_iff n name,
)
