-- ===== src/Handlers/Headers.antt =====
-- `copy_headers`, `build_response` and `error_response` of src/proxy.rs. The list of `src` has one
-- entry for each value of a header, in order, as a `HeaderMap` is iterated.
pub mod Allowed
use harbor_router.Common.{
  ℕ, ◌++◌, Bool, true, false, ◌&&◌, Option, none, some, List, [], ◌∷◌, any, leb, ltb, if◌then◌else◌,
  Text, codes, text_eq, Dict, insert,
}

pub record Reaction : Type 0 where
  pub status : ℕ
  pub headers : Dict Text
  pub body : Text

abbrev pub allowed_response_headers : List Text
allowed_response_headers =
    codes "content-type"
    ∷ codes "content-length"
    ∷ codes "docker-content-digest"
    ∷ codes "docker-distribution-api-version"
    ∷ codes "etag"
    ∷ codes "accept-ranges"
    ∷ codes "content-range"
    ∷ codes "location"
    ∷ codes "cache-control"
    ∷ codes "x-content-type-options"
    ∷ codes "www-authenticate"
    ∷ []

unfoldable pub is_allowed : Text → Bool
is_allowed name = any (λ allowed. text_eq allowed name) allowed_response_headers

-- `insert` replaces, so that the last value of a header is kept.
unfoldable pub copy_headers : List (Text × Text) → Dict Text → Dict Text
copy_headers [] dst = dst
copy_headers ((name, value) ∷ src) dst =
    copy_headers src (if is_allowed name then insert name value dst else dst)

-- `StatusCode::from_u16(status).unwrap_or(default)`.
abbrev pub status_or : ℕ → ℕ → ℕ
status_or default status = if leb 100 status && ltb status 1000 then status else default

unfoldable pub build_response : ℕ → List (Text × Text) → Text → Reaction
build_response status upstream_headers body = record {
  status = status_or 500 status;
  headers = copy_headers upstream_headers [];
  body = body;
}

-- The codes and messages are the program's own and hold nothing that JSON escapes, but for the
-- message of a path's error, which holds no such character either.
abbrev pub error_body : Text → Text → Text
error_body code message =
    codes "{\"errors\":[{\"code\":\""
    ++ (code ++ (codes "\",\"message\":\"" ++ (message ++ codes "\"}]}")))

unfoldable pub error_response : ℕ → Text → Text → Reaction
error_response status code message = record {
  status = status;
  headers = (codes "content-type", codes "application/json") ∷ [];
  body = error_body code message;
}
