-- ===== src/Handlers/Logs.antt =====
-- `logging_middleware` and `sanitize_log_field` of src/proxy.rs. Slicing a text inside a character
-- panics: `none`.
pub mod Sanitized
use harbor_router.Common.{
  ℕ, ◌+◌, ◌-◌, Bool, true, false, ◌||◌, Option, none, some, List, [], ◌∷◌, leb, ltb, ◌==◌,
  if◌then◌else◌, is_control, lookup, contains, text_eq, Text, codes,
}
use harbor_router.Resolver.Status.{status_class}
use harbor_router.Handlers.Headers.{Reaction}

-- The bytes of a character, and of a text, in UTF-8.
abbrev pub len_utf8 : ℕ → ℕ
len_utf8 c = if ltb c 128 then 1 else if ltb c 2048 then 2 else if ltb c 65536 then 3 else 4

unfoldable pub byte_len : Text → ℕ
byte_len [] = 0
byte_len (c ∷ s) = len_utf8 c + byte_len s

-- `&s[..n]` for `n <= s.len()`.
unfoldable pub slice_to : ℕ → Text → Option Text
slice_to n [] = some []
slice_to n (c ∷ s) =
    let rest = slice_to (n - len_utf8 c) s in
    if n == 0
    then some []
    else if ltb n (len_utf8 c)
    then none
    else elim rest [ none ↦ none | some t ↦ some (c ∷ t) ]

unfoldable pub replace_controls : Text → Text
replace_controls [] = []
replace_controls (c ∷ s) = (if is_control c then b' ' else c) ∷ replace_controls s

unfoldable pub sanitize_log_field : Text → Option Text
sanitize_log_field s =
    let truncated = if ltb 512 (byte_len s) then slice_to 512 s else some s in
    elim truncated [ none ↦ none | some t ↦ some (replace_controls t) ]

unfoldable pub req_type : Text → Text
req_type path =
    if contains (codes "/tags/list") path
    then codes "tags"
    else if contains (codes "/manifests/") path
    then codes "manifest"
    else if contains (codes "/blobs/") path
    then codes "blob"
    else if text_eq path (codes "/v2/") || text_eq path (codes "/v2")
    then codes "v2check"
    else if text_eq path (codes "/healthz") || text_eq path (codes "/readyz")
    then codes "health"
    else codes "other"

pub data Level : Type 0 where
  warn debug info : Level

unfoldable pub log_level : ℕ → Text → Level
log_level status kind =
    if leb 400 status
    then warn
    else if text_eq kind (codes "blob")
        || text_eq kind (codes "v2check")
        || text_eq kind (codes "health")
    then debug
    else info

pub record LogEntry : Type 0 where
  pub level : Level
  pub method : Text
  pub path : Text
  pub status : ℕ
  pub class : Text
  pub kind : Text

-- What is logged, with the labels of the metrics that are counted.
abbrev pub entry_of : (method clean : Text) → Reaction → LogEntry
entry_of method clean response = record {
  level = log_level response.status (req_type clean);
  method = method;
  path = clean;
  status = response.status;
  class = status_class response.status;
  kind = req_type clean;
}

-- The middleware hands the response on as it is.
unfoldable pub logging_middleware : (method path : Text) → Reaction → Option (LogEntry × Reaction)
logging_middleware method path response = elim (sanitize_log_field path) [
  | none ↦ none
  | some clean ↦ some (entry_of method clean response, response)
]
