-- ===== src/Handlers/Registry/Routing.antt =====
-- Which requests reach which handler.
use harbor_router.Common.{
  ℕ, ◌+◌, ◌++◌, ◌<◌, ◌≡◌, refl, sym, ap, ◌∙◌, true, none, some, List, arith, ltb, all, keep, length,
  drop, length-append, drop-append_length, rfind, Text, codes,
}
use harbor_router.Validation.{is_safe_image_name, is_safe_reference}
use harbor_router.Cache.{CacheBackend}
use harbor_router.Proxy.Paths.{PathKind, ParsedPath, manifests, blobs, tags, marker, parse_path}
use harbor_router.Proxy.Paths.Sound.{print_kind, print_path}
use harbor_router.Proxy.Paths.RoundTrip.{parse_path-print}
use harbor_router.Resolver.World.{Environment, Settings}
use harbor_router.Resolver.Fanout.{is_visible_ascii}
use harbor_router.Handlers.Blobs.{Gateway}
use harbor_router.Handlers.Registry.{remainder, lacks_auth, dispatch, registry_handler}

-- The path of a request for something of the proxy project.
abbrev pub request_path : Text → ParsedPath → Text
request_path proxy_project p = (codes "/v2/" ++ (proxy_project ++ codes "/")) ++ print_path p

pub length-print_kind :
    (kind : PathKind) (image reference : Text) → 0 < length (print_kind kind image reference)
length-print_kind tags image reference = omega (arith, length-append {A = ℕ} image (marker tags))
length-print_kind manifests image reference =
    omega (arith, length-append {A = ℕ} image (marker manifests ++ reference))
length-print_kind blobs image reference =
    omega (arith, length-append {A = ℕ} image (marker blobs ++ reference))

remainder-request_path :
    (proxy_project : Text) (p : ParsedPath)
    → remainder proxy_project (request_path proxy_project p) ≡ print_path p
unfolding remainder
remainder-request_path proxy_project p =
    let front = codes "/v2/" ++ (proxy_project ++ codes "/") in
    let len : length front ≡ 4 + length proxy_project + 1 =
      omega (arith, length-append {A = ℕ} proxy_project (codes "/")) in
    let whole = length-append {A = ℕ} front (print_path p) in
    let some_path = length-print_kind p.kind p.image p.reference in
    let longer : ltb (4 + length proxy_project + 1) (length (front ++ print_path p)) ≡ true =
      ground (arith, len, whole, some_path) in
    rw longer
      (ap (λ n. drop n (front ++ print_path p)) (sym len) ∙ drop-append_length front (print_path p))

-- A request with credentials whose path is "/v2/", the proxy project and a checked image and
-- reference of some kind goes to the handler of that kind with that image and reference. (A tag
-- list has the reference "list"; for a blob, the path must not also spell "/manifests/".)
pub registry_handler-dispatch :
    {c : CacheBackend} (settings : Settings) (env : Environment) (proxy_project : Text)
    (p : ParsedPath) (auth : Text) (accept : List Text) (g : Gateway c)
    → all is_visible_ascii auth ≡ true
    → is_safe_image_name p.image ≡ true
    → is_safe_reference p.reference ≡ true
    → (p.kind ≡ tags → p.reference ≡ codes "list")
    → (p.kind ≡ blobs → rfind (marker manifests) (print_path p) ≡ none)
    → registry_handler settings env proxy_project
        (record { path = request_path proxy_project p; authorization = some auth; accept = accept })
        g
      ≡ dispatch settings env p (keep (λ v. all is_visible_ascii v) accept) g
unfolding registry_handler lacks_auth
registry_handler-dispatch settings env proxy_project p auth accept g visible hi hr ht hb =
    let parsed =
      ap parse_path (remainder-request_path proxy_project p) ∙ parse_path-print p hi hr ht hb in
    rw (visible, parsed, registry_handler) refl
