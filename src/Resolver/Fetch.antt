-- ===== src/Resolver/Fetch.antt =====
-- One request for a manifest, and its retries: `fetch_manifest` and `fetch_manifest_with_retry`.
pub mod Retries
use Prim.Native.Nat.{max}
use harbor_router.Common.{
  ℕ, zero, suc, ◌+◌, ◌*◌, ◌%◌, ◌^◌, ◌++◌, Bool, true, false, ◌&&◌, Option, none, some, List, [],
  ◌∷◌, ltb, if◌then◌else◌, Text, codes, Outcome, ok, err,
}
use harbor_router.Validation.{is_safe_project_name}
use harbor_router.Cache.{CacheBackend}
use harbor_router.Proxy.Paths.{manifests}
use harbor_router.Proxy.Urls.{upstream_path}
use harbor_router.Resolver.Status.{is_retryable_status, is_retryable_error}
use harbor_router.Resolver.World.{
  Response, Request, Method, Environment, Settings, World, of_reply, unsafe_project,
}

abbrev pub manifest_request : Settings → Text → Text → Text → List Text → Request
manifest_request settings project image reference accept = record {
  method = Method.get;
  url = settings.harbor_url ++ upstream_path manifests project image reference;
  authorization = settings.service_auth;
  accept = accept;
}

unfoldable pub is_retryable : Outcome Response → Bool
is_retryable (ok r) = is_retryable_status r.status
is_retryable (err e) = is_retryable_error e

-- `retry_base_delay * 2u32.pow(attempt)`, in a build without overflow checks.
abbrev pub retry_delay : Settings → ℕ → ℕ
retry_delay settings attempt = settings.retry_base_delay * (2 ^ attempt % 2 ^ 32)

module _ {c : CacheBackend} (settings : Settings) (env : Environment) where
  unfoldable pub fetch_manifest :
      (project image reference : Text) → List Text → World c → Outcome Response × World c
  fetch_manifest project image reference accept w =
      if is_safe_project_name project
      then (
        of_reply project
            (env.reply w.tick (manifest_request settings project image reference accept)),
        record w { tick = w.tick + 1 },
      )
      else (err (unsafe_project project), w)

  -- The rounds left of `for attempt in 0..max_attempts`; `none` is the `unreachable!` behind it.
  unfoldable pub retry_loop :
      (max_attempts left attempt : ℕ) (project image reference : Text)
      → List Text
      → World c
      → Option (Outcome Response) × World c
  retry_loop max_attempts zero attempt project image reference accept w = (none, w)
  retry_loop max_attempts (suc left) attempt project image reference accept w =
      let (r, w') = fetch_manifest project image reference accept w in
      let rest =
        retry_loop max_attempts left (attempt + 1) project image reference accept
          (record w' { slept = retry_delay settings attempt ∷ w'.slept }) in
      if is_retryable r && ltb (attempt + 1) max_attempts then rest else (some r, w')

  unfoldable pub fetch_manifest_with_retry :
      (project image reference : Text) → List Text → World c → Option (Outcome Response) × World c
  unfolding retry_loop
  fetch_manifest_with_retry project image reference accept w =
      let max_attempts = max settings.retry_max_attempts 1 in
      retry_loop max_attempts max_attempts 0 project image reference accept w
