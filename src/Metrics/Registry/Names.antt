-- ===== src/Metrics/Registry/Names.antt =====
-- The names of the registered metrics.
use harbor_router.Common.{
  ℕ, Bool, true, false, ◌≡◌, ◌∙◌, refl, sym, ap, Option, none, some, List, [], ◌∷◌, ◌&&◌, ◌||◌, all,
  any, leb, ◌==◌, not, if◌then◌else◌, is_ascii_digit, text_eq, Text,
}
use harbor_router.Metrics.Registry.{
  Field, metric_of, registered, requests_total, request_duration, inflight_requests,
  response_bytes_total, rate_limit_rejected_total, resolve_duration, tags_resolve_duration,
  cache_lookups_total, negative_cache_hits_total, cache_stale_serves_total,
  singleflight_dedup_total, singleflight_inflight, singleflight_wait_duration,
  upstream_requests_total, upstream_project_duration, upstream_connection_errors_total,
  blob_proxy_duration, blob_probe_total, fanout_size, discovered_projects, discovery_errors_total,
  discovery_last_success_timestamp, discovery_duration, circuit_breaker_state,
  circuit_breaker_transitions_total, retries_total, redis_operations_total, redis_fallback_total,
  redis_reconnections_total, cache_entries, build_info, image_requests_total,
}

abbrev is_letter : ℕ → Bool
is_letter c = (leb b'a' c && leb c b'z') || (leb b'A' c && leb c b'Z') || c == b'_'

-- A name that the text format allows for a label, and for a metric.
unfoldable pub is_name : Text → Bool
is_name [] = false
is_name (c ∷ s) = is_letter c && all (λ d. is_letter d || is_ascii_digit d) s

unfoldable pub lacks_repeats : List Text → Bool
lacks_repeats [] = true
lacks_repeats (label ∷ labels) = not (any (text_eq label) labels) && lacks_repeats labels

-- The first of some fields that has the name.
unfoldable pub field_named : Text → List Field → Option Field
field_named name [] = none
field_named name (f ∷ fs) = if text_eq (metric_of f).name name then some f else field_named name fs

field_named-name : (f : Field) → field_named (metric_of f).name registered ≡ some f
unfolding field_named text_eq
field_named-name requests_total = refl
field_named-name request_duration = refl
field_named-name inflight_requests = refl
field_named-name response_bytes_total = refl
field_named-name rate_limit_rejected_total = refl
field_named-name resolve_duration = refl
field_named-name tags_resolve_duration = refl
field_named-name cache_lookups_total = refl
field_named-name negative_cache_hits_total = refl
field_named-name cache_stale_serves_total = refl
field_named-name singleflight_dedup_total = refl
field_named-name singleflight_inflight = refl
field_named-name singleflight_wait_duration = refl
field_named-name upstream_requests_total = refl
field_named-name upstream_project_duration = refl
field_named-name upstream_connection_errors_total = refl
field_named-name blob_proxy_duration = refl
field_named-name blob_probe_total = refl
field_named-name fanout_size = refl
field_named-name discovered_projects = refl
field_named-name discovery_errors_total = refl
field_named-name discovery_last_success_timestamp = refl
field_named-name discovery_duration = refl
field_named-name circuit_breaker_state = refl
field_named-name circuit_breaker_transitions_total = refl
field_named-name retries_total = refl
field_named-name redis_operations_total = refl
field_named-name redis_fallback_total = refl
field_named-name redis_reconnections_total = refl
field_named-name cache_entries = refl
field_named-name build_info = refl
field_named-name image_requests_total = refl

some_injective : {f g : Field} → some f ≡ some g → f ≡ g
some_injective h = cc

pub metric_of-distinct : (f g : Field) → (metric_of f).name ≡ (metric_of g).name → f ≡ g
metric_of-distinct f g same = some_injective (
    sym (field_named-name f) ∙ (ap (λ name. field_named name registered) same ∙ field_named-name g))

pub metric_of-valid :
    (f : Field)
    → (is_name (metric_of f).name ≡ true)
      × (all is_name (metric_of f).labels ≡ true)
      × (lacks_repeats (metric_of f).labels ≡ true)
unfolding is_name lacks_repeats text_eq
metric_of-valid requests_total = (refl, refl, refl)
metric_of-valid request_duration = (refl, refl, refl)
metric_of-valid inflight_requests = (refl, refl, refl)
metric_of-valid response_bytes_total = (refl, refl, refl)
metric_of-valid rate_limit_rejected_total = (refl, refl, refl)
metric_of-valid resolve_duration = (refl, refl, refl)
metric_of-valid tags_resolve_duration = (refl, refl, refl)
metric_of-valid cache_lookups_total = (refl, refl, refl)
metric_of-valid negative_cache_hits_total = (refl, refl, refl)
metric_of-valid cache_stale_serves_total = (refl, refl, refl)
metric_of-valid singleflight_dedup_total = (refl, refl, refl)
metric_of-valid singleflight_inflight = (refl, refl, refl)
metric_of-valid singleflight_wait_duration = (refl, refl, refl)
metric_of-valid upstream_requests_total = (refl, refl, refl)
metric_of-valid upstream_project_duration = (refl, refl, refl)
metric_of-valid upstream_connection_errors_total = (refl, refl, refl)
metric_of-valid blob_proxy_duration = (refl, refl, refl)
metric_of-valid blob_probe_total = (refl, refl, refl)
metric_of-valid fanout_size = (refl, refl, refl)
metric_of-valid discovered_projects = (refl, refl, refl)
metric_of-valid discovery_errors_total = (refl, refl, refl)
metric_of-valid discovery_last_success_timestamp = (refl, refl, refl)
metric_of-valid discovery_duration = (refl, refl, refl)
metric_of-valid circuit_breaker_state = (refl, refl, refl)
metric_of-valid circuit_breaker_transitions_total = (refl, refl, refl)
metric_of-valid retries_total = (refl, refl, refl)
metric_of-valid redis_operations_total = (refl, refl, refl)
metric_of-valid redis_fallback_total = (refl, refl, refl)
metric_of-valid redis_reconnections_total = (refl, refl, refl)
metric_of-valid cache_entries = (refl, refl, refl)
metric_of-valid build_info = (refl, refl, refl)
metric_of-valid image_requests_total = (refl, refl, refl)
