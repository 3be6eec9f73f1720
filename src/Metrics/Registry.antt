-- ===== src/Metrics/Registry.antt =====
-- `Metrics` and `global` of src/metrics.rs: the metrics that are registered, with their labels. Their
-- help texts and the bounds of the histograms' buckets are not modelled.
pub mod Names
use harbor_router.Common.{
  Bool, Option, none, some, List, [], ◌∷◌, ◌&&◌, ◌||◌, all, leb, ◌==◌, if◌then◌else◌, text_eq, Text,
  codes,
}

pub data Kind : Type 0 where
  counter gauge histogram : Kind

-- A metric whose label list is empty is registered without labels.
pub record Metric : Type 0 where
  pub kind : Kind
  pub name : Text
  pub labels : List Text

pub data Field : Type 0 where
  requests_total : Field
  request_duration : Field
  inflight_requests : Field
  response_bytes_total : Field
  rate_limit_rejected_total : Field
  resolve_duration : Field
  tags_resolve_duration : Field
  cache_lookups_total : Field
  negative_cache_hits_total : Field
  cache_stale_serves_total : Field
  singleflight_dedup_total : Field
  singleflight_inflight : Field
  singleflight_wait_duration : Field
  upstream_requests_total : Field
  upstream_project_duration : Field
  upstream_connection_errors_total : Field
  blob_proxy_duration : Field
  blob_probe_total : Field
  fanout_size : Field
  discovered_projects : Field
  discovery_errors_total : Field
  discovery_last_success_timestamp : Field
  discovery_duration : Field
  circuit_breaker_state : Field
  circuit_breaker_transitions_total : Field
  retries_total : Field
  redis_operations_total : Field
  redis_fallback_total : Field
  redis_reconnections_total : Field
  cache_entries : Field
  build_info : Field
  image_requests_total : Field

abbrev pub metric : Kind → Text → List Text → Metric
metric kind name labels = record { kind = kind; name = name; labels = labels }

abbrev pub metric_of : Field → Metric
metric_of requests_total =
    metric counter (codes "harbor_router_requests_total")
      (codes "method" ∷ codes "type" ∷ codes "status" ∷ [])
metric_of request_duration =
    metric histogram (codes "harbor_router_request_duration_seconds")
      (codes "method" ∷ codes "req_type" ∷ codes "status_class" ∷ [])
metric_of inflight_requests = metric gauge (codes "harbor_router_inflight_requests") []
metric_of response_bytes_total =
    metric counter (codes "harbor_router_response_bytes_total") (codes "req_type" ∷ [])
metric_of rate_limit_rejected_total =
    metric counter (codes "harbor_router_rate_limit_rejected_total") []
metric_of resolve_duration =
    metric histogram (codes "harbor_router_resolve_duration_seconds") (codes "result" ∷ [])
metric_of tags_resolve_duration =
    metric histogram (codes "harbor_router_tags_resolve_duration_seconds") (codes "result" ∷ [])
metric_of cache_lookups_total =
    metric counter (codes "harbor_router_cache_lookups_total") (codes "result" ∷ [])
metric_of negative_cache_hits_total =
    metric counter (codes "harbor_router_negative_cache_hits_total") []
metric_of cache_stale_serves_total =
    metric counter (codes "harbor_router_cache_stale_serves_total") []
metric_of singleflight_dedup_total =
    metric counter (codes "harbor_router_singleflight_dedup_total") []
metric_of singleflight_inflight = metric gauge (codes "harbor_router_singleflight_inflight") []
metric_of singleflight_wait_duration =
    metric histogram (codes "harbor_router_singleflight_wait_duration_seconds") []
metric_of upstream_requests_total =
    metric counter (codes "harbor_router_upstream_requests_total")
      (codes "project" ∷ codes "status" ∷ [])
metric_of upstream_project_duration =
    metric histogram (codes "harbor_router_upstream_project_duration_seconds")
      (codes "project" ∷ [])
metric_of upstream_connection_errors_total =
    metric counter (codes "harbor_router_upstream_connection_errors_total") (codes "reason" ∷ [])
metric_of blob_proxy_duration =
    metric histogram (codes "harbor_router_blob_proxy_duration_seconds") (codes "result" ∷ [])
metric_of blob_probe_total =
    metric counter (codes "harbor_router_blob_probe_total") (codes "result" ∷ [])
metric_of fanout_size = metric histogram (codes "harbor_router_fanout_size") []
metric_of discovered_projects = metric gauge (codes "harbor_router_discovered_projects") []
metric_of discovery_errors_total = metric counter (codes "harbor_router_discovery_errors_total") []
metric_of discovery_last_success_timestamp =
    metric gauge (codes "harbor_router_discovery_last_success_timestamp_seconds") []
metric_of discovery_duration =
    metric histogram (codes "harbor_router_discovery_duration_seconds") []
metric_of circuit_breaker_state =
    metric gauge (codes "harbor_router_circuit_breaker_state") (codes "project" ∷ [])
metric_of circuit_breaker_transitions_total =
    metric counter (codes "harbor_router_circuit_breaker_transitions_total")
      (codes "project" ∷ codes "from" ∷ codes "to" ∷ [])
metric_of retries_total =
    metric counter (codes "harbor_router_retries_total") (codes "project" ∷ codes "reason" ∷ [])
metric_of redis_operations_total =
    metric counter (codes "harbor_router_redis_operations_total")
      (codes "operation" ∷ codes "result" ∷ [])
metric_of redis_fallback_total = metric counter (codes "harbor_router_redis_fallback_total") []
metric_of redis_reconnections_total =
    metric counter (codes "harbor_router_redis_reconnections_total") []
metric_of cache_entries = metric gauge (codes "harbor_router_cache_entries") (codes "backend" ∷ [])
metric_of build_info =
    metric gauge (codes "harbor_router_build_info") (codes "version" ∷ codes "commit" ∷ [])
metric_of image_requests_total =
    metric counter (codes "harbor_router_image_requests_total") (codes "type" ∷ [])

-- The fields in the order in which they are registered.
abbrev pub registered : List Field
registered =
    requests_total ∷ request_duration ∷ inflight_requests ∷ response_bytes_total
    ∷ rate_limit_rejected_total ∷ resolve_duration ∷ tags_resolve_duration ∷ cache_lookups_total
    ∷ negative_cache_hits_total ∷ cache_stale_serves_total ∷ singleflight_dedup_total
    ∷ singleflight_inflight ∷ singleflight_wait_duration ∷ upstream_requests_total
    ∷ upstream_project_duration ∷ upstream_connection_errors_total ∷ blob_proxy_duration
    ∷ blob_probe_total ∷ fanout_size ∷ discovered_projects ∷ discovery_errors_total
    ∷ discovery_last_success_timestamp ∷ discovery_duration ∷ circuit_breaker_state
    ∷ circuit_breaker_transitions_total ∷ retries_total ∷ redis_operations_total
    ∷ redis_fallback_total ∷ redis_reconnections_total ∷ cache_entries ∷ build_info
    ∷ image_requests_total ∷ []
