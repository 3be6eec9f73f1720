-- ===== src/Resolver/Status.antt =====
-- How src/resolver.rs reads status codes and the messages of errors.
use harbor_router.Common.{ℕ, Bool, not, ◌&&◌, ◌||◌, leb, ltb, if◌then◌else◌, Text, codes, contains}

abbrev pub within : ℕ → ℕ → ℕ → Bool
within lo hi n = leb lo n && leb n hi

unfoldable pub status_class : ℕ → Text
status_class code =
    if within 200 299 code
    then codes "2xx"
    else if within 300 399 code
    then codes "3xx"
    else if within 400 499 code
    then codes "4xx"
    else codes "5xx"

unfoldable pub is_client_error_status : ℕ → Bool
is_client_error_status status = leb 400 status && ltb status 500

unfoldable pub is_retryable_status : ℕ → Bool
is_retryable_status status = within 502 504 status

unfoldable pub should_record_transport_failure : Text → Bool
should_record_transport_failure msg = not (
    contains (codes "builder error") msg
    || contains (codes "invalid URL") msg
    || contains (codes "relative URL without a base") msg)

unfoldable pub is_retryable_error : Text → Bool
is_retryable_error msg =
    contains (codes "timeout") msg
    || contains (codes "connection") msg
    || contains (codes "reset") msg
    || contains (codes "broken pipe") msg
    || contains (codes "timed out") msg

unfoldable pub classify_retry_reason : Text → Text
classify_retry_reason msg =
    if contains (codes "timeout") msg || contains (codes "timed out") msg
    then codes "timeout"
    else codes "connection"

abbrev pub not_found_tail : Text
not_found_tail = codes "not found in any proxy-cache project"

unfoldable pub is_all_projects_non_200 : Text → Bool
is_all_projects_non_200 msg = contains not_found_tail msg
