-- ===== src/Metrics/Popularity.antt =====
-- `record_manifest_request`, `record_blob_request`, the eviction and the top images of src/metrics.rs.
-- The two tables have the same code. A table is iterated in the order of its list.
pub mod Bounded
pub mod Top
use harbor_router.Common.{
  ℕ, ◌+◌, ◌/◌, ◌%◌, ◌^◌, ◌++◌, Bool, Option, none, some, List, [], ◌∷◌, leb, ltb, if◌then◌else◌,
  keep, length, take, Text, Dict, lookup, insert, remove,
}

abbrev pub max_tracked_images : ℕ
max_tracked_images = 10000

abbrev pub min_requests_for_top_n : ℕ
min_requests_for_top_n = 10

-- The keys with a count of at most one.
unfoldable pub rare_keys : Dict ℕ → List Text
rare_keys [] = []
rare_keys ((key, count) ∷ table) =
    let rest = rare_keys table in if leb count 1 then key ∷ rest else rest

unfoldable pub remove_all : List Text → Dict ℕ → Dict ℕ
remove_all [] table = table
remove_all (key ∷ keys) table = remove_all keys (remove key table)

unfoldable pub maybe_evict_entries : Dict ℕ → Dict ℕ
maybe_evict_entries table =
    let keys_to_remove = take (max_tracked_images / 10) (rare_keys table) in
    if ltb max_tracked_images (length table) then remove_all keys_to_remove table else table

-- `*count += 1` on a u64, in a build without overflow checks.
unfoldable pub next_count : Option ℕ → ℕ
next_count none = 1
next_count (some count) = (count + 1) % 2 ^ 64

unfoldable pub record_request : Text → Dict ℕ → Dict ℕ
record_request key table = maybe_evict_entries (insert key (next_count (lookup key table)) table)

abbrev pub record_manifest_request : Text → Text → Dict ℕ → Dict ℕ
record_manifest_request image reference table = record_request (image ++ b':' ∷ reference) table

abbrev pub record_blob_request : Text → Dict ℕ → Dict ℕ
record_blob_request image table = record_request image table

-- The stable sort with the greatest count first.
unfoldable pub insert_sorted : Text × ℕ → List (Text × ℕ) → List (Text × ℕ)
insert_sorted e [] = e ∷ []
insert_sorted e (f ∷ es) = if leb f.1 e.1 then e ∷ f ∷ es else f ∷ insert_sorted e es

unfoldable pub sort_counts : List (Text × ℕ) → List (Text × ℕ)
sort_counts [] = []
sort_counts (e ∷ es) = insert_sorted e (sort_counts es)

unfoldable pub top_images : ℕ → Dict ℕ → List (Text × ℕ)
top_images n table = take n (sort_counts (keep (λ e. leb min_requests_for_top_n e.1) table))
