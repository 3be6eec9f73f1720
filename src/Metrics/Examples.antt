-- ===== src/Metrics/Examples.antt =====
-- The theorems on the tables of images at small tables.
use harbor_router.Common.{
  ℕ, ◌≤◌, ◌≡◌, refl, [], ◌∷◌, arith, length, Text, codes, Dict, text_eq, insert, lookup,
}
use harbor_router.Metrics.Popularity.{
  max_tracked_images, record_request, maybe_evict_entries, next_count, top_images, sort_counts,
  insert_sorted,
}
use harbor_router.Metrics.Popularity.Bounded.{length-record_request}
use harbor_router.Metrics.Popularity.Top.{IsTop, top_images-IsTop}
use harbor_router.Metrics.Render.{escape_label_value, replace, image_line, manifest_images}
use harbor_router.Common.{◌++◌, some, print_u64}
use harbor_router.Metrics.Render.Escaped.{read_label, image_line-read}

abbrev table : Dict ℕ
table = (codes "nginx:1", 12) ∷ (codes "redis:7", 40) ∷ (codes "go:1", 3) ∷ []

counted :
    record_request (codes "go:1") table
    ≡ (codes "nginx:1", 12) ∷ (codes "redis:7", 40) ∷ (codes "go:1", 4) ∷ []
unfolding record_request maybe_evict_entries next_count insert lookup text_eq
counted = refl

ranked : top_images 5 table ≡ (codes "redis:7", 40) ∷ (codes "nginx:1", 12) ∷ []
unfolding top_images sort_counts insert_sorted
ranked = refl

length-record_request_example : length (record_request (codes "go:1") table) ≤ max_tracked_images
length-record_request_example = length-record_request (codes "go:1") table (omega arith)

top_images-IsTop_example : IsTop 1 table (top_images 1 table)
top_images-IsTop_example = top_images-IsTop 1 table

escaped : escape_label_value (codes "a\"b\\c\nd") ≡ codes "a\\\"b\\\\c\\nd"
unfolding escape_label_value replace
escaped = refl

image_line-read_example :
    (written : Text) × (image_line manifest_images (codes "nginx\"} 1", 12)
      ≡ manifest_images ++ (codes "{image=\"" ++ written))
    × (read_label written ≡ some (codes "nginx\"} 1", codes "} " ++ (print_u64 12 ++ codes "\n")))
image_line-read_example = image_line-read manifest_images (codes "nginx\"} 1") 12
