-- ===== src/Metrics/Render.antt =====
-- `render` and `escape_label_value` of src/metrics.rs. The text of the registered metrics comes from the
-- library, which may fail.
pub mod Escaped
use harbor_router.Common.{
  ℕ, ◌++◌, List, [], ◌∷◌, ◌==◌, if◌then◌else◌, length, print_u64, Text, codes, Dict, Outcome, ok,
  ◌>>=◌,
}
use harbor_router.Metrics.Popularity.{top_images}

abbrev pub top_n_images : ℕ
top_n_images = 100

-- `str::replace` of a character.
unfoldable pub replace : ℕ → Text → Text → Text
replace c by [] = []
replace c by (d ∷ s) = (if d == c then by else d ∷ []) ++ replace c by s

unfoldable pub escape_label_value : Text → Text
escape_label_value s =
    replace b'\n' (codes "\\n") (replace b'"' (codes "\\\"") (replace b'\\' (codes "\\\\") s))

-- One sample with the label `image`.
unfoldable pub image_line : (name : Text) → Text × ℕ → Text
image_line name (image, count) =
    name
    ++ (codes "{image=\""
        ++ (escape_label_value image ++ (codes "\"} " ++ (print_u64 count ++ codes "\n"))))

unfoldable pub image_lines : (name : Text) → List (Text × ℕ) → Text
image_lines name [] = []
image_lines name (e ∷ es) = image_line name e ++ image_lines name es

unfoldable pub tracked_line : (type : Text) → Dict ℕ → Text
tracked_line type table =
    codes "harbor_router_tracked_images_total{type=\""
    ++ (type ++ (codes "\"} " ++ (print_u64 (length table) ++ codes "\n")))

abbrev pub manifest_images : Text
manifest_images = codes "harbor_router_top_manifest_images"

abbrev pub blob_images : Text
blob_images = codes "harbor_router_top_blob_images"

unfoldable pub render :
    (encoded : Outcome Text) → (manifest_requests blob_requests : Dict ℕ) → Outcome Text
unfolding image_lines tracked_line
render encoded manifest_requests blob_requests = do
  buf ← encoded
  ok (
      buf
      ++ (codes
            "\n# HELP harbor_router_top_manifest_images Top requested images by manifest pulls\n"
          ++ (codes "# TYPE harbor_router_top_manifest_images gauge\n"
              ++ (image_lines manifest_images (top_images top_n_images manifest_requests)
                  ++ (codes
                        "\n# HELP harbor_router_top_blob_images Top requested images by blob pulls\n"
                      ++ (codes "# TYPE harbor_router_top_blob_images gauge\n"
                          ++ (image_lines blob_images (top_images top_n_images blob_requests)
                              ++ (codes
                                    "\n# HELP harbor_router_tracked_images_total Number of unique images being tracked\n"
                                  ++ (codes "# TYPE harbor_router_tracked_images_total gauge\n"
                                      ++ (tracked_line (codes "manifest") manifest_requests
                                          ++ tracked_line (codes "blob") blob_requests))))))))))
