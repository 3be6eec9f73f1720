-- ===== src/Proxy/Examples.antt =====
-- The theorems on paths and URLs at concrete requests, and runs of `parse_path`.
use harbor_router.Common.{
  ◌≡◌, ◌≢◌, refl, false, ◌∷◌, ◌++◌, All, any, has_char, is_control, split, Text, codes, text_eq,
  trim, ok, contains, starts_with, ends_with, strip_prefix, strip_suffix, rfind,
}
use harbor_router.Validation.{
  dots, is_safe_project_name, is_safe_image_name, is_safe_reference, normalize_docker_library_image,
}
use harbor_router.Proxy.Paths.{
  manifests, blobs, ParsedPath, parse_path, parse_reference, parse_tags,
}
use harbor_router.Proxy.Paths.Sound.{print_path}
use harbor_router.Proxy.Paths.Encoded.{encoded_dots, parse_path-encoded_dots}
use harbor_router.Proxy.Urls.{upstream_path, upstream_path-safe}
use harbor_router.Common.{◌↔◌}
use harbor_router.Proxy.Paths.Spelled.{IsSpelled, parse_path_iff}

abbrev nginx_path : Text
nginx_path = codes "library/nginx/manifests/latest"

abbrev nginx : ParsedPath
nginx = record { image = codes "library/nginx"; kind = manifests; reference = codes "latest" }

abbrev alpine_blob : ParsedPath
alpine_blob = record { image = codes "alpine"; kind = blobs; reference = codes "sha256:ab" }

nginx_parsed : parse_path nginx_path ≡ ok nginx
unfolding parse_path parse_reference parse_tags is_safe_image_name is_safe_reference contains
    starts_with ends_with strip_suffix strip_prefix rfind text_eq trim
nginx_parsed = refl

parse_path-encoded_dots_example :
    parse_path (
      print_path (record {
        image = codes "a" ++ b'/' ∷ (encoded_dots ++ b'/' ∷ codes "b");
        kind = manifests;
        reference = codes "v1";
      }))
    ≡ ok (record {
      image = codes "a" ++ b'/' ∷ (encoded_dots ++ b'/' ∷ codes "b");
      kind = manifests;
      reference = codes "v1";
    })
unfolding is_safe_image_name is_safe_reference contains starts_with ends_with text_eq trim
parse_path-encoded_dots_example =
    parse_path-encoded_dots (codes "a") (codes "b") (codes "v1") refl refl refl

upstream_path-safe_example :
    All
      (λ segment. segment ≢ dots)
      (split b'/' (
        upstream_path manifests
          (codes "hub")
          (normalize_docker_library_image (codes "library/nginx"))
          (codes "latest")))
    × (has_char b'\\' (
          upstream_path manifests
            (codes "hub")
            (normalize_docker_library_image (codes "library/nginx"))
            (codes "latest"))
        ≡ false)
    × (any is_control (
          upstream_path manifests
            (codes "hub")
            (normalize_docker_library_image (codes "library/nginx"))
            (codes "latest"))
        ≡ false)
unfolding is_safe_project_name contains starts_with text_eq trim
upstream_path-safe_example = upstream_path-safe nginx_path (codes "hub") nginx nginx_parsed refl

parse_path_iff_example : (parse_path nginx_path ≡ ok nginx) ↔ IsSpelled nginx_path nginx
parse_path_iff_example = parse_path_iff nginx_path nginx
