-- ===== src/Proxy/Paths/Encoded.antt =====
-- Percent-encoded parent segments. `Uri::path` hands the path over as it was sent, and the URL
-- parser of the HTTP client reads the segment "%2e%2e" as "..".
use harbor_router.Common.{
  ◌≡◌, refl, true, ◌∷◌, ◌++◌, Text, codes, ok, contains, starts_with, ends_with, text_eq, trim,
}
use harbor_router.Validation.{is_safe_image_name, is_safe_reference}
use harbor_router.Validation.Closure.{join-is_safe_image_name}
use harbor_router.Proxy.Paths.{ParsedPath, manifests, parse_path}
use harbor_router.Proxy.Paths.Sound.{print_path}
use harbor_router.Proxy.Paths.RoundTrip.{parse_path-print}

abbrev pub encoded_dots : Text
encoded_dots = codes "%2e%2e"

encoded_dots_safe : is_safe_image_name encoded_dots ≡ true
unfolding is_safe_image_name contains starts_with ends_with text_eq trim
encoded_dots_safe = refl

-- Between any two image names that pass the check, the segment "%2e%2e" is accepted, and handed
-- on as part of the image.
pub parse_path-encoded_dots :
    (a b reference : Text)
    → is_safe_image_name a ≡ true
    → is_safe_image_name b ≡ true
    → is_safe_reference reference ≡ true
    → let p : ParsedPath = record {
      image = a ++ b'/' ∷ (encoded_dots ++ b'/' ∷ b);
      kind = manifests;
      reference = reference;
    } in
      parse_path (print_path p) ≡ ok p
parse_path-encoded_dots a b reference ha hb hr =
    parse_path-print _
      (join-is_safe_image_name a (encoded_dots ++ b'/' ∷ b) ha
        (join-is_safe_image_name encoded_dots b encoded_dots_safe hb))
      hr (λ e. cc) (λ e. cc)
