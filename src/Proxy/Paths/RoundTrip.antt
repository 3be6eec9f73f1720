-- ===== src/Proxy/Paths/RoundTrip.antt =====
-- Reading back a path that was spelled from its parts.
use native.Mathlib.Nat.{add-zero}
use harbor_router.Common.{
  ℕ, ◌≡◌, ◌≢◌, refl, sym, ap, ◌∙◌, true, false, not, ◌||◌, none, some, [], ◌∷◌, ◌++◌, arith, length,
  Option-cases, Bool-cases, inl, inr, Text, codes, rfind, strip_suffix, is_empty, has_char,
  starts_with, take-append_length, drop-append_length, drop-length_add, append_assoc, ◌==◌,
  if◌then◌else◌, ok,
}
use harbor_router.Validation.{is_safe_image_name, is_safe_reference}
use harbor_router.Proxy.Paths.{
  PathKind, manifests, blobs, tags, ParsedPath, marker, parse_reference, parse_tags, parse_path,
}
use harbor_router.Common.Search.{rfind-append, rfind-none, strip_suffix_split, strip_suffix-append}
use harbor_router.Proxy.Paths.Sound.{print_kind, print_path}

-- What stands before and after the last slash.
last_part : Text → Text
last_part [] = []
last_part (c ∷ s) =
    let rest = last_part s in if has_char b'/' s then rest else if c == b'/' then s else c ∷ s

init_part : Text → Text
init_part [] = []
init_part (c ∷ s) = let rest = init_part s in if has_char b'/' s then c ∷ rest else []

has_slash : (a b : Text) → has_char b'/' (a ++ b'/' ∷ b) ≡ true
has_slash [] b = refl
has_slash (c ∷ a) b = ground (arith, has_slash a b)

last_part-append : (a b : Text) → has_char b'/' b ≡ false → last_part (a ++ b'/' ∷ b) ≡ b
unfolding last_part
last_part-append [] b h = ground arith
last_part-append (c ∷ a) b h = rw (has_slash a b) (last_part-append a b h)

init_part-append : (a b : Text) → has_char b'/' b ≡ false → init_part (a ++ b'/' ∷ b) ≡ a
unfolding init_part
init_part-append [] b h = ground arith
init_part-append (c ∷ a) b h = rw (has_slash a b) (ap (λ t. c ∷ t) (init_part-append a b h))

-- Two spellings with slash-free last segments agree segment by segment.
slash_split :
    (a b a' b' : Text)
    → has_char b'/' b ≡ false
    → has_char b'/' b' ≡ false
    → a ++ b'/' ∷ b ≡ a' ++ b'/' ∷ b'
    → (a ≡ a') × (b ≡ b')
slash_split a b a' b' h h' e = (
  cc (ap init_part e, init_part-append a b h, init_part-append a' b' h'),
  cc (ap last_part e, last_part-append a b h, last_part-append a' b' h'),
)

-- A reference without a slash behind a marker does not make the path a tag list.
not_tags :
    (image word reference : Text)
    → has_char b'/' word ≡ false
    → word ≢ codes "tags"
    → has_char b'/' reference ≡ false
    → strip_suffix (marker tags) (image ++ b'/' ∷ (word ++ b'/' ∷ reference)) ≡ none
not_tags image word reference hw ne hr =
    elim (Option-cases (strip_suffix (marker tags) (image ++ b'/' ∷ (word ++ b'/' ∷ reference)))) [
      | inl missed ↦ missed
      | inr (r, found) ↦
          let spelled = strip_suffix_split (marker tags) _ r found in
          let outer =
            slash_split (image ++ b'/' ∷ word) reference (r ++ codes "/tags") (codes "list") hr refl
              (append_assoc image (b'/' ∷ word) (b'/' ∷ reference)
                ∙ spelled
                ∙ sym (append_assoc r (codes "/tags") (codes "/list"))) in
          let inner = slash_split image word r (codes "tags") hw refl outer.0 in absurd (ne inner.1)
    ]

starts_with-has_char :
    (c : ℕ) (p s : Text) → has_char c p ≡ true → starts_with p s ≡ true → has_char c s ≡ true
unfolding starts_with
starts_with-has_char c [] s h e = cc
starts_with-has_char c (d ∷ p) [] h e = cc
starts_with-has_char c (d ∷ p) (x ∷ s) h e = ground (arith, starts_with-has_char c p s)

not-starts_with :
    (c : ℕ) (p s : Text) → has_char c p ≡ true → has_char c s ≡ false → starts_with p s ≡ false
not-starts_with c p s h e = elim (Bool-cases (starts_with p s)) [
  | inl starts ↦ absurd (cc (starts_with-has_char c p s h starts, e))
  | inr no_start ↦ no_start
]

rfind-marker_manifests :
    (reference : Text)
    → has_char b'/' reference ≡ false
    → rfind (marker manifests) (marker manifests ++ reference) ≡ some 0
unfolding rfind starts_with
rfind-marker_manifests reference h = ground (
  arith,
  rfind-none b'/' (codes "manifests/") reference h,
  not-starts_with b'/' (codes "manifests/") reference refl h,
)

rfind-marker_blobs :
    (reference : Text)
    → has_char b'/' reference ≡ false
    → rfind (marker blobs) (marker blobs ++ reference) ≡ some 0
unfolding rfind starts_with
rfind-marker_blobs reference h = ground (
  arith,
  rfind-none b'/' (codes "blobs/") reference h,
  not-starts_with b'/' (codes "blobs/") reference refl h,
)

safe_reference_parts :
    (reference : Text)
    → is_safe_reference reference ≡ true
    → (is_empty reference ≡ false) × (has_char b'/' reference ≡ false)
unfolding is_safe_reference
safe_reference_parts reference h = ground arith

safe_image_parts : (image : Text) → is_safe_image_name image ≡ true → is_empty image ≡ false
unfolding is_safe_image_name
safe_image_parts image h = ground arith

parse_reference-print :
    (kind : PathKind) (image reference : Text)
    → is_safe_image_name image ≡ true
    → is_safe_reference reference ≡ true
    → parse_reference kind (image ++ (marker kind ++ reference)) (length image)
      ≡ ok (record { image = image; kind = kind; reference = reference })
unfolding parse_reference
parse_reference-print kind image reference hi hr =
    let front = take-append_length image (marker kind ++ reference) in
    let back =
      drop-length_add image (marker kind ++ reference) (length (marker kind))
      ∙ drop-append_length (marker kind) reference in
    simp (
      front,
      back,
      hi,
      hr,
      safe_image_parts image hi,
      (safe_reference_parts reference hr).0,
      ◌||◌,
      not,
      if◌then◌else◌,
    )

by_kind :
    (kind : PathKind) (image reference : Text)
    → is_safe_image_name image ≡ true
    → is_safe_reference reference ≡ true
    → (kind ≡ tags → reference ≡ codes "list")
    → (kind ≡ blobs → rfind (marker manifests) (print_kind kind image reference) ≡ none)
    → parse_path (print_kind kind image reference)
      ≡ ok (record { image = image; kind = kind; reference = reference })
unfolding parse_path
by_kind tags image reference hi hr ht hb =
    rw (strip_suffix-append (marker tags) image, parse_path)
      (unfold parse_tags in simp (hi, safe_image_parts image hi, ht refl, not, if◌then◌else◌))
by_kind manifests image reference hi hr ht hb =
    let (_, no_slash) = safe_reference_parts reference hr in
    let not_list : strip_suffix (marker tags) (print_kind manifests image reference) ≡ none =
      not_tags image (codes "manifests") reference refl (λ e. cc) no_slash in
    let found =
      rfind-append (marker manifests) image _ 0 (rfind-marker_manifests reference no_slash)
      ∙ ap some (add-zero (length image)) in
    rw (not_list, found, parse_path) (parse_reference-print manifests image reference hi hr)
by_kind blobs image reference hi hr ht hb =
    let (_, no_slash) = safe_reference_parts reference hr in
    let not_list : strip_suffix (marker tags) (print_kind blobs image reference) ≡ none =
      not_tags image (codes "blobs") reference refl (λ e. cc) no_slash in
    let found =
      rfind-append (marker blobs) image _ 0 (rfind-marker_blobs reference no_slash)
      ∙ ap some (add-zero (length image)) in
    rw (not_list, hb refl, found, parse_path) (parse_reference-print blobs image reference hi hr)

-- A checked image and a checked reference, spelled with the marker of their kind, are read back
-- as they were. (A tag list has the reference "list"; for a blob, the path must not also spell
-- "/manifests/", which is tried first.)
pub parse_path-print :
    (p : ParsedPath)
    → is_safe_image_name p.image ≡ true
    → is_safe_reference p.reference ≡ true
    → (p.kind ≡ tags → p.reference ≡ codes "list")
    → (p.kind ≡ blobs → rfind (marker manifests) (print_path p) ≡ none)
    → parse_path (print_path p) ≡ ok p
parse_path-print p hi hr ht hb = by_kind p.kind p.image p.reference hi hr ht hb
