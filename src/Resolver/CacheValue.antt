-- ===== src/Resolver/CacheValue.antt =====
-- The values that src/resolver.rs keeps in the cache when stale entries may be served:
-- "{project}|{timestamp}", or the sentinel of a manifest that no project has.
use harbor_router.Common.{
  ℕ, ◌<◌, ◌^◌, ◌≡◌, refl, ap, false, Option, none, some, [], ◌∷◌, ◌++◌, arith, ◌==◌, if◌then◌else◌,
  Bool-cases, inl, inr, Text, codes, has_char, any-append, text_eq, text_eq_iff, split_once,
  print_u64, parse_u64, parse_u64-print_u64,
}

abbrev pub negative_cache_sentinel : Text
negative_cache_sentinel = codes "__NEGATIVE__"

unfoldable pub encode_cache_value : Text → ℕ → Text
encode_cache_value project timestamp = project ++ b'|' ∷ print_u64 timestamp

unfoldable pub decode_cache_value : Text → Text × Option ℕ
decode_cache_value value =
    if text_eq value negative_cache_sentinel
    then (negative_cache_sentinel, none)
    else elim (split_once b'|' value) [
      | none ↦ (value, none)
      | some (project, timestamp) ↦ elim (parse_u64 timestamp) [
        | none ↦ (value, none)
        | some parsed ↦ (project, some parsed)
      ]
    ]

split_once-append :
    (c : ℕ) (a b : Text) → has_char c a ≡ false → split_once c (a ++ c ∷ b) ≡ some (a, b)
unfolding split_once
split_once-append c [] b h = ground arith
split_once-append c (d ∷ a) b h = ground (arith, split_once-append c a b)

split_once-none : (c : ℕ) (a : Text) → has_char c a ≡ false → split_once c a ≡ none
unfolding split_once
split_once-none c [] h = refl
split_once-none c (d ∷ a) h = ground (arith, split_once-none c a)

encode-ne-sentinel :
    (project : Text) (timestamp : ℕ)
    → text_eq (encode_cache_value project timestamp) negative_cache_sentinel ≡ false
unfolding encode_cache_value
encode-ne-sentinel project timestamp =
    elim (Bool-cases (text_eq (project ++ b'|' ∷ print_u64 timestamp) negative_cache_sentinel)) [
      | inl same ↦
          let e =
            (text_eq_iff (project ++ b'|' ∷ print_u64 timestamp) negative_cache_sentinel).0 same in
          absurd (
            ground (
              arith,
              ap (λ t. has_char b'|' t) e,
              any-append (λ d. d == b'|') project (b'|' ∷ print_u64 timestamp),
            ))
      | inr other ↦ other
    ]

-- A project without "|" and a u64 timestamp come back from the value that holds them, and a plain
-- project is read as itself without a timestamp.
pub decode-encode :
    (project : Text) (timestamp : ℕ)
    → has_char b'|' project ≡ false
    → timestamp < 2 ^ 64
    → (decode_cache_value (encode_cache_value project timestamp) ≡ (project, some timestamp))
      × (decode_cache_value project ≡ (project, none))
unfolding decode_cache_value encode_cache_value
decode-encode project timestamp h small = (
  ground (
    arith,
    encode-ne-sentinel project timestamp,
    split_once-append b'|' project (print_u64 timestamp) h,
    parse_u64-print_u64 timestamp small,
  ),
  ground (arith, text_eq_iff project negative_cache_sentinel, split_once-none b'|' project h),
)
