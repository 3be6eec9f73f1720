-- ===== src/Cache/Sentinel/Listed.antt =====
-- The sentinels that are read from a list, and a list that names none.
use harbor_router.Common.{
  ℕ, ◌++◌, ◌≡◌, refl, ap, Bool, true, false, Option, some, List, [], ◌∷◌, arith, All, is_empty, all,
  has_char, split, trim, ◌==◌, Text, codes, err,
}
use harbor_router.Cache.Sentinel.{
  Sentinel, filter_map, scheme_of, sentinel_url, sentinel_urls, from_sentinel,
}

-- An address as it is written in a list.
pub record IsAddress (address : Text) : Type 0 where
  pub one_piece : has_char b',' address ≡ false
  pub trimmed : trim address ≡ address
  pub some_text : is_empty address ≡ false

-- `a,b,c`.
unfoldable pub print_list : (first : Text) → List Text → Text
print_list first [] = first
print_list first (next ∷ rest) = first ++ b',' ∷ print_list next rest

abbrev pub urls_of : (tls : Bool) → List Text → List Text
urls_of tls [] = []
urls_of tls (address ∷ rest) = (scheme_of tls ++ (codes "://" ++ address)) ∷ urls_of tls rest

split-piece : (s : Text) → has_char b',' s ≡ false → split b',' s ≡ s ∷ []
unfolding split
split-piece [] h = refl
split-piece (c ∷ s) h =
    let other : (c == b',') ≡ false = ground arith in
    rw (split, other, split-piece s (ground arith)) refl

split-append :
    (s t : Text) → has_char b',' s ≡ false → split b',' (s ++ b',' ∷ t) ≡ s ∷ split b',' t
unfolding split
split-append [] t h = refl
split-append (c ∷ s) t h =
    let other : (c == b',') ≡ false = ground arith in
    rw (split, other, split-append s t (ground arith)) refl

sentinel_url-address :
    (scheme address : Text)
    → IsAddress address
    → sentinel_url scheme address ≡ some (scheme ++ (codes "://" ++ address))
unfolding sentinel_url
sentinel_url-address scheme address a = rw (sentinel_url, a.trimmed, a.some_text) refl

pub sentinel_urls-print_list :
    (tls : Bool) (first : Text) (rest : List Text)
    → IsAddress first
    → All IsAddress rest
    → sentinel_urls (print_list first rest) tls ≡ urls_of tls (first ∷ rest)
unfolding sentinel_urls print_list
sentinel_urls-print_list tls first [] a more =
    rw
      (
        sentinel_urls,
        split-piece first a.one_piece,
        filter_map,
        sentinel_url-address (scheme_of tls) first a,
      )
      refl
sentinel_urls-print_list tls first (next ∷ rest) a more =
    let later = sentinel_urls-print_list tls next rest more.0 more.1 in
    rw
      (
        sentinel_urls,
        split-append first (print_list next rest) a.one_piece,
        filter_map,
        sentinel_url-address (scheme_of tls) first a,
      )
      (ap (λ urls. (scheme_of tls ++ (codes "://" ++ first)) ∷ urls) later)

abbrev pub is_blank : Text → Bool
is_blank s = is_empty (trim s)

urls-blank :
    (scheme : Text) (pieces : List Text)
    → all is_blank pieces ≡ true
    → filter_map (sentinel_url scheme) pieces ≡ []
unfolding sentinel_url
urls-blank scheme [] h = refl
urls-blank scheme (piece ∷ pieces) h =
    let blank : is_blank piece ≡ true = ground arith in
    rw (filter_map, sentinel_url, blank) (urls-blank scheme pieces (ground arith))

pub from_sentinel-blank :
    (s : Sentinel) (sentinels master_name : Text) (password : Option Text) (db ttl : ℕ)
    (prefix : Text) (tls : Bool)
    → all is_blank (split b',' sentinels) ≡ true
    → from_sentinel s sentinels master_name password db ttl prefix tls
      ≡ err (codes "REDIS_SENTINELS: no valid host:port pairs")
unfolding from_sentinel sentinel_urls
from_sentinel-blank s sentinels master_name password db ttl prefix tls blank =
    rw (from_sentinel, sentinel_urls, urls-blank (scheme_of tls) (split b',' sentinels) blank) refl
