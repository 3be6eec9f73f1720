-- ===== src/Cache/Examples.antt =====
-- The theorems on caches at small libraries: a Moka and a Redis that are dictionaries of entries with
-- their times, and a Redis that is down.
use Prim.Native.Nat.{max}
use harbor_router.Common.{
  ℕ, ◌+◌, ◌*◌, ◌/◌, ◌≡◌, ◌∙◌, refl, ap, true, false, Option, none, some, [], arith, ltb,
  if◌then◌else◌, codes, text_eq, text_eq_self, Dict, lookup, insert, remove, lookup-insert,
  lookup-remove, ok, err,
}
use harbor_router.Cache.Lawful.{IsLawful, Entry, read_entry, dict_cache, dict_cache-IsLawful}
use harbor_router.Cache.Moka.{
  MokaValue, Moka, IsMoka, expire_after, moka_cache, moka_cache-IsLawful,
}
use harbor_router.Cache.Redis.{Connection, prefixed, redis_cache, redis_set_secs}
use harbor_router.Cache.Redis.Outage.{IsRedis, redis_cache-answered, redis_cache-outage}
use harbor_router.Common.{split, trim, [], ◌∷◌}
use harbor_router.Cache.Sentinel.{sentinel_urls}

unfoldable pub alive : ℕ → Option (MokaValue × ℕ) → Option MokaValue
alive now none = none
alive now (some (v, expires)) = if ltb now expires then some v else none

abbrev moka : Moka
moka = record {
  State = Dict (MokaValue × ℕ);
  get = λ now k s. alive now (lookup k s);
  insert = λ now k v s. insert k (v, now + v.ttl) s;
  invalidate = λ now k s. remove k s;
}

moka-IsMoka : IsMoka moka expire_after
unfolding alive
moka-IsMoka = record {
  get-insert = λ now later k j v s.
      ap (alive later) (lookup-insert k j (let e : MokaValue × ℕ = (v, now + v.ttl) in e) s)
      ∙ ground arith;
  get-invalidate = λ now later k j s. ap (alive later) (lookup-remove k j s) ∙ ground arith;
}

moka_cache-IsLawful_example : IsLawful (moka_cache moka 1000) 1000
moka_cache-IsLawful_example = moka_cache-IsLawful moka 1000 moka-IsMoka

-- A Redis that always answers.
abbrev redis : Connection
redis = record {
  State = Dict Entry;
  get = λ now k s. (ok (read_entry now (lookup k s)), s);
  set_ex = λ now k v secs s. (true, insert k (record { value = v; expires = now + secs * 1000 }) s);
  del = λ now k s. (true, remove k s);
  try_reconnect = λ now s. s;
}

-- A Redis that is down.
abbrev down : Connection
down = record {
  State = Unit {0};
  get = λ now k s. (err (codes "connection refused"), s);
  set_ex = λ now k v secs s. (false, s);
  del = λ now k s. (false, s);
  try_reconnect = λ now s. s;
}

redis-IsRedis : IsRedis redis
unfolding read_entry
redis-IsRedis now later k v secs s found up answers =
    let e =
      lookup-insert k k (let x : Entry = record { value = v; expires = now + secs * 1000 } in x)
        s in
    let stored : found
        ≡ read_entry later
            (lookup k (insert k (record { value = v; expires = now + secs * 1000 }) s)) =
      ground (arith, answers) in
    stored ∙ ap (read_entry later) e ∙ rw (text_eq_self k) refl

redis_cache-answered_example :
    ((redis_cache redis (dict_cache 1000) (codes "hr") 300).get 5000 (codes "k") (
      (redis_cache redis (dict_cache 1000) (codes "hr") 300).set_with_ttl 100
        (codes "k")
        (codes "v")
        7500
        ([], []))).0
    ≡ (if ltb 5000 (100 + max (7500 / 1000) 1 * 1000) then some (codes "v") else none)
unfolding redis_set_secs read_entry prefixed lookup insert text_eq
redis_cache-answered_example =
    redis_cache-answered redis (dict_cache 1000) (codes "hr") 300 100 5000 (codes "k") (codes "v")
      7500 [] [] (some (codes "v")) redis-IsRedis refl refl

redis_cache-outage_example :
    ((redis_cache down (dict_cache 300000) (codes "hr") 300).get 200000 (codes "k") (
      (redis_cache down (dict_cache 300000) (codes "hr") 300).set_with_ttl 100
        (codes "k")
        (codes "__NEGATIVE__")
        30000
        (tt, []))).0
    ≡ (if ltb 200000 (100 + 300000) then some (codes "__NEGATIVE__") else none)
redis_cache-outage_example =
    redis_cache-outage down (dict_cache 300000) (codes "hr") 300 100 200000 (codes "k")
      (codes "__NEGATIVE__") 30000 tt [] 300000 (codes "connection refused")
      (dict_cache-IsLawful 300000) refl

-- Blank pieces of the list are left out.
sentinels :
    sentinel_urls (codes "s1:26379, ,s2:26379") true
    ≡ codes "rediss://s1:26379" ∷ codes "rediss://s2:26379" ∷ []
unfolding sentinel_urls split trim
sentinels = refl
