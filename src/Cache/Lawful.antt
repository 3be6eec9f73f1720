-- ===== src/Cache/Lawful.antt =====
-- What the resolver's theorems assume of a cache that neither evicts nor fails: an entry is there
-- until it expires, is replaced or is deleted. A dictionary of entries with their times meets it.
use harbor_router.Common.{
  ℕ, ◌+◌, ◌≡◌, refl, Option, none, some, arith, ltb, if◌then◌else◌, Text, text_eq, Dict, lookup,
  insert, remove, lookup-insert, lookup-remove,
}
use harbor_router.Cache.{CacheBackend}

pub record IsLawful (c : CacheBackend) (default_ttl : ℕ) : Type 0 where
  pub get-set_with_ttl :
      (now later : ℕ) (k j v : Text) (ttl : ℕ) (s : c.State)
      → (c.get later j (c.set_with_ttl now k v ttl s)).0 ≡ (
          if text_eq k j
          then (if ltb later (now + ttl) then some v else none)
          else (c.get later j s).0)
  pub set_default :
      (now : ℕ) (k v : Text) (s : c.State) → c.set now k v s ≡ c.set_with_ttl now k v default_ttl s
  pub get-delete :
      (now later : ℕ) (k j : Text) (s : c.State)
      → (c.get later j (c.delete now k s)).0 ≡ (if text_eq k j then none else (c.get later j s).0)
  pub get_pure : (now : ℕ) (k : Text) (s : c.State) → (c.get now k s).1 ≡ s

-- An entry with the time at which it expires.
pub record Entry : Type 0 where
  pub value : Text
  pub expires : ℕ

unfoldable pub read_entry : ℕ → Option Entry → Option Text
read_entry now none = none
read_entry now (some e) = if ltb now e.expires then some e.value else none

abbrev pub dict_cache : ℕ → CacheBackend
dict_cache default_ttl = record {
  State = Dict Entry;
  get = λ now k s. (read_entry now (lookup k s), s);
  set = λ now k v s. insert k (record { value = v; expires = now + default_ttl }) s;
  set_with_ttl = λ now k v ttl s. insert k (record { value = v; expires = now + ttl }) s;
  delete = λ now k s. remove k s;
}

pub dict_cache-IsLawful : (default_ttl : ℕ) → IsLawful (dict_cache default_ttl) default_ttl
unfolding read_entry
dict_cache-IsLawful default_ttl = record {
  get-set_with_ttl = λ now later k j v ttl s.
      ground (
        arith,
        lookup-insert k j (let e : Entry = record { value = v; expires = now + ttl } in e) s,
      );
  set_default = λ now k v s. refl;
  get-delete = λ now later k j s. ground (arith, lookup-remove k j s);
  get_pure = λ now k s. refl;
}
