-- ===== src/Metrics/Popularity/Bounded.antt =====
-- The tables stay within their capacity.
use harbor_router.Common.{
  ℕ, ◌+◌, ◌/◌, ◌≤◌, ◌<◌, ◌≡◌, inl, inr, refl, Bool, true, false, none, some, List, [], ◌∷◌, arith,
  leb, Bool-cases, Option-cases, any, is_empty, length, take, Text, text_eq, text_eq_self, Dict,
  lookup, insert, remove,
}
use harbor_router.Metrics.Popularity.{
  max_tracked_images, rare_keys, remove_all, maybe_evict_entries, next_count, record_request,
}

has_key : Text → Dict ℕ → Bool
has_key k table = any (λ e. text_eq e.0 k) table

length-insert :
    (k : Text) (v : ℕ) (table : Dict ℕ)
    → length (insert k v table) ≡ length table + elim (lookup k table) [ none ↦ 1 | some w ↦ 0 ]
unfolding lookup insert
length-insert k v [] = refl
length-insert k v ((j, w) ∷ table) = ground (arith, length-insert k v table)

length-remove-le : (k : Text) (table : Dict ℕ) → length (remove k table) ≤ length table
unfolding remove
length-remove-le k [] = omega arith
length-remove-le k ((j, w) ∷ table) = ground (arith, length-remove-le k table)

length-remove :
    (k : Text) (table : Dict ℕ) → has_key k table ≡ true → length (remove k table) < length table
unfolding remove has_key
length-remove k [] h = absurd (ground arith)
length-remove k ((j, w) ∷ table) h = ground (arith, length-remove-le k table, length-remove k table)

length-remove_all-le :
    (keys : List Text) (table : Dict ℕ) → length (remove_all keys table) ≤ length table
unfolding remove_all
length-remove_all-le [] table = omega arith
length-remove_all-le (k ∷ keys) table =
    omega (arith, length-remove_all-le keys (remove k table), length-remove-le k table)

has_key-rare :
    (k : Text) (keys : List Text) (table : Dict ℕ)
    → rare_keys table ≡ k ∷ keys
    → has_key k table ≡ true
unfolding rare_keys has_key
has_key-rare k keys [] h = absurd (ground arith)
has_key-rare k keys ((j, w) ∷ table) h = elim (Bool-cases (leb w 1)) [
  | inl rare ↦ let same : j ≡ k = ground (arith, h) in rw same (rw (text_eq_self k) refl)
  | inr often ↦ ground (arith, has_key-rare k keys table)
]

is_empty-rare_insert :
    (k : Text) (table : Dict ℕ)
    → lookup k table ≡ none
    → is_empty (rare_keys (insert k 1 table)) ≡ false
unfolding rare_keys lookup insert
is_empty-rare_insert k [] h = refl
is_empty-rare_insert k ((j, w) ∷ table) h = ground (arith, is_empty-rare_insert k table)

length-evict :
    (keys : List Text) (table : Dict ℕ)
    → rare_keys table ≡ keys
    → is_empty keys ≡ false
    → length (remove_all (take (max_tracked_images / 10) keys) table) < length table
unfolding remove_all
length-evict [] table e h = absurd (ground arith)
length-evict (k ∷ keys) table e h = omega (
  arith,
  length-remove_all-le (take 999 keys) (remove k table),
  length-remove k table (has_key-rare k keys table e),
)

-- A table of popular images with at most 10,000 entries still has at most as many after a request
-- is recorded.
pub length-record_request :
    (key : Text) (table : Dict ℕ)
    → length table ≤ max_tracked_images
    → length (record_request key table) ≤ max_tracked_images
unfolding record_request maybe_evict_entries next_count
length-record_request key table h = elim (Option-cases (lookup key table)) [
  | inl new ↦
      let grown = rw new at (length-insert key 1 table) in
      let cut =
        length-evict (rare_keys (insert key 1 table)) (insert key 1 table) refl
          (is_empty-rare_insert key table new) in
      rw new (ground (arith, grown, cut))
  | inr (count, old) ↦
      let same = rw old at (length-insert key (next_count (some count)) table) in
      rw old (ground (arith, same))
]
