-- ===== src/Metrics/Popularity/Top.antt =====
-- The top images are the most requested ones.
use mathlib.Core.List.{Perm, perm_middle, perm-append_right_iff}
use mathlib.Core.List.Perm
use mathlib.Core.Path.{subst}
use native.Mathlib.Nat.{le_trans}
use harbor_router.Common.{
  ℕ, zero, suc, ◌≤◌, ◌<◌, ◌≡◌, ◌⊎◌, inl, inr, refl, sym, ap, ◌∙◌, Bool, true, not, List, [], ◌∷◌,
  ◌++◌, append_assoc, arith, leb, Bool-cases, All, keep, length, take, drop, length-take, Text,
  Dict,
}
use harbor_router.Metrics.Popularity.{
  min_requests_for_top_n, insert_sorted, sort_counts, top_images,
}

-- Each count is at least those behind it.
abbrev pub IsDescending : List (Text × ℕ) → Type 0
IsDescending [] = Unit
IsDescending (e ∷ es) = All (λ f. f.1 ≤ e.1) es × IsDescending es

All-insert_sorted :
    (P : Text × ℕ → Type 0) (e : Text × ℕ) (es : List (Text × ℕ))
    → P e
    → All P es
    → All P (insert_sorted e es)
unfolding insert_sorted
All-insert_sorted P e [] h hs = (h, tt)
All-insert_sorted P e (f ∷ es) h (hf, hs) = elim (Bool-cases (leb f.1 e.1)) [
  | inl first ↦ rw first (h, (hf, hs))
  | inr later ↦ rw later (hf, All-insert_sorted P e es h hs)
]

weaken_counts :
    (m n : ℕ) (es : List (Text × ℕ)) → m ≤ n → All (λ f. f.1 ≤ m) es → All (λ f. f.1 ≤ n) es
weaken_counts m n [] le hs = tt
weaken_counts m n (f ∷ es) le (h, hs) = (le_trans h le, weaken_counts m n es le hs)

IsDescending-insert_sorted :
    (e : Text × ℕ) (es : List (Text × ℕ)) → IsDescending es → IsDescending (insert_sorted e es)
unfolding insert_sorted
IsDescending-insert_sorted e [] h = (tt, tt)
IsDescending-insert_sorted e (f ∷ es) (hf, hs) = elim (Bool-cases (leb f.1 e.1)) [
  | inl first ↦
      let le : f.1 ≤ e.1 = ground (arith, first) in
      rw first ((le, weaken_counts f.1 e.1 es le hf), (hf, hs))
  | inr later ↦ rw later (
    All-insert_sorted (λ g. g.1 ≤ f.1) e es (ground (arith, later)) hf,
    IsDescending-insert_sorted e es hs,
  )
]

IsDescending-sort : (es : List (Text × ℕ)) → IsDescending (sort_counts es)
unfolding sort_counts
IsDescending-sort [] = tt
IsDescending-sort (e ∷ es) = IsDescending-insert_sorted e (sort_counts es) (IsDescending-sort es)

perm-insert_sorted : (e : Text × ℕ) (es : List (Text × ℕ)) → Perm (e ∷ es) (insert_sorted e es)
unfolding insert_sorted
perm-insert_sorted e [] = Perm.refl (e ∷ [])
perm-insert_sorted e (f ∷ es) = elim (Bool-cases (leb f.1 e.1)) [
  | inl first ↦ rw first (Perm.refl (e ∷ f ∷ es))
  | inr later ↦ rw later (Perm.trans (Perm.swap f e es) (Perm.cons f (perm-insert_sorted e es)))
]

perm-sort : (es : List (Text × ℕ)) → Perm es (sort_counts es)
unfolding sort_counts
perm-sort [] = Perm.refl []
perm-sort (e ∷ es) = Perm.trans (Perm.cons e (perm-sort es)) (perm-insert_sorted e (sort_counts es))

perm-keep :
    (p : Text × ℕ → Bool) (es : List (Text × ℕ)) → Perm es (keep p es ++ keep (λ e. not (p e)) es)
perm-keep p [] = Perm.refl []
perm-keep p (e ∷ es) = elim (Bool-cases (p e)) [
  | inl good ↦ rw good (Perm.cons e (perm-keep p es))
  | inr bad ↦ rw bad (Perm.trans (Perm.cons e (perm-keep p es)) (Perm.symm (perm_middle _ _)))
]

take-drop : (n : ℕ) (es : List (Text × ℕ)) → take n es ++ drop n es ≡ es
take-drop zero es = refl
take-drop (suc n) [] = refl
take-drop (suc n) (e ∷ es) = ap (λ rest. e ∷ rest) (take-drop n es)

All-sort : (P : Text × ℕ → Type 0) (es : List (Text × ℕ)) → All P es → All P (sort_counts es)
unfolding sort_counts
All-sort P [] hs = tt
All-sort P (e ∷ es) (h, hs) = All-insert_sorted P e (sort_counts es) h (All-sort P es hs)

All-true :
    (P : Text × ℕ → Type 0) (p : Text × ℕ → Bool) (es : List (Text × ℕ))
    → ((e : Text × ℕ) → p e ≡ true → P e)
    → All P (keep p es)
All-true P p [] h = tt
All-true P p (e ∷ es) h = elim (Bool-cases (p e)) [
  | inl good ↦ rw good (h e good, All-true P p es h)
  | inr bad ↦ rw bad (All-true P p es h)
]

All-map :
    (P Q : Text × ℕ → Type 0) (es : List (Text × ℕ))
    → ((e : Text × ℕ) → P e → Q e)
    → All P es
    → All Q es
All-map P Q [] f hs = tt
All-map P Q (e ∷ es) f (h, hs) = (f e h, All-map P Q es f hs)

All-both :
    (P Q : Text × ℕ → Type 0) (es : List (Text × ℕ)) → All P es → All Q es → All (λ e. P e × Q e) es
All-both P Q [] hs ks = tt
All-both P Q (e ∷ es) (h, hs) (k, ks) = ((h, k), All-both P Q es hs ks)

All-append :
    (P : Text × ℕ → Type 0) (es fs : List (Text × ℕ)) → All P es → All P fs → All P (es ++ fs)
All-append P [] fs hs ks = ks
All-append P (e ∷ es) fs (h, hs) ks = (h, All-append P es fs hs ks)

-- What a prefix of a descending list leaves out is below all that it has.
All-take : (P : Text × ℕ → Type 0) (n : ℕ) (es : List (Text × ℕ)) → All P es → All P (take n es)
All-take P zero es hs = tt
All-take P (suc n) [] hs = tt
All-take P (suc n) (e ∷ es) (h, hs) = (h, All-take P n es hs)

IsDescending-take : (n : ℕ) (es : List (Text × ℕ)) → IsDescending es → IsDescending (take n es)
IsDescending-take zero es hs = tt
IsDescending-take (suc n) [] hs = tt
IsDescending-take (suc n) (e ∷ es) (h, hs) =
    (All-take (λ f. f.1 ≤ e.1) n es h, IsDescending-take n es hs)

All-drop : (P : Text × ℕ → Type 0) (n : ℕ) (es : List (Text × ℕ)) → All P es → All P (drop n es)
All-drop P zero es hs = hs
All-drop P (suc n) [] hs = tt
All-drop P (suc n) (e ∷ es) (h, hs) = All-drop P n es hs

-- An entry that is left out although there are enough places: there are `n`, and none has less.
abbrev pub IsBeaten : ℕ → List (Text × ℕ) → Text × ℕ → Type 0
IsBeaten n top e = (length top ≡ n) × All (λ t. e.1 ≤ t.1) top

drop-IsBeaten :
    (n : ℕ) (es : List (Text × ℕ)) → IsDescending es → All (IsBeaten n (take n es)) (drop n es)
drop-IsBeaten zero es d = every es
  where
    every : (fs : List (Text × ℕ)) → All (IsBeaten 0 []) fs
    every [] = tt
    every (f ∷ fs) = ((refl, tt), every fs)
drop-IsBeaten (suc n) [] d = tt
drop-IsBeaten (suc n) (e ∷ es) (h, d) =
    All-map (λ f. (f.1 ≤ e.1) × IsBeaten n (take n es) f) (IsBeaten (suc n) (e ∷ take n es))
      (drop n es) (λ f (low, (full, beaten)). (omega (arith, full), (low, beaten)))
      (All-both (λ f. f.1 ≤ e.1) (IsBeaten n (take n es)) (drop n es) (All-drop _ n es h)
        (drop-IsBeaten n es d))

-- The table is the top and the rest, in some order; the top is descending and has entries with at
-- least 10 requests, at most `n`. Each entry of the rest has fewer than 10 requests, or there are
-- `n` top entries and none of them has fewer requests than it.
pub record IsTop (n : ℕ) (table top : List (Text × ℕ)) : Type 0 where
  pub rest : List (Text × ℕ)
  pub arranged : Perm table (top ++ rest)
  pub descending : IsDescending top
  pub frequent : All (λ t. 10 ≤ t.1) top
  pub at_most : length top ≤ n
  pub left_out : All (λ e. (e.1 < 10) ⊎ IsBeaten n top e) rest

-- The top images are at most as many as asked for, entries of the table, each as often as it
-- stands there, with at least 10 requests and in descending order of their counts. An entry that
-- is left out has fewer than 10 requests, or as many as asked for are returned and none of them
-- has fewer requests than it.
pub top_images-IsTop : (n : ℕ) (table : Dict ℕ) → IsTop n table (top_images n table)
unfolding top_images
top_images-IsTop n table =
    let enough = λ (e : Text × ℕ). leb min_requests_for_top_n e.1 in
    let often = keep enough table in
    let rare = keep (λ e. not (enough e)) table in
    let sorted = sort_counts often in
    let split = take-drop n sorted in
    record {
      rest = drop n sorted ++ rare;
      arranged = Perm.trans (perm-keep enough table) (
          subst (λ l. Perm (often ++ rare) l)
            (ap (λ l. l ++ rare) (sym split) ∙ append_assoc (take n sorted) (drop n sorted) rare)
            ((perm-append_right_iff rare).1 (perm-sort often)));
      descending = IsDescending-take n sorted (IsDescending-sort often);
      frequent =
          All-take _ n sorted
            (All-sort _ often (All-true (λ t. 10 ≤ t.1) enough table (λ e h. ground (arith, h))));
      at_most = ground (arith, length-take {0} n sorted);
      left_out =
          All-append _ (drop n sorted) rare
            (All-map (IsBeaten n (take n sorted)) _ (drop n sorted) (λ e h. inr h)
              (drop-IsBeaten n sorted (IsDescending-sort often)))
            (All-true _ (λ e. not (enough e)) table (λ e h. inl (ground (arith, h))));
    }
