-- ===== src/Resolver/Fanout/Messages.antt =====
-- The messages of the errors of a lookup, and whether they say that no project has the manifest.
use harbor_router.Common.{
  ◌≡◌, refl, ap, true, false, Text, codes, contains, starts_with, Outcome, err,
}
use harbor_router.Common.Search.{contains-append, contains_self}
use harbor_router.Resolver.Status.{is_all_projects_non_200, not_found_tail}
use harbor_router.Resolver.World.{Response}
use harbor_router.Resolver.Fanout.{not_found_error}
use harbor_router.Resolver.Fanout.Lookup.{none_discovered, all_circuits_open}

pub none_discovered_lem : is_all_projects_non_200 none_discovered ≡ false
unfolding is_all_projects_non_200 contains starts_with
none_discovered_lem = refl

pub all_circuits_open_lem : is_all_projects_non_200 all_circuits_open ≡ false
unfolding is_all_projects_non_200 contains starts_with
all_circuits_open_lem = refl

pub not-negative :
    {o : Outcome Response} {e f : Text}
    → o ≡ err e
    → o ≡ err f
    → is_all_projects_non_200 e ≡ true
    → is_all_projects_non_200 f ≡ false
    → ⊥
not-negative {e} {f} p q neg pos =
    let same : e ≡ f = cc in absurd (cc (ap is_all_projects_non_200 same, neg, pos))

pub not_found_error-negative :
    (image reference : Text) → is_all_projects_non_200 (not_found_error image reference) ≡ true
unfolding is_all_projects_non_200
not_found_error-negative image reference =
    let p = not_found_tail in
    contains-append p (codes "image ") _ (
      contains-append p image _ (
        contains-append p (codes ":") _
          (contains-append p reference _ (contains-append p (codes " ") p (contains_self p)))))
