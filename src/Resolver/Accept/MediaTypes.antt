-- ===== src/Resolver/Accept/MediaTypes.antt =====
-- What a media type in a header is, said of its spelling, and that `media_type` takes just it.
use harbor_router.Common.{
  ℕ, ◌≡◌, inl, inr, refl, sym, ap, ◌∙◌, Bool, true, false, not, if◌then◌else◌, ◌&&◌, [], ◌∷◌, ◌++◌,
  arith, ◌==◌, all, Bool-cases, is_empty, Text, is_whitespace, trim, trim_start, trim_end, before,
}
use harbor_router.Resolver.Accept.{media_type}

abbrev pub all_white : Text → Bool
all_white s = all is_whitespace s

abbrev pub starts_bare : Text → Bool
starts_bare [] = true
starts_bare (c ∷ s) = not (is_whitespace c)

abbrev pub ends_bare : Text → Bool
ends_bare [] = true
ends_bare (c ∷ []) = not (is_whitespace c)
ends_bare (c ∷ d ∷ s) = ends_bare (d ∷ s)

-- Nothing, or a separator and what stands behind it.
abbrev pub IsTail : ℕ → Text → Type 0
IsTail c [] = Unit
IsTail c (d ∷ s) = d ≡ c

abbrev pub lacks : ℕ → Text → Bool
lacks c s = all (λ d. not (d == c)) s

-- A text is white space, the media type, white space and, where there are some, the parameters
-- behind a semicolon. The media type has no white space at its ends.
pub record IsMediaType (s m : Text) : Type 0 where
  pub left : Text
  pub right : Text
  pub parameters : Text
  pub spelled : s ≡ (left ++ (m ++ right)) ++ parameters
  pub left_white : all_white left ≡ true
  pub right_white : all_white right ≡ true
  pub starts : starts_bare m ≡ true
  pub ends : ends_bare m ≡ true
  pub single : lacks b';' (left ++ (m ++ right)) ≡ true
  pub behind : IsTail b';' parameters

both : (a b : Bool) → (a && b) ≡ true → (a ≡ true) × (b ≡ true)
both true b h = (refl, h)
both false b h = absurd (ground (arith, h))

empty_eq : (s : Text) → is_empty s ≡ true → s ≡ []
empty_eq [] h = refl
empty_eq (c ∷ s) h = absurd (ground (arith, h))

-- What `trim_end` does with a character, given the rest of the text.
abbrev keep_bare : Bool → ℕ → Text → Text
keep_bare white c rest = if white && is_empty rest then [] else c ∷ rest

keep_bare-more : (white : Bool) (c d : ℕ) (s : Text) → keep_bare white c (d ∷ s) ≡ c ∷ d ∷ s
keep_bare-more true c d s = refl
keep_bare-more false c d s = refl

ends_bare-keep_bare :
    (white : Bool) (c : ℕ) (s : Text)
    → is_whitespace c ≡ white
    → ends_bare s ≡ true
    → ends_bare (keep_bare white c s) ≡ true
ends_bare-keep_bare true c [] e h = refl
ends_bare-keep_bare false c [] e h = ap not e
ends_bare-keep_bare true c (d ∷ s) e h = h
ends_bare-keep_bare false c (d ∷ s) e h = h

false_of_not : (b : Bool) → not b ≡ true → b ≡ false
false_of_not true h = absurd (ground (arith, h))
false_of_not false h = refl

pub before-append :
    (c : ℕ) (s tail : Text) → lacks c s ≡ true → IsTail c tail → before c (s ++ tail) ≡ s
unfolding before
before-append c [] [] h t = refl
before-append c [] (d ∷ tail) h t = ground (arith, t)
before-append c (d ∷ s) tail h t =
    let ih = before-append c s tail (ground (arith, h)) t in ground (arith, ih, h)

trim_start-append : (left s : Text) → all_white left ≡ true → trim_start (left ++ s) ≡ trim_start s
unfolding trim_start
trim_start-append [] s h = refl
trim_start-append (c ∷ left) s h =
    let (white, later) = both (is_whitespace c) (all_white left) h in
    rw white (trim_start-append left s later)

trim_start_white : (right : Text) → all_white right ≡ true → trim_start right ≡ []
unfolding trim_start
trim_start_white [] h = refl
trim_start_white (c ∷ right) h =
    let (white, later) = both (is_whitespace c) (all_white right) h in
    rw white (trim_start_white right later)

trim_end_white : (right : Text) → all_white right ≡ true → trim_end right ≡ []
unfolding trim_end
trim_end_white [] h = refl
trim_end_white (c ∷ right) h =
    let (white, later) = both (is_whitespace c) (all_white right) h in
    rw (white, trim_end_white right later) refl

trim_end-append :
    (m right : Text) → ends_bare m ≡ true → all_white right ≡ true → trim_end (m ++ right) ≡ m
unfolding trim_end
trim_end-append [] right e h = trim_end_white right h
trim_end-append (c ∷ []) right e h =
    ap (keep_bare (is_whitespace c) c) (trim_end_white right h)
    ∙ ap (λ w. keep_bare w c []) (false_of_not (is_whitespace c) e)
trim_end-append (c ∷ d ∷ m) right e h =
    ap (keep_bare (is_whitespace c) c) (trim_end-append (d ∷ m) right e h)
    ∙ keep_bare-more (is_whitespace c) c d m

trim_start_bare :
    (m right : Text)
    → starts_bare m ≡ true
    → all_white right ≡ true
    → trim_end (trim_start (m ++ right)) ≡ trim_end (m ++ right)
unfolding trim_start
trim_start_bare [] right b h =
    ap trim_end (trim_start_white right h) ∙ trim_end_white [] refl ∙ sym (trim_end_white right h)
trim_start_bare (c ∷ m) right b h = rw (false_of_not (is_whitespace c) b) refl

-- There is only one media type in a text.
pub media_type-eq : (s m : Text) → IsMediaType s m → media_type s ≡ m
unfolding media_type trim
media_type-eq s m t =
    let cut = before-append b';' (t.left ++ (m ++ t.right)) t.parameters t.single t.behind in
    rw (t.spelled, cut)
      (ap trim_end (trim_start-append t.left (m ++ t.right) t.left_white)
        ∙ trim_start_bare m t.right t.starts t.right_white
        ∙ trim_end-append m t.right t.ends t.right_white)

pub before_split : (c : ℕ) (s : Text) → (tail : Text) × (s ≡ before c s ++ tail) × IsTail c tail
unfolding before
before_split c [] = ([], refl, tt)
before_split c (d ∷ s) = elim (Bool-cases (d == c)) [
  | inl here ↦ (d ∷ s, rw here refl, ground (arith, here))
  | inr later ↦ let (tail, e, t) = before_split c s in (tail, rw later (ap (λ r. d ∷ r) e), t)
]

pub lacks-before : (c : ℕ) (s : Text) → lacks c (before c s) ≡ true
unfolding before
lacks-before c [] = refl
lacks-before c (d ∷ s) = ground (arith, lacks-before c s)

trim_start_split : (s : Text) → (left : Text) × (s ≡ left ++ trim_start s) × (all_white left ≡ true)
unfolding trim_start
trim_start_split [] = ([], refl, refl)
trim_start_split (c ∷ s) = elim (Bool-cases (is_whitespace c)) [
  | inl white ↦
      let (left, e, h) = trim_start_split s in (c ∷ left, rw white (ap (λ r. c ∷ r) e), rw white h)
  | inr bare ↦ ([], rw bare refl, refl)
]

starts_bare-trim_start : (s : Text) → starts_bare (trim_start s) ≡ true
unfolding trim_start
starts_bare-trim_start [] = refl
starts_bare-trim_start (c ∷ s) = elim (Bool-cases (is_whitespace c)) [
  | inl white ↦ rw white (starts_bare-trim_start s)
  | inr bare ↦ rw bare (ap not bare)
]

trim_end_split : (s : Text) → (right : Text) × (s ≡ trim_end s ++ right) × (all_white right ≡ true)
unfolding trim_end
trim_end_split [] = ([], refl, refl)
trim_end_split (c ∷ s) =
    let (right, e, h) = trim_end_split s in
    elim (Bool-cases (is_whitespace c && is_empty (trim_end s))) [
      | inl gone ↦ (
        c ∷ s,
        rw gone refl,
        let (white, nothing) = both (is_whitespace c) (is_empty (trim_end s)) gone in
            let rest : s ≡ right = e ∙ ap (λ t. t ++ right) (empty_eq (trim_end s) nothing) in
            rw white (ap all_white rest ∙ h),
      )
      | inr kept ↦ (right, rw kept (ap (λ r. c ∷ r) e), h)
    ]

starts_bare-trim_end : (s : Text) → starts_bare s ≡ true → starts_bare (trim_end s) ≡ true
unfolding trim_end
starts_bare-trim_end [] h = refl
starts_bare-trim_end (c ∷ s) h = rw (false_of_not (is_whitespace c) h) h

ends_bare-trim_end : (s : Text) → ends_bare (trim_end s) ≡ true
unfolding trim_end
ends_bare-trim_end [] = refl
ends_bare-trim_end (c ∷ s) =
    ends_bare-keep_bare (is_whitespace c) c (trim_end s) refl (ends_bare-trim_end s)

pub media_type-IsMediaType : (s : Text) → IsMediaType s (media_type s)
unfolding media_type trim
media_type-IsMediaType s =
    let (tail, cut, behind) = before_split b';' s in
    let (left, e, left_white) = trim_start_split (before b';' s) in
    let (right, f, right_white) = trim_end_split (trim_start (before b';' s)) in
    let joined = e ∙ ap (λ r. left ++ r) f in
    record {
      left = left;
      right = right;
      parameters = tail;
      spelled = cut ∙ ap (λ r. r ++ tail) joined;
      left_white = left_white;
      right_white = right_white;
      starts =
          starts_bare-trim_end (trim_start (before b';' s))
            (starts_bare-trim_start (before b';' s));
      ends = ends_bare-trim_end (trim_start (before b';' s));
      single = ap (lacks b';') (sym joined) ∙ lacks-before b';' s;
      behind = behind;
    }
