-- ===== src/Validation/Closure.antt =====
-- Two image names that pass the check still pass it when they are joined by a slash.
use harbor_router.Common.{
  ℕ, ◌≤◌, ◌≡◌, refl, sym, ap, ◌∙◌, true, false, [], ◌∷◌, ◌++◌, arith, length, any, any-append,
  has_char, is_empty, is_control, is_whitespace, contains, starts_with, ends_with, Text, codes,
  text_eq, text_eq_iff, text_eq_self, trim, trim_start, trim_end, ◌==◌, Bool-cases, inl, inr,
}
use harbor_router.Validation.{dots, is_safe_image_name}
use harbor_router.Validation.Segments.{contains-dots_append}

length-trim_start : (s : Text) → length (trim_start s) ≤ length s
unfolding trim_start
length-trim_start [] = omega arith
length-trim_start (c ∷ s) = ground (arith, length-trim_start s)

length-trim_end : (s : Text) → length (trim_end s) ≤ length s
unfolding trim_end
length-trim_end [] = omega arith
length-trim_end (c ∷ s) = ground (arith, length-trim_end s)

trim_start_white : (c : ℕ) (s : Text) → is_whitespace c ≡ true → trim_start (c ∷ s) ≡ trim_start s
unfolding trim_start
trim_start_white c s h = rw h

trim_start_black : (c : ℕ) (s : Text) → is_whitespace c ≡ false → trim_start (c ∷ s) ≡ c ∷ s
unfolding trim_start
trim_start_black c s h = rw h

append-not_empty : (a : Text) (d : ℕ) (y : Text) → is_empty (a ++ d ∷ y) ≡ false
append-not_empty [] d y = refl
append-not_empty (c ∷ a) d y = refl

-- A text that `trim` leaves as it is does not begin with white space, and ends as it is.
trim_fixed :
    (c : ℕ) (s : Text)
    → trim (c ∷ s) ≡ c ∷ s
    → (is_whitespace c ≡ false) × (trim_end (c ∷ s) ≡ c ∷ s)
unfolding trim
trim_fixed c s e = elim (Bool-cases (is_whitespace c)) [
  | inl white ↦
      let shorter : trim_end (trim_start s) ≡ c ∷ s =
        sym (ap trim_end (trim_start_white c s white)) ∙ e in
      absurd (
        omega
          (arith, ap (λ t. length t) shorter, length-trim_start s, length-trim_end (trim_start s)))
  | inr black ↦ (black, sym (ap trim_end (trim_start_black c s black)) ∙ e)
]

trim_end-cons : (c : ℕ) (s : Text) → trim_end s ≡ s → is_empty s ≡ false → trim_end (c ∷ s) ≡ c ∷ s
unfolding trim_end
trim_end-cons c s h ne = ground arith

trim_end-append :
    (a : Text) (d : ℕ) (y : Text) → trim_end (d ∷ y) ≡ d ∷ y → trim_end (a ++ d ∷ y) ≡ a ++ d ∷ y
trim_end-append [] d y h = h
trim_end-append (c ∷ a) d y h =
    trim_end-cons c (a ++ d ∷ y) (trim_end-append a d y h) (append-not_empty a d y)

ends_with-slash :
    (a : Text) (d : ℕ) (y : Text)
    → ends_with (codes "/") (a ++ d ∷ y) ≡ ends_with (codes "/") (d ∷ y)
unfolding ends_with text_eq
ends_with-slash [] d y = refl
ends_with-slash (c ∷ []) d y = ground arith
ends_with-slash (c ∷ x ∷ a) d y = ground (arith, ends_with-slash (x ∷ a) d y)

trim-append :
    (c : ℕ) (a : Text) (x d : ℕ) (y : Text)
    → trim (c ∷ a) ≡ c ∷ a
    → trim (d ∷ y) ≡ d ∷ y
    → trim (c ∷ (a ++ x ∷ d ∷ y)) ≡ c ∷ (a ++ x ∷ d ∷ y)
unfolding trim
trim-append c a x d y ha hy =
    let (black, _) = trim_fixed c a ha in
    let (_, tail) = trim_fixed d y hy in
    ap trim_end (trim_start_black c (a ++ x ∷ d ∷ y) black)
    ∙ trim_end-append (c ∷ a) x (d ∷ y) (trim_end-append (x ∷ []) d y tail)

no_empty : is_safe_image_name [] ≡ false
unfolding is_safe_image_name
no_empty = refl

-- The parts of the check on an image name that begins with `c`.
record IsImage (c : ℕ) (s : Text) : Type 0 where
  no_dots : contains dots (c ∷ s) ≡ false
  no_backslash : has_char b'\\' (c ∷ s) ≡ false
  no_control : any is_control (c ∷ s) ≡ false
  no_front : (c == b'/') ≡ false
  no_back : ends_with (codes "/") (c ∷ s) ≡ false
  trimmed : trim (c ∷ s) ≡ c ∷ s

image_lem : (c : ℕ) (s : Text) → is_safe_image_name (c ∷ s) ≡ true → IsImage c s
unfolding is_safe_image_name starts_with
image_lem c s h = record {
  no_dots = ground arith;
  no_backslash = ground arith;
  no_control = ground arith;
  no_front = ground arith;
  no_back = ground arith;
  trimmed = sym ((text_eq_iff (c ∷ s) (trim (c ∷ s))).0 (ground arith));
}

image_complete : (c : ℕ) (s : Text) → IsImage c s → is_safe_image_name (c ∷ s) ≡ true
unfolding is_safe_image_name starts_with
image_complete c s p = ground (arith, p.trimmed, text_eq_self (c ∷ s))

-- Two image names that pass the check, joined by a slash, pass it.
pub join-is_safe_image_name :
    (a b : Text)
    → is_safe_image_name a ≡ true
    → is_safe_image_name b ≡ true
    → is_safe_image_name (a ++ b'/' ∷ b) ≡ true
join-is_safe_image_name [] b ha hb = absurd (cc (ha, no_empty))
join-is_safe_image_name (c ∷ a) [] ha hb = absurd (cc (hb, no_empty))
join-is_safe_image_name (c ∷ a) (d ∷ y) ha hb =
    let p = image_lem c a ha in
    let q = image_lem d y hb in
    image_complete c (a ++ b'/' ∷ d ∷ y) (record {
      no_dots = contains-dots_append (c ∷ a) (d ∷ y) p.no_dots q.no_dots;
      no_backslash =
          ground
            (arith, p.no_backslash, q.no_backslash, any-append (λ e. e == b'\\') a (b'/' ∷ d ∷ y));
      no_control =
          ground (arith, p.no_control, q.no_control, any-append is_control a (b'/' ∷ d ∷ y));
      no_front = p.no_front;
      no_back = ends_with-slash (c ∷ a) b'/' (d ∷ y) ∙ ends_with-slash (b'/' ∷ []) d y ∙ q.no_back;
      trimmed = trim-append c a b'/' d y p.trimmed q.trimmed;
    })
