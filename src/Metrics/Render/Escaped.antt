-- ===== src/Metrics/Render/Escaped.antt =====
-- A scraper reads back the image of a sample.
use harbor_router.Common.{
  ℕ, ◌++◌, append_assoc, ◌≡◌, refl, arith, inl, inr, false, Option, none, some, [], ◌∷◌, ◌==◌,
  Bool-cases, if◌then◌else◌, print_u64, Text, codes,
}
use harbor_router.Metrics.Render.{replace, escape_label_value, image_line}

-- What a backslash and a character stand for.
abbrev pub unescape_char : ℕ → Option ℕ
unescape_char c =
    if c == b'\\'
    then some b'\\'
    else if c == b'"'
    then some b'"'
    else if c == b'n'
    then some b'\n'
    else none

-- The value of a label up to the closing quotation mark, and what follows it. A line ends the value
-- too early, as does an escape that is unknown.
unfoldable pub read_label : Text → Option (Text × Text)
read_label [] = none
read_label (c ∷ []) = if c == b'"' then some ([], []) else none
read_label (c ∷ d ∷ s) =
    let escaped = read_label s in
    let plain = read_label (d ∷ s) in
    if c == b'"'
    then some ([], d ∷ s)
    else if c == b'\n'
    then none
    else if c == b'\\'
    then elim (unescape_char d) [
      | none ↦ none
      | some e ↦ elim escaped [ none ↦ none | some (value, rest) ↦ some (e ∷ value, rest) ]
    ]
    else elim plain [ none ↦ none | some (value, rest) ↦ some (c ∷ value, rest) ]

abbrev escape_char : ℕ → Text
escape_char c =
    if c == b'\\'
    then codes "\\\\"
    else if c == b'"'
    then codes "\\\""
    else if c == b'\n'
    then codes "\\n"
    else c ∷ []

-- The three passes over the text are one.
escape-cons :
    (c : ℕ) (s : Text) → escape_label_value (c ∷ s) ≡ escape_char c ++ escape_label_value s
unfolding escape_label_value replace
escape-cons c s = ground arith

read_label-quote : (rest : Text) → read_label (b'"' ∷ rest) ≡ some ([], rest)
unfolding read_label
read_label-quote [] = refl
read_label-quote (_ ∷ _) = refl

read_label-plain :
    (c : ℕ) (s value rest : Text)
    → (c == b'"') ≡ false
    → (c == b'\n') ≡ false
    → (c == b'\\') ≡ false
    → read_label s ≡ some (value, rest)
    → read_label (c ∷ s) ≡ some (c ∷ value, rest)
unfolding read_label
read_label-plain c [] value rest q n b h = cc
read_label-plain c (d ∷ s) value rest q n b h = rw (q, n, b, h, read_label) refl

read_label-char :
    (c : ℕ) (s value rest : Text)
    → read_label s ≡ some (value, rest)
    → read_label (escape_char c ++ s) ≡ some (c ∷ value, rest)
unfolding read_label
read_label-char c s value rest h = elim (Bool-cases (c == b'\\')) [
  | inl backslash ↦ let e : c ≡ b'\\' = ground arith in rw (e, read_label, h) refl
  | inr b ↦ elim (Bool-cases (c == b'"')) [
    | inl quote ↦ let e : c ≡ b'"' = ground arith in rw (e, read_label, h) refl
    | inr q ↦ elim (Bool-cases (c == b'\n')) [
      | inl line ↦ let e : c ≡ b'\n' = ground arith in rw (e, read_label, h) refl
      | inr n ↦ rw (b, q, n) (read_label-plain c s value rest q n b h)
    ]
  ]
]

read_label-escaped :
    (s rest : Text) → read_label (escape_label_value s ++ b'"' ∷ rest) ≡ some (s, rest)
unfolding escape_label_value replace
read_label-escaped [] rest = read_label-quote rest
read_label-escaped (c ∷ s) rest =
    rw (escape-cons c s, append_assoc)
      (read_label-char c (escape_label_value s ++ b'"' ∷ rest) s rest (read_label-escaped s rest))

-- The sample that is rendered for an image, with whatever characters its name has, is read back
-- by the rules of the text format as the name, and behind it stand the closing brace and the
-- count.
pub image_line-read :
    (name image : Text) (count : ℕ)
    → (written : Text) × (image_line name (image, count) ≡ name ++ (codes "{image=\"" ++ written))
      × (read_label written ≡ some (image, codes "} " ++ (print_u64 count ++ codes "\n")))
unfolding image_line
image_line-read name image count =
    let after = codes "} " ++ (print_u64 count ++ codes "\n") in
    (escape_label_value image ++ b'"' ∷ after, refl, read_label-escaped image after)
