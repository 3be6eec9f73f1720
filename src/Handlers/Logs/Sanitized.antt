-- ===== src/Handlers/Logs/Sanitized.antt =====
-- What `sanitize_log_field` gives, and when it panics.
use harbor_router.Common.{
  ℕ, ◌-◌, ◌≤◌, ◌≡◌, inl, inr, refl, true, false, some, [], ◌∷◌, arith, ltb, ◌==◌, Bool-cases,
  Option-cases, is_control, any, all, Text,
}
use harbor_router.Handlers.Logs.{len_utf8, byte_len, slice_to, replace_controls, sanitize_log_field}

lacks-controls : (s : Text) → any is_control (replace_controls s) ≡ false
unfolding replace_controls
lacks-controls [] = refl
lacks-controls (c ∷ s) = ground (arith, lacks-controls s)

byte_len-replace : (s : Text) → byte_len (replace_controls s) ≤ byte_len s
unfolding replace_controls byte_len
byte_len-replace [] = omega arith
byte_len-replace (c ∷ s) = ground (arith, byte_len-replace s)

byte_len-slice : (n : ℕ) (s t : Text) → slice_to n s ≡ some t → byte_len t ≤ n
unfolding slice_to byte_len
byte_len-slice n [] t h = ground arith
byte_len-slice n (c ∷ s) t h = elim (Bool-cases (n == 0)) [
  | inl done ↦ ground arith
  | inr more ↦ elim (Bool-cases (ltb n (len_utf8 c))) [
    | inl inside ↦ absurd (cc (rw (more, inside, slice_to) at h))
    | inr fits ↦ elim (Option-cases (slice_to (n - len_utf8 c) s)) [
      | inl stuck ↦ absurd (cc (rw (more, fits, stuck, slice_to) at h))
      | inr (u, e) ↦
          let same : c ∷ u ≡ t = ground (arith, rw (more, fits, e, slice_to) at h) in
          rw (← same) (ground (arith, byte_len-slice (n - len_utf8 c) s u e, fits))
    ]
  ]
]

-- An ASCII text is never cut inside a character.
slice_to-ascii :
    (n : ℕ) (s : Text) → all (λ c. ltb c 128) s ≡ true → (t : Text) × (slice_to n s ≡ some t)
unfolding slice_to
slice_to-ascii n [] h = ([], refl)
slice_to-ascii n (c ∷ s) h =
    let (t, e) = slice_to-ascii (n - len_utf8 c) s (ground arith) in
    elim (Bool-cases (n == 0)) [
      | inl done ↦ ([], rw done refl)
      | inr more ↦ (c ∷ t, ground (arith, e, more))
    ]

-- What is logged of a path has no control character and at most 512 bytes, and for an ASCII path
-- the sanitizing does not panic.
pub sanitize_log_field-clean :
    (s : Text)
    → ((t : Text) → sanitize_log_field s ≡ some t → (any is_control t ≡ false) × (byte_len t ≤ 512))
      × (all (λ c. ltb c 128) s ≡ true → (t : Text) × (sanitize_log_field s ≡ some t))
unfolding sanitize_log_field
sanitize_log_field-clean s = elim (Bool-cases (ltb 512 (byte_len s))) [
  | inl long ↦ (
    (λ t h. elim (Option-cases (slice_to 512 s)) [
      | inl stuck ↦ absurd (cc (rw (long, stuck, sanitize_log_field) at h))
      | inr (u, e) ↦
          let same : replace_controls u ≡ t =
            ground (arith, rw (long, e, sanitize_log_field) at h) in
          rw (← same)
            (lacks-controls u, omega (arith, byte_len-replace u, byte_len-slice 512 s u e))
    ]),
    (λ ascii.
        let (u, e) = slice_to-ascii 512 s ascii in
        (replace_controls u, rw (long, e, sanitize_log_field) refl)),
  )
  | inr short ↦ (
    (λ t h.
        let same : replace_controls s ≡ t = ground (arith, rw (short, sanitize_log_field) at h) in
        let le : byte_len s ≤ 512 = ground (arith, short) in
        rw (← same) (lacks-controls s, omega (arith, byte_len-replace s, le))),
    (λ ascii. (replace_controls s, rw (short, sanitize_log_field) refl)),
  )
]
