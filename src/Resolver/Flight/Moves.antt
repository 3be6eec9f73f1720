-- ===== src/Resolver/Flight/Moves.antt =====
-- The moves of a caller as a relation: what one call of `act` can do.
use mathlib.Core.Path.{subst}
use harbor_router.Common.{
  ℕ, sym, ◌+◌, ◌≡◌, ◌⊎◌, inl, inr, refl, arith, none, some, Option-cases, Outcome,
}
use harbor_router.Resolver.World.{Response}
use harbor_router.Resolver.Flight.{
  Caller, outside, leading, publishing, joined, waiting, returned, cancelled, System, Move, enter,
  cloned, subscribe, send, gain, drop, answer, unlist, look, wake, expire, cancel, late, at, act,
  move,
}

pub data Moved (i : ℕ) (s : System) : System → Type 0 where
  stays : Moved i s s
  starts :
      s.callers i ≡ outside
      → s.flight ≡ none
      → Moved i s (at i (leading s.next) (record s { flight = some s.next; next = s.next + 1 }))
  joins :
      (channel : ℕ)
      → s.callers i ≡ outside
      → s.flight ≡ some channel
      → Moved i s (at i (cloned channel) s)
  subscribes :
      (channel : ℕ)
      → s.callers i ≡ cloned channel
      → Moved i s (at i (joined channel) (gain channel s))
  answers :
      (channel : ℕ) (o : Outcome Response)
      → s.callers i ≡ leading channel
      → Moved i s (at i (publishing channel o) (send channel o s))
  unlists :
      (channel : ℕ) (o : Outcome Response)
      → s.callers i ≡ publishing channel o
      → Moved i s (at i (returned channel o) (record s { flight = none }))
  waits :
      (channel : ℕ)
      → s.callers i ≡ joined channel
      → s.sent channel ≡ none
      → Moved i s (at i (waiting channel) s)
  gets :
      (channel : ℕ) (o : Outcome Response)
      → (s.callers i ≡ joined channel) ⊎ (s.callers i ≡ waiting channel)
      → s.sent channel ≡ some o
      → Moved i s (at i (returned channel o) (drop channel s))
  gives_up :
      (channel : ℕ)
      → s.callers i ≡ waiting channel
      → Moved i s (at i (returned channel late) (drop channel s))
  drops : (channel : ℕ) → s.callers i ≡ leading channel → Moved i s (at i cancelled s)
  leaves :
      (channel : ℕ) → s.callers i ≡ waiting channel → Moved i s (at i cancelled (drop channel s))

enter-first :
    (i : ℕ) (s : System)
    → s.flight ≡ none
    → act enter i outside s
      ≡ at i (leading s.next) (record s { flight = some s.next; next = s.next + 1 })
unfolding act
enter-first i s empty = ground (arith, empty)

enter-later :
    (i channel : ℕ) (s : System)
    → s.flight ≡ some channel
    → act enter i outside s ≡ at i (cloned channel) s
unfolding act
enter-later i channel s taken = ground (arith, taken)

enter-Moved : (i : ℕ) (x : Caller) (s : System) → s.callers i ≡ x → Moved i s (act enter i x s)
unfolding act
enter-Moved i outside s e = elim (Option-cases s.flight) [
  | inl empty ↦ subst (Moved i s) (sym (enter-first i s empty)) (starts e empty)
  | inr (channel, taken) ↦
      subst (Moved i s) (sym (enter-later i channel s taken)) (joins channel e taken)
]
enter-Moved i (leading c) s e = stays
enter-Moved i (publishing c p) s e = stays
enter-Moved i (cloned c) s e = stays
enter-Moved i (joined c) s e = stays
enter-Moved i (waiting c) s e = stays
enter-Moved i (returned c p) s e = stays
enter-Moved i cancelled s e = stays

answer-Moved :
    (o : Outcome Response) (i : ℕ) (x : Caller) (s : System)
    → s.callers i ≡ x
    → Moved i s (act (answer o) i x s)
unfolding act
answer-Moved o i outside s e = stays
answer-Moved o i (leading c) s e = answers c o e
answer-Moved o i (publishing c p) s e = stays
answer-Moved o i (cloned c) s e = stays
answer-Moved o i (joined c) s e = stays
answer-Moved o i (waiting c) s e = stays
answer-Moved o i (returned c p) s e = stays
answer-Moved o i cancelled s e = stays

unlist-Moved : (i : ℕ) (x : Caller) (s : System) → s.callers i ≡ x → Moved i s (act unlist i x s)
unfolding act
unlist-Moved i outside s e = stays
unlist-Moved i (leading c) s e = stays
unlist-Moved i (publishing c p) s e = unlists c p e
unlist-Moved i (cloned c) s e = stays
unlist-Moved i (joined c) s e = stays
unlist-Moved i (waiting c) s e = stays
unlist-Moved i (returned c p) s e = stays
unlist-Moved i cancelled s e = stays

subscribe-Moved :
    (i : ℕ) (x : Caller) (s : System) → s.callers i ≡ x → Moved i s (act subscribe i x s)
unfolding act
subscribe-Moved i outside s e = stays
subscribe-Moved i (leading c) s e = stays
subscribe-Moved i (publishing c p) s e = stays
subscribe-Moved i (cloned c) s e = subscribes c e
subscribe-Moved i (joined c) s e = stays
subscribe-Moved i (waiting c) s e = stays
subscribe-Moved i (returned c p) s e = stays
subscribe-Moved i cancelled s e = stays

look-Moved : (i : ℕ) (x : Caller) (s : System) → s.callers i ≡ x → Moved i s (act look i x s)
unfolding act
look-Moved i outside s e = stays
look-Moved i (leading c) s e = stays
look-Moved i (publishing c p) s e = stays
look-Moved i (cloned c) s e = stays
look-Moved i (joined c) s e = elim (Option-cases (s.sent c)) [
  | inl empty ↦ rw (empty, act) (waits c e empty)
  | inr (o, had) ↦ rw (had, act) (gets c o (inl e) had)
]
look-Moved i (waiting c) s e = stays
look-Moved i (returned c p) s e = stays
look-Moved i cancelled s e = stays

wake-Moved : (i : ℕ) (x : Caller) (s : System) → s.callers i ≡ x → Moved i s (act wake i x s)
unfolding act
wake-Moved i outside s e = stays
wake-Moved i (leading c) s e = stays
wake-Moved i (publishing c p) s e = stays
wake-Moved i (cloned c) s e = stays
wake-Moved i (joined c) s e = stays
wake-Moved i (waiting c) s e = elim (Option-cases (s.sent c)) [
  | inl empty ↦ rw (empty, act) stays
  | inr (o, had) ↦ rw (had, act) (gets c o (inr e) had)
]
wake-Moved i (returned c p) s e = stays
wake-Moved i cancelled s e = stays

expire-Moved : (i : ℕ) (x : Caller) (s : System) → s.callers i ≡ x → Moved i s (act expire i x s)
unfolding act
expire-Moved i outside s e = stays
expire-Moved i (leading c) s e = stays
expire-Moved i (publishing c p) s e = stays
expire-Moved i (cloned c) s e = stays
expire-Moved i (joined c) s e = stays
expire-Moved i (waiting c) s e = gives_up c e
expire-Moved i (returned c p) s e = stays
expire-Moved i cancelled s e = stays

cancel-Moved : (i : ℕ) (x : Caller) (s : System) → s.callers i ≡ x → Moved i s (act cancel i x s)
unfolding act
cancel-Moved i outside s e = stays
cancel-Moved i (leading c) s e = drops c e
cancel-Moved i (publishing c p) s e = stays
cancel-Moved i (cloned c) s e = stays
cancel-Moved i (joined c) s e = stays
cancel-Moved i (waiting c) s e = leaves c e
cancel-Moved i (returned c p) s e = stays
cancel-Moved i cancelled s e = stays

pub move-Moved : (i : ℕ) (m : Move) (s : System) → Moved i s (move (i, m) s)
unfolding move
move-Moved i enter s = enter-Moved i (s.callers i) s refl
move-Moved i (answer o) s = answer-Moved o i (s.callers i) s refl
move-Moved i unlist s = unlist-Moved i (s.callers i) s refl
move-Moved i subscribe s = subscribe-Moved i (s.callers i) s refl
move-Moved i look s = look-Moved i (s.callers i) s refl
move-Moved i wake s = wake-Moved i (s.callers i) s refl
move-Moved i expire s = expire-Moved i (s.callers i) s refl
move-Moved i cancel s = cancel-Moved i (s.callers i) s refl
