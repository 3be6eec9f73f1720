-- ===== src/Resolver/Flight/Lost.antt =====
-- A leader whose future is dropped: nobody removes its flight.
use mathlib.Core.Path.{subst}
use harbor_router.Common.{
  ℕ, ◌≡◌, inl, inr, refl, sym, ap, ◌∙◌, false, none, some, List, [], ◌∷◌, ◌==◌, arith, Bool-cases,
}
use harbor_router.Resolver.Flight.{
  Caller, outside, leading, publishing, cloned, joined, waiting, returned, cancelled, System, Move,
  cancel, put, late, at, act, move, moves, quiet,
}
use harbor_router.Resolver.Flight.Moves.{
  Moved, stays, starts, joins, subscribes, leaves, answers, unlists, waits, gets, gives_up, drops,
  move-Moved,
}
use harbor_router.Resolver.Flight.Orderly.{IsOrderly, Fits, leads, others_idle}
use harbor_router.Resolver.Flight.Leaders.{moves-IsOrderly}

-- The flight of `channel` stands in the map, and nothing is in the channel, and nobody leads.
pub record IsLost (channel : ℕ) (s : System) : Type 0 where
  pub listed : s.flight ≡ some channel
  pub empty : s.sent channel ≡ none
  pub idle : (i : ℕ) → leads (s.callers i) ≡ false

idle-put :
    (i : ℕ) (x : Caller) (f : ℕ → Caller)
    → leads x ≡ false
    → ((j : ℕ) → leads (f j) ≡ false)
    → (j : ℕ) → leads (put i x f j) ≡ false
unfolding put
idle-put i x f h hs j = elim (Bool-cases (i == j)) [
  | inl same ↦ rw same h
  | inr other ↦ rw other (hs j)
]

IsLost-at :
    (channel i : ℕ) (x : Caller) (receivers : ℕ → ℕ) (s : System)
    → leads x ≡ false
    → IsLost channel s
    → IsLost channel (at i x (record s { receivers = receivers }))
IsLost-at channel i x receivers s h lost = record {
  listed = lost.listed;
  empty = lost.empty;
  idle = idle-put i x s.callers h lost.idle;
}

Moved-IsLost : {channel i : ℕ} {s t : System} → Moved i s t → IsLost channel s → IsLost channel t
Moved-IsLost stays h = h
Moved-IsLost (starts e empty) h = absurd (cc (empty, h.listed))
Moved-IsLost {channel} {i} {s} (joins c e taken) h =
    IsLost-at channel i (cloned c) s.receivers s refl h
Moved-IsLost {channel} {i} {s} (subscribes c e) h = IsLost-at channel i (joined c) _ s refl h
Moved-IsLost {channel} {i} {s} (answers c o e) h = absurd (cc (h.idle i, ap leads e))
Moved-IsLost {channel} {i} {s} (unlists c o e) h = absurd (cc (h.idle i, ap leads e))
Moved-IsLost {channel} {i} {s} (waits c e empty) h =
    IsLost-at channel i (waiting c) s.receivers s refl h
Moved-IsLost {channel} {i} {s} (gets c o e had) h = IsLost-at channel i (returned c o) _ s refl h
Moved-IsLost {channel} {i} {s} (gives_up c e) h = IsLost-at channel i (returned c late) _ s refl h
Moved-IsLost {channel} {i} {s} (drops c e) h = IsLost-at channel i cancelled s.receivers s refl h
Moved-IsLost {channel} {i} {s} (leaves c e) h = IsLost-at channel i cancelled _ s refl h

moves-IsLost :
    (channel : ℕ) (ms : List (ℕ × Move)) (s : System)
    → IsLost channel s
    → IsLost channel (moves ms s)
unfolding moves
moves-IsLost channel [] s h = h
moves-IsLost channel ((i, m) ∷ ms) s h =
    moves-IsLost channel ms (move (i, m) s) (Moved-IsLost (move-Moved i m s) h)

-- A caller that has not called yet, or that takes part in this flight, and has no answer but the timeout.
abbrev pub IsStranded : ℕ → Caller → Type 0
IsStranded channel outside = Unit
IsStranded channel cancelled = Unit
IsStranded channel (cloned c) = c ≡ channel
IsStranded channel (joined c) = c ≡ channel
IsStranded channel (waiting c) = c ≡ channel
IsStranded channel (returned c o) = (c ≡ channel) × (o ≡ late)
IsStranded channel (leading c) = ⊥
IsStranded channel (publishing c o) = ⊥

IsStranded-put :
    (channel i j : ℕ) (x : Caller) (f : ℕ → Caller)
    → IsStranded channel (f j)
    → (i ≡ j → IsStranded channel x)
    → IsStranded channel (put i x f j)
unfolding put
IsStranded-put channel i j x f h hx = elim (Bool-cases (i == j)) [
  | inl same ↦ rw same (hx (ground arith))
  | inr other ↦ rw other h
]

Moved-IsStranded :
    (j : ℕ) {channel i : ℕ} {s t : System}
    → Moved i s t
    → IsLost channel s
    → IsStranded channel (s.callers j)
    → IsStranded channel (t.callers j)
Moved-IsStranded j stays h here = here
Moved-IsStranded j (starts e empty) h here = absurd (cc (empty, h.listed))
Moved-IsStranded j {channel} {i} {s} (joins c e taken) h here =
    IsStranded-put channel i j (cloned c) s.callers here (λ same. ground (arith, taken, h.listed))
Moved-IsStranded j {channel} {i} {s} (subscribes c e) h here =
    IsStranded-put channel i j (joined c) s.callers here
      (λ same. subst (IsStranded channel) (ap s.callers (sym same) ∙ e) here)
Moved-IsStranded j {channel} {i} {s} (answers c o e) h here = absurd (cc (h.idle i, ap leads e))
Moved-IsStranded j {channel} {i} {s} (unlists c o e) h here = absurd (cc (h.idle i, ap leads e))
Moved-IsStranded j {channel} {i} {s} (waits c e empty) h here =
    IsStranded-put channel i j (waiting c) s.callers here
      (λ same. subst (IsStranded channel) (ap s.callers (sym same) ∙ e) here)
Moved-IsStranded j {channel} {i} {s} (gets c o (inl e) had) h here =
    IsStranded-put channel i j (returned c o) s.callers here (λ same.
      let eq : c ≡ channel = subst (IsStranded channel) (ap s.callers (sym same) ∙ e) here in
      absurd (cc (had, h.empty, eq)))
Moved-IsStranded j {channel} {i} {s} (gets c o (inr e) had) h here =
    IsStranded-put channel i j (returned c o) s.callers here (λ same.
      let eq : c ≡ channel = subst (IsStranded channel) (ap s.callers (sym same) ∙ e) here in
      absurd (cc (had, h.empty, eq)))
Moved-IsStranded j {channel} {i} {s} (gives_up c e) h here =
    IsStranded-put channel i j (returned c late) s.callers here
      (λ same. (subst (IsStranded channel) (ap s.callers (sym same) ∙ e) here, refl))
Moved-IsStranded j {channel} {i} {s} (drops c e) h here =
    IsStranded-put channel i j cancelled s.callers here (λ same. tt)
Moved-IsStranded j {channel} {i} {s} (leaves c e) h here =
    IsStranded-put channel i j cancelled s.callers here (λ same. tt)

moves-IsStranded :
    (channel j : ℕ) (ms : List (ℕ × Move)) (s : System)
    → IsLost channel s
    → IsStranded channel (s.callers j)
    → IsStranded channel ((moves ms s).callers j)
unfolding moves
moves-IsStranded channel j [] s h here = here
moves-IsStranded channel j ((i, m) ∷ ms) s h here =
    moves-IsStranded channel j ms (move (i, m) s) (Moved-IsLost (move-Moved i m s) h)
      (Moved-IsStranded j (move-Moved i m s) h here)

cancel-IsLost :
    (i channel : ℕ) (s : System)
    → IsOrderly s
    → s.callers i ≡ leading channel
    → IsLost channel (move (i, cancel) s)
unfolding move act put
cancel-IsLost i channel s h stands =
    let (named, pending) = subst (Fits s.flight h.answers) stands (h.fits i) in
    subst (IsLost channel) (sym gone) (record {
      listed = named;
      empty = elim (h.kept channel) [ inl empty ↦ empty | inr same ↦ same ∙ pending ];
      idle = λ j. elim (Bool-cases (i == j)) [
        | inl same ↦ rw same refl
        | inr other ↦ rw other (others_idle s i h (ap leads stands) j (ground (arith, other)))
      ];
    })
  where
    gone : move (i, cancel) s ≡ at i cancelled s
    gone = ap (λ x. act cancel i x s) stands

-- When the future of a leader is dropped before its lookup ends, its flight stays in the map
-- whatever moves follow, nobody ever leads again, and every later caller that returns has timed
-- out.
pub cancel-IsLost_forever :
    (before after : List (ℕ × Move)) (i channel : ℕ)
    → (moves before quiet).callers i ≡ leading channel
    → let s = move (i, cancel) (moves before quiet) in
      IsLost channel (moves after s)
      × ((j : ℕ) → s.callers j ≡ outside → IsStranded channel ((moves after s).callers j))
cancel-IsLost_forever before after i channel stands =
    let lost = cancel-IsLost i channel (moves before quiet) (moves-IsOrderly before) stands in
    (
      moves-IsLost channel after (move (i, cancel) (moves before quiet)) lost,
      λ j new.
          moves-IsStranded channel j after (move (i, cancel) (moves before quiet)) lost
            (subst (IsStranded channel) (sym new) tt),
    )
