-- ===== src/Resolver/Flight/Orderly.antt =====
-- What is orderly about callers, the map and the channels, and how it is kept when a caller moves.
use harbor_router.Common.{
  ℕ, ◌≤◌, ◌<◌, ◌≡◌, ◌≢◌, ◌⊎◌, inl, inr, refl, Bool, true, false, Option, none, some, ◌==◌, arith,
  Bool-cases, Outcome,
}
use harbor_router.Resolver.World.{Response}
use harbor_router.Resolver.Flight.{
  Caller, outside, leading, publishing, joined, waiting, returned, cancelled, cloned, System, send,
  put, late, at,
}

abbrev pub leads : Caller → Bool
leads (leading channel) = true
leads (publishing channel o) = true
leads _ = false

-- What holds of a caller, given the entry and the answer of each flight.
abbrev pub Fits : Option ℕ → (ℕ → Option (Outcome Response)) → Caller → Type 0
Fits flight answers (leading channel) = (flight ≡ some channel) × (answers channel ≡ none)
Fits flight answers (publishing channel o) = (flight ≡ some channel) × (answers channel ≡ some o)
Fits flight answers (returned channel o) = (answers channel ≡ some o) ⊎ (o ≡ late)
Fits flight answers _ = Unit

-- `answers` is what the lookup of each flight's leader ended with. A channel holds that or nothing.
pub record IsOrderly (s : System) : Type 0 where
  pub answers : ℕ → Option (Outcome Response)
  pub fits : (i : ℕ) → Fits s.flight answers (s.callers i)
  pub kept : (channel : ℕ) → (s.sent channel ≡ none) ⊎ (s.sent channel ≡ answers channel)
  pub one : (i j : ℕ) → leads (s.callers i) ≡ true → leads (s.callers j) ≡ true → i ≡ j
  pub fresh : (channel : ℕ) → s.next ≤ channel → answers channel ≡ none
  pub below : (channel : ℕ) → s.flight ≡ some channel → channel < s.next

pub Fits-put :
    (i : ℕ) (x : Caller) (f : ℕ → Caller) (flight : Option ℕ)
    (answers : ℕ → Option (Outcome Response))
    → Fits flight answers x
    → ((j : ℕ) → i ≢ j → Fits flight answers (f j))
    → (j : ℕ) → Fits flight answers (put i x f j)
unfolding put
Fits-put i x f flight answers h hs j = elim (Bool-cases (i == j)) [
  | inl same ↦ rw same h
  | inr other ↦ rw other (hs j (ground (arith, other)))
]

-- A caller that does not lead keeps the leader alone.
pub one-put :
    (i : ℕ) (x : Caller) (f : ℕ → Caller)
    → leads x ≡ false
    → ((j k : ℕ) → leads (f j) ≡ true → leads (f k) ≡ true → j ≡ k)
    → (j k : ℕ) → leads (put i x f j) ≡ true
    → leads (put i x f k) ≡ true
    → j ≡ k
unfolding put
one-put i x f h one j k hj hk = elim (Bool-cases (i == j)) [
  | inl same ↦ absurd (cc (rw same at hj, h))
  | inr other ↦ elim (Bool-cases (i == k)) [
    | inl same ↦ absurd (cc (rw same at hk, h))
    | inr other_too ↦ one j k (rw other at hj) (rw other_too at hk)
  ]
]

-- So does a new leader where there was none.
pub one-put_first :
    (i : ℕ) (x : Caller) (f : ℕ → Caller)
    → ((j : ℕ) → i ≢ j → leads (f j) ≡ false)
    → (j k : ℕ) → leads (put i x f j) ≡ true
    → leads (put i x f k) ≡ true
    → j ≡ k
unfolding put
one-put_first i x f alone j k hj hk = elim (Bool-cases (i == j)) [
  | inl same ↦ elim (Bool-cases (i == k)) [
    | inl same_too ↦ ground arith
    | inr other ↦ absurd (cc (rw other at hk, alone k (ground (arith, other))))
  ]
  | inr other ↦ absurd (cc (rw other at hj, alone j (ground (arith, other))))
]

-- A move of caller `i` to a place that fits and does not lead.
pub IsOrderly-at :
    (i : ℕ) (x : Caller) (receivers : ℕ → ℕ) (s : System) (h : IsOrderly s)
    → leads x ≡ false
    → Fits s.flight h.answers x
    → IsOrderly (at i x (record s { receivers = receivers }))
IsOrderly-at i x receivers s h quiet_one fit = record {
  answers = h.answers;
  fits = Fits-put i x s.callers s.flight h.answers fit (λ j ne. h.fits j);
  kept = h.kept;
  one = one-put i x s.callers quiet_one h.one;
  fresh = h.fresh;
  below = h.below;
}

pub leads-flight :
    (s : System) (i : ℕ)
    → IsOrderly s
    → leads (s.callers i) ≡ true
    → (channel : ℕ) × (s.flight ≡ some channel)
leads-flight s i h l = go (s.callers i) (h.fits i) l
  where
    go :
        (x : Caller)
        → Fits s.flight h.answers x
        → leads x ≡ true
        → (channel : ℕ) × (s.flight ≡ some channel)
    go (leading channel) fit e = (channel, fit.0)
    go (publishing channel o) fit e = (channel, fit.0)
    go outside fit e = absurd (ground arith)
    go (cloned channel) fit e = absurd (ground arith)
    go (joined channel) fit e = absurd (ground arith)
    go (waiting channel) fit e = absurd (ground arith)
    go (returned channel o) fit e = absurd (ground arith)
    go cancelled fit e = absurd (ground arith)

-- With no flight in the map nobody leads.
pub nobody-leads :
    (s : System) (i : ℕ) → IsOrderly s → s.flight ≡ none → leads (s.callers i) ≡ false
nobody-leads s i h empty = elim (Bool-cases (leads (s.callers i))) [
  | inl l ↦ let (channel, e) = leads-flight s i h l in absurd (cc (e, empty))
  | inr idle ↦ idle
]

pub others_idle :
    (s : System) (i : ℕ)
    → IsOrderly s
    → leads (s.callers i) ≡ true
    → (j : ℕ) → i ≢ j
    → leads (s.callers j) ≡ false
others_idle s i h l j ne = elim (Bool-cases (leads (s.callers j))) [
  | inl l_too ↦ absurd (ne (h.one i j l l_too))
  | inr idle ↦ idle
]

pub Fits-idle :
    (flight flight_now : Option ℕ) (answers : ℕ → Option (Outcome Response)) (x : Caller)
    → leads x ≡ false
    → Fits flight answers x
    → Fits flight_now answers x
Fits-idle flight flight_now answers (leading channel) h fit = absurd (ground arith)
Fits-idle flight flight_now answers (publishing channel o) h fit = absurd (ground arith)
Fits-idle flight flight_now answers (returned channel o) h fit = fit
Fits-idle flight flight_now answers outside h fit = tt
Fits-idle flight flight_now answers (cloned channel) h fit = tt
Fits-idle flight flight_now answers (joined channel) h fit = tt
Fits-idle flight flight_now answers (waiting channel) h fit = tt
Fits-idle flight flight_now answers cancelled h fit = tt

pub Fits-answers :
    (flight : Option ℕ) (answers : ℕ → Option (Outcome Response)) (x : Caller) (channel : ℕ)
    (o : Outcome Response)
    → answers channel ≡ none
    → leads x ≡ false
    → Fits flight answers x
    → Fits flight (put channel (some o) answers) x
unfolding put
Fits-answers flight answers (leading c) channel o e h fit = absurd (ground arith)
Fits-answers flight answers (publishing c p) channel o e h fit = absurd (ground arith)
Fits-answers flight answers (returned c p) channel o e h (inr l) = inr l
Fits-answers flight answers (returned c p) channel o e h (inl had) =
    elim (Bool-cases (channel == c)) [
      | inl same ↦ let eq : channel ≡ c = ground arith in absurd (cc (had, e, eq))
      | inr other ↦ rw other (inl had)
    ]
Fits-answers flight answers outside channel o e h fit = tt
Fits-answers flight answers (cloned c) channel o e h fit = tt
Fits-answers flight answers (joined c) channel o e h fit = tt
Fits-answers flight answers (waiting c) channel o e h fit = tt
Fits-answers flight answers cancelled channel o e h fit = tt

pub put-other : (i j : ℕ) {A : Type 0} (x : A) (f : ℕ → A) → i ≢ j → put i x f j ≡ f j
unfolding put
put-other i j x f ne = ground (arith, ne)

pub put_self : (i : ℕ) {A : Type 0} (x : A) (f : ℕ → A) → put i x f i ≡ x
unfolding put
put_self i x f = ground arith

-- What the leader sends is in the channel, or nothing is.
pub send-kept :
    (c d : ℕ) (o : Outcome Response) (answers : ℕ → Option (Outcome Response)) (s : System)
    → answers c ≡ none
    → (s.sent d ≡ none) ⊎ (s.sent d ≡ answers d)
    → ((send c o s).sent d ≡ none) ⊎ ((send c o s).sent d ≡ put c (some o) answers d)
unfolding send put
send-kept c d o answers s e hd = elim (Bool-cases (s.receivers c == 0)) [
  | inl lone ↦ elim (Bool-cases (c == d)) [
    | inl same ↦
        let eq : c ≡ d = ground arith in
        rw (lone, same) (inl (elim hd [ inl empty ↦ empty | inr held ↦ cc (held, e, eq) ]))
    | inr other ↦ rw (lone, other) hd
  ]
  | inr heard ↦ elim (Bool-cases (c == d)) [
    | inl same ↦ rw (heard, same) (inr refl)
    | inr other ↦ rw (heard, other) hd
  ]
]

pub kept-some :
    (s : System) (h : IsOrderly s) (channel : ℕ) (o : Outcome Response)
    → s.sent channel ≡ some o
    → h.answers channel ≡ some o
kept-some s h channel o had = elim (h.kept channel) [
  | inl empty ↦ absurd (cc (had, empty))
  | inr same ↦ cc (had, same)
]
