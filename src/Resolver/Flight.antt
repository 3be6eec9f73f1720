-- ===== src/Resolver/Flight.antt =====
-- `singleflight` of src/resolver.rs as a machine: any number of callers with the same key share the
-- map of flights, and their moves interleave.
pub mod Moves
pub mod Orderly
pub mod Leaders
pub mod Lost
use harbor_router.Common.{
  ℕ, ◌+◌, ◌-◌, Option, none, some, List, [], ◌∷◌, ◌==◌, if◌then◌else◌, Text, codes, Outcome, ok,
  err,
}
use harbor_router.Resolver.World.{Response}

-- Where a caller stands. A flight is named by the number of its channel; the number in `returned` is
-- that of the flight that the caller took part in.
pub data Caller : Type 0 where
  outside : Caller
  leading : ℕ → Caller  -- awaits `parallel_lookup`
  publishing : ℕ → Outcome Response → Caller  -- has called `send`, has not yet removed the flight
  cloned : ℕ → Caller  -- has the sender of the flight, has not yet subscribed
  joined : ℕ → Caller  -- has subscribed
  waiting : ℕ → Caller  -- awaits `changed`
  returned : ℕ → Outcome Response → Caller
  cancelled : Caller  -- its future was dropped

-- The entry of the key in `flights`, the number of the next channel, how many receivers each channel
-- has and the value in it, and the callers.
pub record System : Type 0 where
  pub flight : Option ℕ
  pub next : ℕ
  pub receivers : ℕ → ℕ
  pub sent : ℕ → Option (Outcome Response)
  pub callers : ℕ → Caller

pub data Move : Type 0 where
  enter : Move
  answer : Outcome Response → Move
  unlist : Move
  subscribe : Move
  look : Move
  wake : Move
  expire : Move
  cancel : Move

unfoldable pub put : {A : Type 0} → ℕ → A → (ℕ → A) → ℕ → A
put i x f j = if i == j then x else f j

abbrev pub late : Outcome Response
late = err (codes "singleflight: follower timed out waiting for leader")

abbrev pub at : ℕ → Caller → System → System
at i caller s = record s { callers = put i caller s.callers }

-- `watch::Sender::send` stores nothing in a channel that has no receiver; the one that the channel was
-- made with is dropped before the leader looks up.
unfoldable pub send : ℕ → Outcome Response → System → System
send channel o s = record s {
  sent = if s.receivers channel == 0 then s.sent else put channel (some o) s.sent;
}

abbrev pub gain : ℕ → System → System
gain channel s = record s { receivers = put channel (s.receivers channel + 1) s.receivers }

abbrev pub drop : ℕ → System → System
drop channel s = record s { receivers = put channel (s.receivers channel - 1) s.receivers }

-- A move that a caller at this place cannot make changes nothing. (The sender that every follower
-- holds keeps the channel open, so `changed` never finds it closed.)
unfoldable pub act : Move → ℕ → Caller → System → System
unfolding put send
act enter i outside s = elim s.flight [
  | none ↦ at i (leading s.next) (record s { flight = some s.next; next = s.next + 1 })
  | some channel ↦ at i (cloned channel) s
]
act subscribe i (cloned channel) s = at i (joined channel) (gain channel s)
act (answer o) i (leading channel) s = at i (publishing channel o) (send channel o s)
act unlist i (publishing channel o) s = at i (returned channel o) (record s { flight = none })
act look i (joined channel) s = elim (s.sent channel) [
  | some o ↦ at i (returned channel o) (drop channel s)
  | none ↦ at i (waiting channel) s
]
act wake i (waiting channel) s = elim (s.sent channel) [
  | some o ↦ at i (returned channel o) (drop channel s)
  | none ↦ s
]
act expire i (waiting channel) s = at i (returned channel late) (drop channel s)
act cancel i (leading channel) s = at i cancelled s
act cancel i (waiting channel) s = at i cancelled (drop channel s)
act _ i caller s = s

unfoldable pub move : ℕ × Move → System → System
move (i, m) s = act m i (s.callers i) s

unfoldable pub moves : List (ℕ × Move) → System → System
moves [] s = s
moves (m ∷ ms) s = moves ms (move m s)

abbrev pub quiet : System
quiet = record {
  flight = none;
  next = 0;
  receivers = λ channel. 0;
  sent = λ channel. none;
  callers = λ i. outside;
}
