-- ===== src/Server/Limits.antt =====
-- The limiter of src/main.rs: what a refused request gets, and what is counted and logged.
use harbor_router.Common.{
  ℕ, suc, ◌+◌, ◌≤◌, ◌≡◌, inl, inr, refl, false, Option, none, some, List, [], ◌∷◌, arith,
  Bool-cases, Option-cases, ◌==◌, keep, length, any, All, is_control, if◌then◌else◌, Text,
}
use harbor_router.Cache.{CacheBackend}
use harbor_router.Resolver.World.{Environment, Settings, now_ms}
use harbor_router.Handlers.Headers.{Reaction}
use harbor_router.Handlers.Logs.{
  LogEntry, entry_of, byte_len, sanitize_log_field, logging_middleware,
}
use harbor_router.Handlers.Logs.Sanitized.{sanitize_log_field-clean}
use harbor_router.Server.{
  Limiter, Axum, HttpRequest, Server, too_many_requests, rate_limit_middleware, respond,
}

-- The entries of the log for answers with status 429.
abbrev pub refusals : List LogEntry → ℕ
refusals log = length (keep (λ entry. entry.status == 429) log)

-- Its path is on one line and not long.
abbrev pub IsReadable : LogEntry → Type 0
IsReadable entry = (any is_control entry.path ≡ false) × (byte_len entry.path ≤ 512)

-- Every request that was counted as rejected is logged with status 429, and every entry is readable.
pub record IsAccounted (rejected : ℕ) (log : List LogEntry) : Type 0 where
  pub counted : rejected ≤ refusals log
  pub readable : All IsReadable log

-- A limiter that is on and refuses the request of a known client.
pub record IsRefused {c : CacheBackend} {l : Limiter} (env : Environment) (req : HttpRequest)
    (s : Server c l) : Type 0 where
  pub limits : l.State
  pub ip : Text
  pub on : s.limiter ≡ some limits
  pub known : req.peer ≡ some ip
  pub over : (l.check_key (now_ms env s.gateway.world) ip limits).0 ≡ false

module _ {c : CacheBackend} {l : Limiter} (settings : Settings) (env : Environment) where
  -- Requests one after another.
  unfoldable pub respond_all :
      Axum
      → (proxy_project : Text) → List HttpRequest
      → Server c l
      → Option (List Reaction × Server c l)
  respond_all axum proxy_project [] s = some ([], s)
  respond_all axum proxy_project (req ∷ reqs) s =
      elim (respond settings env axum proxy_project req s) [
        | none ↦ none
        | some (answer, s') ↦ elim (respond_all axum proxy_project reqs s') [
          | none ↦ none
          | some (answers, s'') ↦ some (answer ∷ answers, s'')
        ]
      ]

  -- A step of the limiter counts one refusal and answers with 429, or counts none; it logs nothing.
  rate_limit_middleware_counts :
      (axum : Axum) (proxy_project : Text) (req : HttpRequest) (s : Server c l)
      → let (answer, s') = rate_limit_middleware settings env axum proxy_project req s in
        (s'.log ≡ s.log) × (s'.rejected ≤ s.rejected + (if answer.status == 429 then 1 else 0))
  unfolding rate_limit_middleware
  rate_limit_middleware_counts axum proxy_project req s = elim (Option-cases s.limiter) [
    | inl off ↦ rw (rate_limit_middleware, off) (refl, omega arith)
    | inr (limits, on) ↦ elim (Option-cases req.peer) [
      | inl unknown ↦ rw (rate_limit_middleware, on, unknown) (refl, omega arith)
      | inr (ip, known) ↦ elim (Bool-cases (l.check_key (now_ms env s.gateway.world) ip limits).0) [
        | inl allowed ↦ rw (rate_limit_middleware, on, known, allowed) (refl, omega arith)
        | inr over ↦ rw (rate_limit_middleware, on, known, over) (refl, omega arith)
      ]
    ]
  ]

  -- The one entry of an answered request.
  respond_logs :
      (axum : Axum) (proxy_project : Text) (req : HttpRequest) (s s' : Server c l) (r : Reaction)
      → respond settings env axum proxy_project req s ≡ some (r, s')
      → let (answer, after) = rate_limit_middleware settings env axum proxy_project req s in
        (entry : LogEntry) × IsReadable entry
        × (entry.status ≡ answer.status)
        × (s'.log ≡ entry ∷ after.log)
        × (s'.rejected ≡ after.rejected)
        × (r ≡ answer)
        × (s'.gateway ≡ after.gateway)
  unfolding respond logging_middleware
  respond_logs axum proxy_project req s s' r e =
      elim (Option-cases (sanitize_log_field req.incoming.path)) [
        | inl stuck ↦ absurd (cc (rw (respond, logging_middleware, stuck) at e))
        | inr (clean, sanitized) ↦
            let done = rw (respond, logging_middleware, sanitized) at e in
            let answer = (rate_limit_middleware settings env axum proxy_project req s).0 in
            (
              entry_of req.method clean answer,
              (sanitize_log_field-clean req.incoming.path).0 clean sanitized,
              refl,
              ground (arith, done),
              ground (arith, done),
              ground (arith, done),
              ground (arith, done),
            )
      ]

  respond-IsAccounted :
      (axum : Axum) (proxy_project : Text) (req : HttpRequest) (s s' : Server c l) (r : Reaction)
      → respond settings env axum proxy_project req s ≡ some (r, s')
      → IsAccounted s.rejected s.log
      → IsAccounted s'.rejected s'.log × (length s'.log ≡ suc (length s.log))
  respond-IsAccounted axum proxy_project req s s' r e before =
      let (entry, fine_path, status, logged, rejected, same, gateway) =
        respond_logs axum proxy_project req s s' r e in
      let (kept, counted) = rate_limit_middleware_counts axum proxy_project req s in
      let answer = (rate_limit_middleware settings env axum proxy_project req s).0 in
      elim (Bool-cases (answer.status == 429)) [
        | inl over ↦
            rw (logged, kept)
              (
                record {
                  counted =
                      rw (status, over)
                        (omega (arith, rejected, rw over at counted, before.counted));
                  readable = (fine_path, before.readable);
                },
                refl,
              )
        | inr fine ↦
            rw (logged, kept)
              (
                record {
                  counted =
                      rw (status, fine)
                        (omega (arith, rejected, rw fine at counted, before.counted));
                  readable = (fine_path, before.readable);
                },
                refl,
              )
      ]

  -- However many requests are answered one after another, each is logged once, those that were
  -- counted as rejected are logged with status 429, and every path in the log has no control
  -- character and at most 512 bytes.
  pub respond_all-IsAccounted :
      (axum : Axum) (proxy_project : Text) (reqs : List HttpRequest) (s s' : Server c l)
      (answers : List Reaction)
      → respond_all axum proxy_project reqs s ≡ some (answers, s')
      → IsAccounted s.rejected s.log
      → IsAccounted s'.rejected s'.log
        × (length s'.log ≡ length reqs + length s.log)
        × (length answers ≡ length reqs)
  unfolding respond_all
  respond_all-IsAccounted axum proxy_project [] s s' answers e before =
      let log : s.log ≡ s'.log = ground arith in
      let count : s.rejected ≡ s'.rejected = ground arith in
      let list : [] ≡ answers = ground arith in
      rw (← log, ← count, ← list) (before, omega arith, refl)
  respond_all-IsAccounted axum proxy_project (req ∷ reqs) s s' answers e before =
      elim (Option-cases (respond settings env axum proxy_project req s)) [
        | inl panic ↦ absurd (cc (rw (respond_all, panic) at e))
        | inr ((answer, s1), served) ↦
            elim (Option-cases (respond_all axum proxy_project reqs s1)) [
              | inl panic ↦ absurd (cc (rw (respond_all, served, panic) at e))
              | inr ((rest, s2), later) ↦
                  let (accounted, one_more) =
                    respond-IsAccounted axum proxy_project req s s1 answer served before in
                  let (end, logged, answered) =
                    respond_all-IsAccounted axum proxy_project reqs s1 s2 rest later accounted in
                  let done = rw (respond_all, served, later) at e in
                  let log : s2.log ≡ s'.log = ground (arith, done) in
                  let count : s2.rejected ≡ s'.rejected = ground (arith, done) in
                  let list : answer ∷ rest ≡ answers = ground (arith, done) in
                  rw (← log, ← count, ← list)
                    (end, omega (arith, logged, one_more), omega (arith, answered))
            ]
      ]

  rate_limit_middleware-refused :
      (axum : Axum) (proxy_project : Text) (req : HttpRequest) (s : Server c l)
      (refused : IsRefused env req s)
      → rate_limit_middleware settings env axum proxy_project req s ≡ (
        too_many_requests,
        record s {
          limiter = some (l.check_key (now_ms env s.gateway.world) refused.ip refused.limits).1;
          rejected = s.rejected + 1;
        },
      )
  unfolding rate_limit_middleware
  rate_limit_middleware-refused axum proxy_project req s refused =
      rw (rate_limit_middleware, refused.on, refused.known, refused.over) refl

  -- A refused request
  pub respond-refused :
      (axum : Axum) (proxy_project : Text) (req : HttpRequest) (s s' : Server c l) (r : Reaction)
      → IsRefused env req s
      → respond settings env axum proxy_project req s ≡ some (r, s')
      → (r ≡ too_many_requests) × (s'.gateway ≡ s.gateway) × (s'.rejected ≡ s.rejected + 1)
  respond-refused axum proxy_project req s s' r refused e =
      let middle = rate_limit_middleware-refused axum proxy_project req s refused in
      let (entry, fine_path, status, logged, rejected, same, gateway) =
        respond_logs axum proxy_project req s s' r e in
      (rw middle at same, rw middle at gateway, rw middle at rejected)
