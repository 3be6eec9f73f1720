-- ===== src/Resolver/Fetch/Retries.antt =====
-- How often `fetch_manifest_with_retry` asks, and which answer it gives.
use Prim.Native.Nat.{max}
use native.Mathlib.Nat.{add-zero}
use harbor_router.Common.{
  ℕ, zero, suc, ◌+◌, ◌<◌, ◌≡◌, ◌⊎◌, true, false, ◌&&◌, Option, some, List, ◌∷◌, arith, Bool-cases,
  inl, inr, ltb, if◌then◌else◌, Text, Outcome,
}
use harbor_router.Validation.{is_safe_project_name}
use harbor_router.Cache.{CacheBackend}
use harbor_router.Resolver.World.{Response, Environment, Settings, World, of_reply}
use harbor_router.Resolver.Fetch.{
  manifest_request, is_retryable, fetch_manifest, retry_delay, retry_loop,
  fetch_manifest_with_retry,
}

-- The delays before the attempts `first`, …, `first + n - 1` are repeated, the newest first.
abbrev pub delays : Settings → ℕ → ℕ → List ℕ → List ℕ
delays settings first zero slept = slept
delays settings first (suc n) slept =
    delays settings (first + 1) n (retry_delay settings first ∷ slept)

module _ (settings : Settings) (env : Environment) (project image reference : Text)
    (accept : List Text) where
  -- The outcome of a request for the manifest at a moment.
  abbrev pub outcome_at : ℕ → Outcome Response
  outcome_at tick =
      of_reply project (env.reply tick (manifest_request settings project image reference accept))

  module _ {c : CacheBackend} where
    -- `k` attempts failed in a way that is worth a retry, and the next one gave the result.
    pub record IsRetried (max_attempts attempt k : ℕ) (w : World c)
        (result : Option (Outcome Response) × World c) : Type 0 where
      pub in_bounds : attempt + k < max_attempts
      pub value : result.0 ≡ some (outcome_at (w.tick + k))
      pub world :
          result.1 ≡ record w { tick = w.tick + k + 1; slept = delays settings attempt k w.slept }
      pub retried : (j : ℕ) → j < k → is_retryable (outcome_at (w.tick + j)) ≡ true
      pub last : (is_retryable (outcome_at (w.tick + k)) ≡ false) ⊎ (attempt + k + 1 ≡ max_attempts)

    abbrev next_world : ℕ → World c → World c
    next_world attempt w = record w {
      tick = w.tick + 1;
      slept = retry_delay settings attempt ∷ w.slept;
    }

    retry_loop_lem :
        (max_attempts left attempt : ℕ) (w : World c)
        → is_safe_project_name project ≡ true
        → retry_loop settings env max_attempts (suc left) attempt project image reference accept w
          ≡ (if is_retryable (outcome_at w.tick) && ltb (attempt + 1) max_attempts
              then retry_loop settings env max_attempts left
                  (attempt + 1)
                  project
                  image
                  reference
                  accept
                  (next_world attempt w)
              else (some (outcome_at w.tick), record w { tick = w.tick + 1 }))
    unfolding retry_loop fetch_manifest
    retry_loop_lem max_attempts left attempt w safe = rw safe

    stop-IsRetried :
        (max_attempts left attempt : ℕ) (w : World c)
        → attempt < max_attempts
        → (is_retryable (outcome_at w.tick) && ltb (attempt + 1) max_attempts) ≡ false
        → IsRetried max_attempts attempt 0 w
            (some (outcome_at w.tick), record w { tick = w.tick + 1 })
    stop-IsRetried max_attempts left attempt w lt stop = record {
      in_bounds = omega arith;
      value = rw add-zero;
      world = rw add-zero;
      retried = λ j h. elim h [ ];
      last = rw add-zero (ground arith);
    }

    more-IsRetried :
        (max_attempts attempt k : ℕ) (w : World c) (result : Option (Outcome Response) × World c)
        → is_retryable (outcome_at w.tick) ≡ true
        → IsRetried max_attempts (attempt + 1) k (next_world attempt w) result
        → IsRetried max_attempts attempt (suc k) w result
    more-IsRetried max_attempts attempt k w result again r =
        let shift : w.tick + 1 + k ≡ w.tick + suc k = omega arith in
        record {
          in_bounds = omega (arith, r.in_bounds);
          value = rw shift at r.value;
          world = rw shift at r.world;
          retried = earlier;
          last = elim r.last [
            | inl fine ↦ inl (rw shift at fine)
            | inr out ↦ inr (omega (arith, out))
          ];
        }
      where
        earlier : (j : ℕ) → j < suc k → is_retryable (outcome_at (w.tick + j)) ≡ true
        earlier zero h = rw add-zero again
        earlier (suc j) h =
            let shift : w.tick + 1 + j ≡ w.tick + suc j = omega arith in
            rw shift at (r.retried j (omega arith))

    retry_loop-IsRetried :
        (max_attempts left attempt : ℕ) (w : World c)
        → is_safe_project_name project ≡ true
        → attempt + suc left ≡ max_attempts
        → (k : ℕ) × IsRetried max_attempts attempt k w (
            retry_loop settings env max_attempts
              (suc left)
              attempt
              project
              image
              reference
              accept
              w)
    retry_loop-IsRetried max_attempts zero attempt w safe e =
        rw (retry_loop_lem max_attempts zero attempt w safe) (
          let stop : (is_retryable (outcome_at w.tick) && ltb (attempt + 1) max_attempts) ≡ false =
            ground arith in
          rw stop (0, stop-IsRetried max_attempts 0 attempt w (omega arith) stop))
    retry_loop-IsRetried max_attempts (suc left) attempt w safe e =
        rw (retry_loop_lem max_attempts (suc left) attempt w safe)
          (elim (Bool-cases (is_retryable (outcome_at w.tick) && ltb (attempt + 1) max_attempts)) [
            | inr stop ↦ rw stop (0, stop-IsRetried max_attempts 0 attempt w (omega arith) stop)
            | inl again ↦
                let (k, r) =
                  retry_loop-IsRetried max_attempts left (attempt + 1) (next_world attempt w) safe
                    (omega arith) in
                rw again (suc k, more-IsRetried max_attempts attempt k w _ (ground arith) r)
          ])

    whole_loop-IsRetried :
        (max_attempts : ℕ) (w : World c)
        → is_safe_project_name project ≡ true
        → 0 < max_attempts
        → (k : ℕ) × IsRetried max_attempts 0 k w
            (retry_loop settings env max_attempts max_attempts 0 project image reference accept w)
    whole_loop-IsRetried zero w safe h = elim h [ ]
    whole_loop-IsRetried (suc n) w safe h = retry_loop-IsRetried (suc n) n 0 w safe (omega arith)

    -- For a safe project name the retries always give an outcome, never the `unreachable!`:
    -- that of the first attempt that is not worth a retry, or of the last one that is allowed
    -- (at least one is). Each attempt is one request; the delays that `retry_delay` gives are
    -- slept between them, and nothing else of the world changes.
    pub fetch_manifest_with_retry-IsRetried :
        (w : World c)
        → is_safe_project_name project ≡ true
        → (k : ℕ) × IsRetried
            (max settings.retry_max_attempts 1)
            0
            k
            w
            (fetch_manifest_with_retry settings env project image reference accept w)
    unfolding fetch_manifest_with_retry
    fetch_manifest_with_retry-IsRetried w safe =
        whole_loop-IsRetried (max settings.retry_max_attempts 1) w safe (omega arith)
