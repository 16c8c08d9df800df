-- ===== src/RetryExecutor/Attempts.antt =====
-- http/retryexecutor/retryexecutor.go: how often the handler is called, and what `Execute` returns.
use native.Mathlib.Nat.{zero-add, suc-add, add-suc}
use gofrog.Prelude.{
  ℕ, zero, suc, ◌+◌, ◌≡◌, refl, List, [], ◌∷◌, ◌++◌, Bool, true, if◌then◌else◌, Option, none, some,
  ℤ, arith, ◌∙◌,
}
use gofrog.RetryExecutor.{
  ContextError, Event, attempted, retry_logged, cancel_logged, timeout_logged, slept, RetryExecutor,
  log_retry, check_cancelled, pauses_after, execute_from,
}

-- How often the handler has been called, and how often the executor has slept.
module _ {E : Type 0} where
  abbrev pub attempts : List (Event E) → ℕ
  attempts [] = 0
  attempts (attempted ∷ events) = attempts events + 1
  attempts (_ ∷ events) = attempts events

  abbrev pub pauses : List (Event E) → ℕ
  pauses [] = 0
  pauses (slept _ ∷ events) = pauses events + 1
  pauses (_ ∷ events) = pauses events

  pub attempts-append : (xs ys : List (Event E)) → attempts (xs ++ ys) ≡ attempts xs + attempts ys
  attempts-append [] ys = omega arith
  attempts-append (attempted ∷ xs) ys = omega (arith, attempts-append xs ys)
  attempts-append (retry_logged l n m e ∷ xs) ys = attempts-append xs ys
  attempts-append (cancel_logged ∷ xs) ys = attempts-append xs ys
  attempts-append (timeout_logged m ∷ xs) ys = attempts-append xs ys
  attempts-append (slept t ∷ xs) ys = attempts-append xs ys

  pub pauses-append : (xs ys : List (Event E)) → pauses (xs ++ ys) ≡ pauses xs + pauses ys
  pauses-append [] ys = omega arith
  pauses-append (attempted ∷ xs) ys = pauses-append xs ys
  pauses-append (retry_logged l n m e ∷ xs) ys = pauses-append xs ys
  pauses-append (cancel_logged ∷ xs) ys = pauses-append xs ys
  pauses-append (timeout_logged m ∷ xs) ys = pauses-append xs ys
  pauses-append (slept t ∷ xs) ys = omega (arith, pauses-append xs ys)

module _ {W E : Type 0} (sleep : ℤ → W → W) (runner : RetryExecutor W E) (start : W) where
  open runner use {execution_handler, retries_interval_milli_secs}

  -- The world before the attempt i, if all earlier ones asked for another.
  unfoldable pub world_at : ℕ → W
  world_at zero = start
  world_at (suc i) =
      if pauses_after sleep runner i
      then sleep retries_interval_milli_secs (execution_handler (world_at i)).0
      else (execution_handler (world_at i)).0

  abbrev pub asks_again : ℕ → Bool
  asks_again i = (execution_handler (world_at i)).1

  abbrev pub error_at : ℕ → Option E
  error_at i = (execution_handler (world_at i)).2

  abbrev pub cancelled_at : ℕ → Option ContextError
  cancelled_at i = check_cancelled sleep runner (execution_handler (world_at i)).0

  -- The first k attempts ask for another, and the context is not cancelled after any of them.
  abbrev pub GoesOn : ℕ → Type 0
  GoesOn zero = Unit
  GoesOn (suc i) = GoesOn i × (asks_again i ≡ true) × (cancelled_at i ≡ none)

  unfoldable pub last_error : ℕ → Option E
  last_error zero = none
  last_error (suc i) = error_at i

  unfoldable pub pause_count : ℕ → ℕ
  pause_count zero = 0
  pause_count (suc i) = if pauses_after sleep runner i then pause_count i + 1 else pause_count i

  -- The loop after k rounds.
  abbrev pub Reaches : ℕ → ℕ → Type 0
  Reaches k rest =
      (events : List (Event E)) × (execute_from sleep runner (k + rest) 0 none start []
        ≡ execute_from sleep runner rest k (last_error k) (world_at k) events)
      × (attempts events ≡ k)
      × (pauses events ≡ pause_count k)

  log_retry-counts :
      (i : ℕ) (err : Option E)
      → (attempts (log_retry sleep runner i err ∷ []) ≡ 0)
        × (pauses (log_retry sleep runner i err ∷ []) ≡ 0)
  unfolding log_retry
  log_retry-counts i none = ground arith
  log_retry-counts i (some e) = ground arith

  step_events : ℕ → List (Event E) → List (Event E)
  step_events i events =
      let logged = (events ++ attempted ∷ []) ++ log_retry sleep runner i (error_at i) ∷ [] in
      if pauses_after sleep runner i
      then logged ++ slept retries_interval_milli_secs ∷ []
      else logged

  attempts-step_events :
      (i : ℕ) (events : List (Event E))
      → (attempts (step_events i events) ≡ attempts events + 1)
        × (pauses (step_events i events)
            ≡ (if pauses_after sleep runner i then pauses events + 1 else pauses events))
  unfolding step_events
  attempts-step_events i events = ground (
    arith,
    log_retry-counts i (error_at i),
    attempts-append events (attempted ∷ []),
    pauses-append events (attempted ∷ []),
    attempts-append (events ++ attempted ∷ []) (log_retry sleep runner i (error_at i) ∷ []),
    pauses-append (events ++ attempted ∷ []) (log_retry sleep runner i (error_at i) ∷ []),
    attempts-append ((events ++ attempted ∷ []) ++ log_retry sleep runner i (error_at i) ∷ [])
        (slept retries_interval_milli_secs ∷ []),
    pauses-append ((events ++ attempted ∷ []) ++ log_retry sleep runner i (error_at i) ∷ [])
        (slept retries_interval_milli_secs ∷ []),
  )

  step :
      (i rest : ℕ) (err : Option E) (events : List (Event E))
      → asks_again i ≡ true
      → cancelled_at i ≡ none
      → execute_from sleep runner (suc rest) i err (world_at i) events
        ≡ execute_from sleep runner rest
            (suc i)
            (error_at i)
            (world_at (suc i))
            (step_events i events)
  unfolding execute_from step_events world_at
  step i rest err events again free = ground arith

  pub reach : (k rest : ℕ) → GoesOn k → Reaches k rest
  unfolding last_error pause_count world_at
  reach zero rest h = ([], rw zero-add, refl, refl)
  reach (suc k) rest h =
      let (events, reached, tried, paused) = reach k (suc rest) h.0 in
      let counts = attempts-step_events k events in
      (
        step_events k events,
        rw (suc-add, ← add-suc) (reached ∙ step k rest (last_error k) events h.1 h.2),
        omega (arith, counts.0, tried),
        ground (arith, counts.1, paused),
      )
