-- ===== src/RetryExecutor/Returns.antt =====
-- http/retryexecutor/retryexecutor.go: what `Execute` returns, after how many attempts and pauses.
use native.Mathlib.Numerals.{add-one}
use gofrog.Prelude.{
  ℕ, zero, suc, ◌+◌, ◌-◌, ◌≤◌, ◌≡◌, List, [], ◌∷◌, ◌++◌, true, false, if◌then◌else◌, none, some, ℤ,
  pos, negsuc, ltb_ℤ, arith,
}
use gofrog.RetryExecutor.{
  ContextError, handler_error, context_error, timeout_error, Event, attempted, cancel_logged,
  timeout_logged, RetryExecutor, get_timeout_error_msg, give_up, pauses_after, execute_from, rounds,
  execute,
}
use gofrog.RetryExecutor.Attempts.{
  attempts, pauses, attempts-append, pauses-append, world_at, asks_again, error_at, cancelled_at,
  GoesOn, last_error, pause_count, reach,
}

module _ {W E : Type 0} (sleep : ℤ → W → W) (runner : RetryExecutor W E) (start : W) where
  open runner use {retries_interval_milli_secs}

  -- With an interval the executor sleeps after each attempt but the last possible one.
  pause_count_closed :
      (k m : ℕ)
      → runner.max_retries ≡ pos m
      → k ≤ m
      → pause_count sleep runner start k
        ≡ (if ltb_ℤ (pos 0) retries_interval_milli_secs then k else 0)
  unfolding pause_count pauses_after
  pause_count_closed zero m e h = ground arith
  pause_count_closed (suc k) m e h = ground (arith, pause_count_closed k m e (omega arith))

  rounds_lem : (m : ℕ) → runner.max_retries ≡ pos m → rounds sleep runner ≡ m + 1
  unfolding rounds
  rounds_lem m e = ground arith

  -- The run, cut after k rounds that all ask for another attempt.
  execute-reach :
      (k m : ℕ)
      → runner.max_retries ≡ pos m
      → k ≤ m
      → GoesOn sleep runner start k
      → (events : List (Event E)) × (execute sleep runner start
          ≡ execute_from sleep runner
              (suc (m - k))
              k
              (last_error sleep runner start k)
              (world_at sleep runner start k)
              events)
        × (attempts events ≡ k)
        × (pauses events ≡ pause_count sleep runner start k)
  unfolding execute
  execute-reach k m e h on =
      let (events, reached, tried, paused) = reach sleep runner start k (suc (m - k)) on in
      let all : rounds sleep runner ≡ k + suc (m - k) = omega (arith, rounds_lem m e) in
      (events, rw all reached, tried, paused)

  -- If the first attempt that wants no other one is the attempt k, counted from 0 and allowed by
  -- `MaxRetries`, and the context is not cancelled before, then `Execute` returns what the handler
  -- returned there, nil or an error, after k + 1 attempts and, given an interval, k pauses.
  pub execute_stops :
      (k m : ℕ)
      → runner.max_retries ≡ pos m
      → k ≤ m
      → GoesOn sleep runner start k
      → asks_again sleep runner start k ≡ false
      → ((execute sleep runner start).result
          ≡ elim (error_at sleep runner start k) [ none ↦ none | some e ↦ some (handler_error e) ])
        × (attempts (execute sleep runner start).events ≡ k + 1)
        × (pauses (execute sleep runner start).events
            ≡ (if ltb_ℤ (pos 0) retries_interval_milli_secs then k else 0))
  unfolding execute_from
  execute_stops k m e h on stop =
      let (events, reached, tried, paused) = execute-reach k m e h on in
      rw reached (
        ground arith,
        ground (arith, attempts-append events (attempted ∷ []), tried),
        ground (arith, pauses-append events (attempted ∷ []), paused, pause_count_closed k m e h),
      )

  -- If the context is found cancelled for the first time after the attempt k, which asked for
  -- another, then `Execute` returns the context's error after k + 1 attempts.
  pub execute_cancelled :
      (k m : ℕ) (err : ContextError)
      → runner.max_retries ≡ pos m
      → k ≤ m
      → GoesOn sleep runner start k
      → asks_again sleep runner start k ≡ true
      → cancelled_at sleep runner start k ≡ some err
      → ((execute sleep runner start).result ≡ some (context_error err))
        × (attempts (execute sleep runner start).events ≡ k + 1)
  unfolding execute_from
  execute_cancelled k m err e h on again cancelled =
      let (events, reached, tried, paused) = execute-reach k m e h on in
      rw reached (
        ground arith,
        ground (
          arith,
          attempts-append (events ++ attempted ∷ []) (cancel_logged ∷ []),
          attempts-append events (attempted ∷ []),
          tried,
        ),
      )

  -- If all attempts that `MaxRetries` allows ask for another and the context is never cancelled, then
  -- `Execute` makes `MaxRetries` + 1 attempts and returns the error of the last one or, if that is
  -- nil, a timeout error that speaks of `MaxRetries` attempts; given an interval it pauses
  -- `MaxRetries` times.
  pub execute_exhausted :
      (m : ℕ)
      → runner.max_retries ≡ pos m
      → GoesOn sleep runner start (m + 1)
      → ((execute sleep runner start).result ≡ elim (error_at sleep runner start m) [
        | none ↦ some (
            timeout_error (record {
              prefix = runner.log_msg_prefix;
              max_retries = pos m;
              interval = retries_interval_milli_secs;
            }))
        | some e ↦ some (handler_error e)
      ])
        × (attempts (execute sleep runner start).events ≡ m + 1)
        × (pauses (execute sleep runner start).events
            ≡ (if ltb_ℤ (pos 0) retries_interval_milli_secs then m else 0))
  unfolding execute execute_from give_up get_timeout_error_msg last_error pause_count pauses_after
  execute_exhausted m e on =
      let on' : GoesOn sleep runner start (suc m) = rw add-one at on in
      let (events, reached, tried, paused) = reach sleep runner start (suc m) 0 on' in
      let all : rounds sleep runner ≡ suc m + 0 = omega (arith, rounds_lem m e) in
      let said : List (Event E) = timeout_logged (get_timeout_error_msg sleep runner) ∷ [] in
      rw (all, reached)
        (
          ground arith,
          ground (arith, attempts-append events said, tried),
          ground (arith, pauses-append events said, paused, pause_count_closed m m e (omega arith)),
        )

  -- With a negative `MaxRetries` the handler is never called and `Execute` returns a timeout error.
  pub execute_never :
      (n : ℕ)
      → runner.max_retries ≡ negsuc n
      → ((execute sleep runner start).result
          ≡ some (timeout_error (get_timeout_error_msg sleep runner)))
        × ((execute sleep runner start).events ≡ [])
        × ((execute sleep runner start).world ≡ start)
  unfolding execute rounds execute_from give_up
  execute_never n e = ground arith
