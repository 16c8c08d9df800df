-- ===== src/RetryExecutor.antt =====
-- http/retryexecutor/retryexecutor.go: an operation that is tried again until it is satisfied. The world W
-- is what the handler, the context and the sleeping change; log lines and error texts are kept as
-- the data that they are formatted from.
mod Attempts
mod Returns
mod Tests
use gofrog.Prelude.{
  ℕ, zero, suc, ◌+◌, List, [], ◌∷◌, ◌++◌, Bool, true, false, not, ◌&&◌, ◌||◌, if◌then◌else◌, Option,
  none, some, ℤ, pos, negsuc, pos_part, ltb_ℤ, Bytes, same_bytes,
}

-- The errors of a `context.Context`.
pub data ContextError : Type 0 where
  canceled deadline_exceeded : ContextError

-- What `getTimeoutErrorMsg` formats.
pub record TimeoutMessage : Type 0 where
  pub prefix : Bytes
  pub max_retries : ℤ
  pub interval : ℤ

pub data GoError (E : Type 0) : Type 0 where
  handler_error : E → GoError E
  context_error : ContextError → GoError E
  timeout_error : TimeoutMessage → GoError E

pub data Level : Type 0 where
  debug info warn : Level

-- What happens while the executor runs. A line of `LogRetry` carries the number of the attempt, the
-- error message of the executor and the error of the handler.
pub data Event (E : Type 0) : Type 0 where
  attempted : Event E
  retry_logged : Level → ℤ → Bytes → Option E → Event E
  cancel_logged : Event E
  timeout_logged : TimeoutMessage → Event E
  slept : ℤ → Event E

pub record RetryExecutor (W E : Type 0) : Type 0 where
  pub context : Option (W → Option ContextError)
  pub max_retries : ℤ
  pub retries_interval_milli_secs : ℤ
  pub error_message : Bytes
  pub log_msg_prefix : Bytes
  pub execution_handler : W → W × Bool × Option E

-- The returned error, the world and the events.
pub record Outcome (W E : Type 0) : Type 0 where
  pub result : Option (GoError E)
  pub world : W
  pub events : List (Event E)

-- `sleep` is what happens to the world while `time.Sleep` waits for some milliseconds.
module _ {W E : Type 0} (sleep : ℤ → W → W) (runner : RetryExecutor W E) where
  unfoldable pub get_timeout_error_msg : TimeoutMessage
  get_timeout_error_msg = record {
    prefix = runner.log_msg_prefix;
    max_retries = runner.max_retries;
    interval = runner.retries_interval_milli_secs;
  }

  unfoldable pub log_retry : ℕ → Option E → Event E
  unfolding same_bytes
  log_retry attempt_number err = elim err [
    | some e ↦ retry_logged warn (pos (attempt_number + 1)) runner.error_message (some e)
    | none ↦
        if not (same_bytes runner.error_message [])
        then retry_logged warn (pos (attempt_number + 1)) runner.error_message none
        else retry_logged debug (pos (attempt_number + 1)) runner.error_message none
  ]

  -- Only a cancelled context stops the executor; one past its deadline does not.
  unfoldable pub check_cancelled : W → Option ContextError
  check_cancelled w = elim runner.context [
    | none ↦ none
    | some context ↦ elim (context w) [
      | none ↦ none
      | some canceled ↦ some canceled
      | some deadline_exceeded ↦ none
    ]
  ]

  -- What follows the loop.
  unfoldable pub give_up : Option E → W → List (Event E) → Outcome W E
  unfolding get_timeout_error_msg
  give_up err w events = elim err [
    | some e ↦ record {
      result = some (handler_error e);
      world = w;
      events = events ++ timeout_logged get_timeout_error_msg ∷ [];
    }
    | none ↦ record {
      result = some (timeout_error get_timeout_error_msg);
      world = w;
      events = events;
    }
  ]

  unfoldable pub pauses_after : ℕ → Bool
  pauses_after i =
      ltb_ℤ (pos 0) runner.retries_interval_milli_secs && ltb_ℤ (pos i) runner.max_retries

  handler_result : Option E → Option (GoError E)
  handler_result none = none
  handler_result (some e) = some (handler_error e)

  -- The loop of `Execute`, over the rounds that are left; `i` is its counter and `err` the variable.
  unfoldable pub execute_from : ℕ → ℕ → Option E → W → List (Event E) → Outcome W E
  unfolding handler_result
  execute_from zero i err w events = give_up err w events
  execute_from (suc rounds) i err w events =
      let (w', should_retry, err') = runner.execution_handler w in
      let events' = events ++ attempted ∷ [] in
      let logged = events' ++ log_retry i err' ∷ [] in
      let paused =
        execute_from rounds (suc i) err' (sleep runner.retries_interval_milli_secs w')
          (logged ++ slept runner.retries_interval_milli_secs ∷ []) in
      let onward = execute_from rounds (suc i) err' w' logged in
      if not should_retry
      then record { result = handler_result err'; world = w'; events = events' }
      else elim (check_cancelled w') [
        | some cancelled_err ↦ record {
          result = some (context_error cancelled_err);
          world = w';
          events = events' ++ cancel_logged ∷ [];
        }
        | none ↦ if pauses_after i then paused else onward
      ]

  -- `for i := 0; i <= MaxRetries; i++`.
  unfoldable pub rounds : ℕ
  rounds = if ltb_ℤ runner.max_retries (pos 0) then 0 else pos_part runner.max_retries + 1

  unfoldable pub execute : W → Outcome W E
  execute w = execute_from rounds 0 none w []
