-- ===== src/RetryExecutor/Tests.antt =====
-- Runs of http/retryexecutor/retryexecutor.go, and its theorems at concrete inputs.
use gofrog.Prelude.{
  ℕ, suc, ◌≡◌, refl, [], true, not, if◌then◌else◌, ◌==◌, leb, ltb_ℤ, none, some, ℤ, pos, negsuc,
  codes, arith,
}
use gofrog.RetryExecutor.{
  canceled, handler_error, timeout_error, RetryExecutor, check_cancelled, get_timeout_error_msg,
  log_retry, give_up, pauses_after, execute_from, rounds, execute,
}
use gofrog.RetryExecutor.Attempts.{attempts, pauses, world_at}
use gofrog.RetryExecutor.Returns.{execute_stops, execute_exhausted}

-- The world counts the calls of the handler, which is satisfied by the third one.
abbrev counting : RetryExecutor ℕ ℕ
counting = record {
  context = some (λ calls. if leb 5 calls then some canceled else none);
  max_retries = pos 4;
  retries_interval_milli_secs = pos 100;
  error_message = [];
  log_msg_prefix = codes "[app]";
  execution_handler = λ calls. (suc calls, not (calls == 2), some calls);
}

-- The same, but never satisfied.
abbrev hopeless : RetryExecutor ℕ ℕ
hopeless = record counting {
  context = none;
  max_retries = pos 2;
  execution_handler = λ calls. (suc calls, true, none);
}

abbrev idle : ℤ → ℕ → ℕ
idle _ calls = calls

abbrev program : Unit {0}
unfolding check_cancelled get_timeout_error_msg log_retry give_up pauses_after execute_from rounds
    execute world_at
program = tt

third_time : (execute idle counting 0).result ≡ some (handler_error 2)
unfolding program
third_time = refl

execute_stops_example :
    ((execute idle counting 0).result ≡ some (handler_error 2))
    × (attempts (execute idle counting 0).events ≡ 3)
    × (pauses (execute idle counting 0).events ≡ (if ltb_ℤ (pos 0) (pos 100) then 2 else 0))
unfolding program
execute_stops_example =
    execute_stops idle counting 0 2 4 refl (omega arith) ((tt, refl, refl), refl, refl) refl

execute_exhausted_example :
    ((execute idle hopeless 0).result
      ≡ some (
          timeout_error
            (record { prefix = codes "[app]"; max_retries = pos 2; interval = pos 100 })))
    × (attempts (execute idle hopeless 0).events ≡ 3)
    × (pauses (execute idle hopeless 0).events ≡ (if ltb_ℤ (pos 0) (pos 100) then 2 else 0))
unfolding program
execute_exhausted_example =
    execute_exhausted idle hopeless 0 2 refl (((tt, refl, refl), refl, refl), refl, refl)

abbrev never : RetryExecutor ℕ ℕ
never = record hopeless { max_retries = negsuc 0 }
