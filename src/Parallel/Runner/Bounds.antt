-- ===== src/Parallel/Runner/Bounds.antt =====
-- parallel/runner.go: the bounds of a runner that every step keeps.
use gofrog.Prelude.{
  ◌+◌, ℕ, zero, suc, ◌-◌, ◌≤◌, ◌≡◌, refl, List, [], ◌∷◌, Bool, Option, none, some, ℤ, length,
  length-append, arith, if◌then◌else◌, ltb_ℤ, pos, pos_part,
}
use gofrog.Parallel.Runner.{
  Notifying, entered, tested, filled, flagged, returned, cancel_notify, cancel_end, timer_notify,
  Task, receiving, Runner, new_runner, notify_finished, done, cancel_begin, cancel_test,
  cancel_receive, add_begin, add_check, add_count, add_send, add_threads, add_thread, run,
  idle_timeout, set_max_parallel, set_finished_notification, reset_finish_notification_if_active,
}
use gofrog.Parallel.Runner.Threads.{
  thread_open, thread_take, thread_activate, thread_start, thread_release, thread_settle,
  thread_call, thread_unlock, thread_notify, thread_error, thread_leave, thread_check,
}
use gofrog.Parallel.Runner.Steps.{
  cancel_notifies, cancel_ends, timer_notifies, thread_calls, unlocks, Step, begins, checks_cancel,
  counts, sends, runs, times_out, sets_max, enables, resets, closes, cancels, tests_queue, drains,
  opens, takes, activates, starts, releases, settles, notifies, records, leaves, checks, Reach,
  here, next,
}

module _ {E : Type 0} where
  pub record IsBounded (r : Runner E) : Type 0 where
    pub within_capacity : length r.tasks ≤ r.capacity
    pub max_positive : 1 ≤ r.max_parallel

  add_threads-IsBounded : (n : ℕ) (r : Runner E) → IsBounded r → IsBounded (add_threads n r)
  unfolding add_threads
  add_threads-IsBounded zero r v = v
  add_threads-IsBounded (suc n) r v = add_threads-IsBounded n (add_thread r) (ground arith)

  notify_finished-IsBounded :
      (p : Notifying) (r : Runner E) (q : Notifying × Runner E)
      → notify_finished p r ≡ some q
      → IsBounded r
      → IsBounded q.1
  unfolding notify_finished
  notify_finished-IsBounded entered r q e v = ground arith
  notify_finished-IsBounded tested r q e v = ground arith
  notify_finished-IsBounded filled r q e v = ground arith
  notify_finished-IsBounded flagged r q e v = ground arith
  notify_finished-IsBounded returned r q e v = ground arith

  cancel_receive-IsBounded :
      (r s : Runner E) (l : List Task)
      → r.tasks ≡ l
      → r.cancel_once ≡ receiving
      → cancel_receive r ≡ some s
      → IsBounded r
      → IsBounded s
  unfolding cancel_receive
  cancel_receive-IsBounded r s [] q at e v = ground arith
  cancel_receive-IsBounded r s (t ∷ l) q at e v = ground arith

  thread_take-IsBounded :
      (i : ℕ) (r s : Runner E) (l : List Task)
      → r.tasks ≡ l
      → thread_take i r ≡ some s
      → IsBounded r
      → IsBounded s
  unfolding thread_take
  thread_take-IsBounded i r s [] q e v = ground arith
  thread_take-IsBounded i r s (t ∷ l) q e v = ground arith

  thread_error-IsBounded :
      (i : ℕ) (t : Task) (e : Option E) (r : Runner E)
      → IsBounded r
      → IsBounded (thread_error i t e r)
  unfolding thread_error cancel_begin
  thread_error-IsBounded i t none r v = ground arith
  thread_error-IsBounded i t (some e) r v = ground arith

  Step-IsBounded : {r s : Runner E} → Step r s → IsBounded r → IsBounded s
  unfolding add_begin add_check add_count add_send cancel_test cancel_receive idle_timeout run
      set_max_parallel set_finished_notification reset_finish_notification_if_active thread_open
      thread_take thread_activate thread_start thread_release thread_settle thread_notify
      thread_leave thread_check thread_call thread_unlock cancel_notify cancel_end timer_notify done
      cancel_begin
  Step-IsBounded {r} (begins b) v = ground arith
  Step-IsBounded {r} (checks_cancel j t at) v = ground arith
  Step-IsBounded {r} (counts j t at) v = ground arith
  Step-IsBounded {r} (sends j t at e) v = ground (arith, length-append r.tasks (t ∷ []))
  Step-IsBounded {r} runs v = ground (
    arith,
    add_threads-IsBounded r.max_parallel
        (record r { timers = if r.finished_notification_enabled then r.timers + 1 else r.timers }),
  )
  Step-IsBounded {r} (times_out _) v = ground arith
  Step-IsBounded {r} (sets_max n) v = ground (
    arith,
    add_threads-IsBounded ((if ltb_ℤ n (pos 1) then 1 else pos_part n) - r.max_parallel) r v,
  )
  Step-IsBounded {r} (enables on) v = ground arith
  Step-IsBounded {r} (resets free) v = ground arith
  Step-IsBounded {r} closes v = ground arith
  Step-IsBounded {r} (cancels force) v = ground arith
  Step-IsBounded {r} (tests_queue at) v = ground arith
  Step-IsBounded {r} (cancel_notifies p {q} at e) v =
      ground (arith, notify_finished-IsBounded p r q e v)
  Step-IsBounded {r} (cancel_ends at) v = ground arith
  Step-IsBounded {r} (timer_notifies j p {q} at e) v =
      ground (arith, notify_finished-IsBounded p r q e v)
  Step-IsBounded {r} (drains {s} at e) v = cancel_receive-IsBounded r s r.tasks refl at e v
  Step-IsBounded {r} (opens i at) v = ground arith
  Step-IsBounded {r} (takes i {s} at e) v = thread_take-IsBounded i r s r.tasks refl e v
  Step-IsBounded {r} (activates i t at) v = ground arith
  Step-IsBounded {r} (starts i t at) v = ground arith
  Step-IsBounded {r} (releases i t e at) v = ground arith
  Step-IsBounded {r} (settles i t e at) v = ground arith
  Step-IsBounded {r} (notifies i t e at _) v = ground arith
  Step-IsBounded {r} (thread_calls p {q} at e) v =
      ground (arith, notify_finished-IsBounded p r q e v)
  Step-IsBounded {r} (unlocks i t e at h) v = ground arith
  Step-IsBounded {r} (records i t e at) v = thread_error-IsBounded i t e r v
  Step-IsBounded {r} (leaves i at f) v = ground arith
  Step-IsBounded {r} (checks i at) v = ground arith

  Reach-IsBounded : {r s : Runner E} → Reach r s → IsBounded r → IsBounded s
  Reach-IsBounded here v = v
  Reach-IsBounded (next p q) v = Step-IsBounded q (Reach-IsBounded p v)

  new_runner-IsBounded :
      (max_parallel : ℤ) (capacity : ℕ) (fail_fast : Bool)
      → IsBounded (new_runner max_parallel capacity fail_fast)
  unfolding new_runner
  new_runner-IsBounded max_parallel capacity fail_fast = ground arith

  -- In every state that a new runner reaches, the queue is within its capacity, and the maximum number
  -- of threads is at least 1, whatever `NewRunner` and `SetMaxParallel` were given.
  pub Reach-capacity-max_parallel :
      (max_parallel : ℤ) (capacity : ℕ) (fail_fast : Bool) {s : Runner E}
      → Reach (new_runner max_parallel capacity fail_fast) s
      → length s.tasks ≤ s.capacity × 1 ≤ s.max_parallel
  Reach-capacity-max_parallel max_parallel capacity fail_fast p =
      let v = Reach-IsBounded p (new_runner-IsBounded max_parallel capacity fail_fast) in
      (v.within_capacity, v.max_positive)
