-- ===== src/Parallel/Runner/Cancelled.antt =====
-- parallel/runner.go: after `Cancel` no further task is admitted.
use gofrog.Prelude.{
  ◌+◌, ℕ, zero, suc, ◌-◌, ◌≡◌, refl, List, [], ◌∷◌, true, Option, none, some, weigh, weigh-put_at,
  weigh-append, arith, if◌then◌else◌, ltb_ℤ, pos, pos_part,
}
use gofrog.Parallel.Runner.{
  Notifying, entered, tested, filled, flagged, returned, cancel_notify, cancel_end, timer_notify,
  Task, Adding, numbered, admitted, counted, sent, rejected, receiving, Runner, increment,
  decrement, notify_finished, done, cancel_begin, cancel_test, cancel_receive, add_begin, add_check,
  add_count, add_send, add_threads, add_thread, run, idle_timeout, set_max_parallel,
  set_finished_notification, reset_finish_notification_if_active,
}
use gofrog.Parallel.Runner.Threads.{
  thread_open, thread_take, thread_activate, thread_start, thread_release, thread_settle,
  thread_call, thread_unlock, thread_notify, thread_error, thread_leave, thread_check,
}
use gofrog.Parallel.Runner.Steps.{
  cancel_notifies, cancel_ends, timer_notifies, thread_calls, unlocks, Step, begins, checks_cancel,
  counts, sends, runs, times_out, sets_max, enables, resets, closes, cancels, tests_queue, drains,
  opens, takes, activates, starts, releases, settles, notifies, records, leaves, checks, Reach,
  here, next,
}

-- A call of `addTask` that has passed its test of `cancel`, or will return the number of its task.
abbrev pub is_admitted : Adding → ℕ
is_admitted (admitted _) = 1
is_admitted (counted _) = 1
is_admitted (sent _) = 1
is_admitted _ = 0

module _ {E : Type 0} (k : ℕ) where
  -- The runner is cancelled, and k tasks have been admitted.
  pub record IsStopped (r : Runner E) : Type 0 where
    pub is_cancelled : r.cancel ≡ true
    pub admissions : weigh is_admitted r.adding ≡ k

  add_threads-IsStopped : (n : ℕ) (r : Runner E) → IsStopped r → IsStopped (add_threads n r)
  unfolding add_threads
  add_threads-IsStopped zero r v = v
  add_threads-IsStopped (suc n) r v = add_threads-IsStopped n (add_thread r) (ground arith)

  notify_finished-IsStopped :
      (p : Notifying) (r : Runner E) (q : Notifying × Runner E)
      → notify_finished p r ≡ some q
      → IsStopped r
      → IsStopped q.1
  unfolding notify_finished
  notify_finished-IsStopped entered r q e v = ground arith
  notify_finished-IsStopped tested r q e v = ground arith
  notify_finished-IsStopped filled r q e v = ground arith
  notify_finished-IsStopped flagged r q e v = ground arith
  notify_finished-IsStopped returned r q e v = ground arith

  cancel_receive-IsStopped :
      (r s : Runner E) (l : List Task)
      → r.tasks ≡ l
      → r.cancel_once ≡ receiving
      → cancel_receive r ≡ some s
      → IsStopped r
      → IsStopped s
  unfolding cancel_receive
  cancel_receive-IsStopped r s [] q at e v = ground arith
  cancel_receive-IsStopped r s (t ∷ l) q at e v = ground arith

  thread_take-IsStopped :
      (i : ℕ) (r s : Runner E) (l : List Task)
      → r.tasks ≡ l
      → thread_take i r ≡ some s
      → IsStopped r
      → IsStopped s
  unfolding thread_take
  thread_take-IsStopped i r s [] q e v = ground arith
  thread_take-IsStopped i r s (t ∷ l) q e v = ground arith

  thread_error-IsStopped :
      (i : ℕ) (t : Task) (e : Option E) (r : Runner E)
      → IsStopped r
      → IsStopped (thread_error i t e r)
  unfolding thread_error cancel_begin
  thread_error-IsStopped i t none r v = ground arith
  thread_error-IsStopped i t (some e) r v = ground arith

  Step-IsStopped : {r s : Runner E} → Step r s → IsStopped r → IsStopped s
  unfolding add_begin add_check add_count add_send cancel_test cancel_receive idle_timeout run
      set_max_parallel set_finished_notification reset_finish_notification_if_active thread_open
      thread_take thread_activate thread_start thread_release thread_settle thread_notify
      thread_leave thread_check thread_call thread_unlock cancel_notify cancel_end timer_notify done
      cancel_begin
  Step-IsStopped {r} (begins b) v = ground (
    arith,
    weigh-append is_admitted r.adding
        (numbered (record { num = decrement (increment r.task_id); has_on_error = b }) ∷ []),
  )
  Step-IsStopped {r} (checks_cancel j t at) v =
      ground (arith, weigh-put_at is_admitted r.adding j (numbered t) rejected at)
  Step-IsStopped {r} (counts j t at) v =
      ground (arith, weigh-put_at is_admitted r.adding j (admitted t) (counted t) at)
  Step-IsStopped {r} (sends j t at e) v =
      ground (arith, weigh-put_at is_admitted r.adding j (counted t) (sent t) at)
  Step-IsStopped {r} runs v = ground (
    arith,
    add_threads-IsStopped r.max_parallel
        (record r { timers = if r.finished_notification_enabled then r.timers + 1 else r.timers }),
  )
  Step-IsStopped {r} (times_out _) v = ground arith
  Step-IsStopped {r} (sets_max n) v = ground (
    arith,
    add_threads-IsStopped ((if ltb_ℤ n (pos 1) then 1 else pos_part n) - r.max_parallel) r v,
  )
  Step-IsStopped {r} (enables on) v = ground arith
  Step-IsStopped {r} (resets free) v = ground arith
  Step-IsStopped {r} closes v = ground arith
  Step-IsStopped {r} (cancels force) v = ground arith
  Step-IsStopped {r} (tests_queue at) v = ground arith
  Step-IsStopped {r} (cancel_notifies p {q} at e) v =
      ground (arith, notify_finished-IsStopped p r q e v)
  Step-IsStopped {r} (cancel_ends at) v = ground arith
  Step-IsStopped {r} (timer_notifies j p {q} at e) v =
      ground (arith, notify_finished-IsStopped p r q e v)
  Step-IsStopped {r} (drains {s} at e) v = cancel_receive-IsStopped r s r.tasks refl at e v
  Step-IsStopped {r} (opens i at) v = ground arith
  Step-IsStopped {r} (takes i {s} at e) v = thread_take-IsStopped i r s r.tasks refl e v
  Step-IsStopped {r} (activates i t at) v = ground arith
  Step-IsStopped {r} (starts i t at) v = ground arith
  Step-IsStopped {r} (releases i t e at) v = ground arith
  Step-IsStopped {r} (settles i t e at) v = ground arith
  Step-IsStopped {r} (notifies i t e at _) v = ground arith
  Step-IsStopped {r} (thread_calls p {q} at e) v =
      ground (arith, notify_finished-IsStopped p r q e v)
  Step-IsStopped {r} (unlocks i t e at h) v = ground arith
  Step-IsStopped {r} (records i t e at) v = thread_error-IsStopped i t e r v
  Step-IsStopped {r} (leaves i at f) v = ground arith
  Step-IsStopped {r} (checks i at) v = ground arith

  Reach-IsStopped : {r s : Runner E} → Reach r s → IsStopped r → IsStopped s
  Reach-IsStopped here v = v
  Reach-IsStopped (next p q) v = Step-IsStopped q (Reach-IsStopped p v)

module _ {E : Type 0} where
  -- From a cancelled state only cancelled states are reached, and the number of tasks admitted stays
  -- what it is: every call of `addTask` that tests `cancel` from then on is rejected.
  pub Reach-cancel-is_admitted :
      {r s : Runner E}
      → r.cancel ≡ true
      → Reach r s
      → s.cancel ≡ true × weigh is_admitted s.adding ≡ weigh is_admitted r.adding
  Reach-cancel-is_admitted {r} c p =
      let v =
        Reach-IsStopped (weigh is_admitted r.adding) p
          (record { is_cancelled = c; admissions = refl }) in
      (v.is_cancelled, v.admissions)
