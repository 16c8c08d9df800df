-- ===== src/Parallel/Runner/Stuck.antt =====
-- parallel/runner.go: the receive in `Cancel` from a queue that the threads have emptied.
use gofrog.Prelude.{
  ◌+◌, ℕ, zero, suc, ◌-◌, ◌≡◌, refl, List, [], ◌∷◌, true, false, Option, none, some, weigh,
  weigh-put_at, weigh-append, arith, if◌then◌else◌, ltb_ℤ, pos, pos_part,
}
use gofrog.Parallel.Runner.{
  Notifying, entered, tested, filled, flagged, returned, cancel_notify, cancel_end, timer_notify,
  Task, Adding, numbered, admitted, counted, sent, rejected, receiving, Runner, increment,
  decrement, notify_finished, done, cancel_begin, cancel_test, cancel_receive, add_begin, add_check,
  add_count, add_send, add_threads, add_thread, run, idle_timeout, set_max_parallel,
  set_finished_notification, reset_finish_notification_if_active,
}
use gofrog.Parallel.Runner.Threads.{
  thread_open, thread_take, thread_activate, thread_start, thread_release, thread_settle,
  thread_call, thread_unlock, thread_notify, thread_error, thread_leave, thread_check,
}
use gofrog.Parallel.Runner.Steps.{
  cancel_notifies, cancel_ends, timer_notifies, thread_calls, unlocks, Step, begins, checks_cancel,
  counts, sends, runs, times_out, sets_max, enables, resets, closes, cancels, tests_queue, drains,
  opens, takes, activates, starts, releases, settles, notifies, records, leaves, checks, Reach,
  here, next,
}

-- A call of `addTask` that will still send its task.
abbrev pub is_in_flight : Adding → ℕ
is_in_flight (admitted _) = 1
is_in_flight (counted _) = 1
is_in_flight _ = 0

module _ {E : Type 0} where
  -- Unless the queue is closed, `Cancel` waits for a task that nobody will send.
  pub record IsStuck (r : Runner E) : Type 0 where
    pub cancels_on : r.tasks_closed ≡ false → r.cancel ≡ true
    pub waits : r.tasks_closed ≡ false → r.cancel_once ≡ receiving
    pub is_empty : r.tasks_closed ≡ false → r.tasks ≡ []
    pub no_sender : r.tasks_closed ≡ false → weigh is_in_flight r.adding ≡ 0

  add_threads-IsStuck : (n : ℕ) (r : Runner E) → IsStuck r → IsStuck (add_threads n r)
  unfolding add_threads
  add_threads-IsStuck zero r v = v
  add_threads-IsStuck (suc n) r v = add_threads-IsStuck n (add_thread r) (ground arith)

  notify_finished-IsStuck :
      (p : Notifying) (r : Runner E) (q : Notifying × Runner E)
      → notify_finished p r ≡ some q
      → IsStuck r
      → IsStuck q.1
  unfolding notify_finished
  notify_finished-IsStuck entered r q e v = ground arith
  notify_finished-IsStuck tested r q e v = ground arith
  notify_finished-IsStuck filled r q e v = ground arith
  notify_finished-IsStuck flagged r q e v = ground arith
  notify_finished-IsStuck returned r q e v = ground arith

  notify_finished_keeps :
      (p : Notifying) (r : Runner E) (q : Notifying × Runner E)
      → notify_finished p r ≡ some q
      → q.1.tasks_closed ≡ r.tasks_closed
  unfolding notify_finished
  notify_finished_keeps entered r q e = ground arith
  notify_finished_keeps tested r q e = ground arith
  notify_finished_keeps filled r q e = ground arith
  notify_finished_keeps flagged r q e = ground arith
  notify_finished_keeps returned r q e = ground arith

  cancel_receive-IsStuck :
      (r s : Runner E) (l : List Task)
      → r.tasks ≡ l
      → r.cancel_once ≡ receiving
      → cancel_receive r ≡ some s
      → IsStuck r
      → IsStuck s
  unfolding cancel_receive
  cancel_receive-IsStuck r s [] q at e v = ground arith
  cancel_receive-IsStuck r s (t ∷ l) q at e v = ground arith

  thread_take-IsStuck :
      (i : ℕ) (r s : Runner E) (l : List Task)
      → r.tasks ≡ l
      → thread_take i r ≡ some s
      → IsStuck r
      → IsStuck s
  unfolding thread_take
  thread_take-IsStuck i r s [] q e v = ground arith
  thread_take-IsStuck i r s (t ∷ l) q e v = ground arith

  thread_error-IsStuck :
      (i : ℕ) (t : Task) (e : Option E) (r : Runner E) → IsStuck r → IsStuck (thread_error i t e r)
  unfolding thread_error cancel_begin
  thread_error-IsStuck i t none r v = ground arith
  thread_error-IsStuck i t (some e) r v = ground arith

  Step-IsStuck : {r s : Runner E} → Step r s → IsStuck r → IsStuck s
  unfolding add_begin add_check add_count add_send cancel_test cancel_receive idle_timeout run
      set_max_parallel set_finished_notification reset_finish_notification_if_active thread_open
      thread_take thread_activate thread_start thread_release thread_settle thread_notify
      thread_leave thread_check thread_call thread_unlock cancel_notify cancel_end timer_notify done
      cancel_begin
  Step-IsStuck {r} (begins b) v = ground (
    arith,
    weigh-append is_in_flight r.adding
        (numbered (record { num = decrement (increment r.task_id); has_on_error = b }) ∷ []),
  )
  Step-IsStuck {r} (checks_cancel j t at) v =
      ground (arith, weigh-put_at is_in_flight r.adding j (numbered t) rejected at)
  Step-IsStuck {r} (counts j t at) v =
      ground (arith, weigh-put_at is_in_flight r.adding j (admitted t) (counted t) at)
  Step-IsStuck {r} (sends j t at e) v =
      ground (arith, weigh-put_at is_in_flight r.adding j (counted t) (sent t) at)
  Step-IsStuck {r} runs v = ground (
    arith,
    add_threads-IsStuck r.max_parallel
        (record r { timers = if r.finished_notification_enabled then r.timers + 1 else r.timers }),
  )
  Step-IsStuck {r} (times_out _) v = ground arith
  Step-IsStuck {r} (sets_max n) v = ground (
    arith,
    add_threads-IsStuck ((if ltb_ℤ n (pos 1) then 1 else pos_part n) - r.max_parallel) r v,
  )
  Step-IsStuck {r} (enables on) v = ground arith
  Step-IsStuck {r} (resets free) v = ground arith
  Step-IsStuck {r} closes v = ground arith
  Step-IsStuck {r} (cancels force) v = ground arith
  Step-IsStuck {r} (tests_queue at) v = ground arith
  Step-IsStuck {r} (cancel_notifies p {q} at e) v =
      ground (arith, notify_finished-IsStuck p r q e v, notify_finished_keeps p r q e)
  Step-IsStuck {r} (cancel_ends at) v = ground arith
  Step-IsStuck {r} (timer_notifies j p {q} at e) v =
      ground (arith, notify_finished-IsStuck p r q e v)
  Step-IsStuck {r} (drains {s} at e) v = cancel_receive-IsStuck r s r.tasks refl at e v
  Step-IsStuck {r} (opens i at) v = ground arith
  Step-IsStuck {r} (takes i {s} at e) v = thread_take-IsStuck i r s r.tasks refl e v
  Step-IsStuck {r} (activates i t at) v = ground arith
  Step-IsStuck {r} (starts i t at) v = ground arith
  Step-IsStuck {r} (releases i t e at) v = ground arith
  Step-IsStuck {r} (settles i t e at) v = ground arith
  Step-IsStuck {r} (notifies i t e at _) v = ground arith
  Step-IsStuck {r} (thread_calls p {q} at e) v = ground (arith, notify_finished-IsStuck p r q e v)
  Step-IsStuck {r} (unlocks i t e at h) v = ground arith
  Step-IsStuck {r} (records i t e at) v = thread_error-IsStuck i t e r v
  Step-IsStuck {r} (leaves i at f) v = ground arith
  Step-IsStuck {r} (checks i at) v = ground arith

  Reach-IsStuck : {r s : Runner E} → Reach r s → IsStuck r → IsStuck s
  Reach-IsStuck here v = v
  Reach-IsStuck (next p q) v = Step-IsStuck q (Reach-IsStuck p v)

  -- When the threads empty the queue between the test and the receive of `Cancel`, and no admitted call
  -- of `addTask` is left to send, then `Cancel` stays in its receive, with an empty queue, in every
  -- state that is reached without closing the task channel.
  pub Reach-cancel_receive :
      {r s : Runner E}
      → r.cancel ≡ true
      → r.cancel_once ≡ receiving
      → r.tasks ≡ []
      → weigh is_in_flight r.adding ≡ 0
      → Reach r s
      → s.tasks_closed ≡ false
      → s.cancel_once ≡ receiving × cancel_receive s ≡ none
  unfolding cancel_receive
  Reach-cancel_receive c w q f p h =
      let v =
        Reach-IsStuck p
          (record { cancels_on = λ _. c; waits = λ _. w; is_empty = λ _. q; no_sender = λ _. f }) in
      (v.waits h, ground (arith, v.is_empty h))
