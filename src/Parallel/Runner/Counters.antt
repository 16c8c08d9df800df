-- ===== src/Parallel/Runner/Counters.antt =====
-- parallel/runner.go: what the counters of a runner count, in every reachable state.
use gofrog.Prelude.{
  ℕ, zero, suc, ◌+◌, ◌-◌, ◌%◌, ◌≡◌, refl, List, [], ◌∷◌, Bool, Option, none, some, ℤ, length,
  length-append, weigh, weigh-put_at, weigh-append, arith, if◌then◌else◌, ltb_ℤ, pos, pos_part,
}
use gofrog.Parallel.Runner.{
  Notifying, entered, tested, filled, flagged, returned, signalling, cancel_notify, cancel_end,
  timer_notify, Task, Phase, opening, polling, taken, active, running, released, settled, notified,
  cancelling, checking, exited, Adding, numbered, admitted, counted, sent, rejected, Runner, word32,
  increment, decrement, new_runner, notify_finished, done, cancel_begin, cancel_test,
  cancel_receive, add_begin, add_check, add_count, add_send, add_threads, add_thread, run,
  idle_timeout, set_max_parallel, set_finished_notification, reset_finish_notification_if_active,
}
use gofrog.Parallel.Runner.Threads.{
  thread_open, thread_take, thread_activate, thread_start, thread_release, thread_settle,
  thread_call, thread_unlock, thread_notify, thread_error, thread_leave, thread_check,
}
use gofrog.Parallel.Runner.Steps.{
  cancel_notifies, cancel_ends, timer_notifies, thread_calls, unlocks, At, Step, begins,
  checks_cancel, counts, sends, runs, times_out, sets_max, enables, resets, closes, cancels,
  tests_queue, drains, opens, takes, activates, starts, releases, settles, notifies, records,
  leaves, checks, Reach, here, next,
}

-- A call of `addTask` that has counted its task and not sent it.
abbrev pub is_counted : Adding → ℕ
is_counted (counted _) = 1
is_counted _ = 0

module _ {E : Type 0} where
  -- A thread that counts as active, and one that holds a task that still counts as queued.
  abbrev pub is_active : Phase E → ℕ
  is_active (active _) = 1
  is_active (running _) = 1
  is_active _ = 0

  abbrev pub holds_task : Phase E → ℕ
  holds_task (taken _) = 1
  holds_task (active _) = 1
  holds_task (running _) = 1
  holds_task (released _ _) = 1
  holds_task _ = 0

  pub record IsCounted (r : Runner E) : Type 0 where
    pub active_count : r.active_threads ≡ weigh is_active r.threads % word32
    pub queued_count :
        r.total_tasks_in_queue
        ≡ (length r.tasks
            + weigh is_counted r.adding
            + weigh holds_task r.threads
            + length r.drained)
          % word32

  add_threads-IsCounted : (n : ℕ) (r : Runner E) → IsCounted r → IsCounted (add_threads n r)
  unfolding add_threads
  add_threads-IsCounted zero r v = v
  add_threads-IsCounted (suc n) r v = add_threads-IsCounted n (add_thread r) (
      ground (
        arith,
        weigh-append is_active r.threads (opening ∷ []),
        weigh-append holds_task r.threads (opening ∷ []),
      ))

  notify_finished-IsCounted :
      (p : Notifying) (r : Runner E) (q : Notifying × Runner E)
      → notify_finished p r ≡ some q
      → IsCounted r
      → IsCounted q.1
  unfolding notify_finished
  notify_finished-IsCounted entered r q e v = ground arith
  notify_finished-IsCounted tested r q e v = ground arith
  notify_finished-IsCounted filled r q e v = ground arith
  notify_finished-IsCounted flagged r q e v = ground arith
  notify_finished-IsCounted returned r q e v = ground arith

  done-IsCounted : (r : Runner E) → IsCounted r → IsCounted (done r)
  unfolding done
  done-IsCounted r v = ground arith

  cancel_begin-IsCounted :
      (force : Bool) (r : Runner E) → IsCounted r → IsCounted (cancel_begin force r)
  unfolding cancel_begin
  cancel_begin-IsCounted force r v = ground arith

  thread_error-IsCounted :
      (i : ℕ) (t : Task) (e : Option E) (r : Runner E)
      → At r i (notified t e)
      → IsCounted r
      → IsCounted (thread_error i t e r)
  unfolding thread_error
  thread_error-IsCounted i t none r at v = ground (
    arith,
    weigh-put_at is_active r.threads i (notified t none) checking at,
    weigh-put_at holds_task r.threads i (notified t none) checking at,
  )
  thread_error-IsCounted i t (some e) r at v = ground (
    arith,
    weigh-put_at is_active r.threads i (notified t (some e)) checking at,
    weigh-put_at holds_task r.threads i (notified t (some e)) checking at,
    weigh-put_at is_active r.threads i (notified t (some e)) cancelling at,
    weigh-put_at holds_task r.threads i (notified t (some e)) cancelling at,
  )

  set_max_parallel-IsCounted :
      (n : ℤ) (r : Runner E) → IsCounted r → IsCounted (set_max_parallel n r)
  unfolding set_max_parallel
  set_max_parallel-IsCounted n r v = ground (
    arith,
    add_threads-IsCounted ((if ltb_ℤ n (pos 1) then 1 else pos_part n) - r.max_parallel) r v,
  )

  -- The head of the queue leaves it.
  cancel_receive-IsCounted :
      (r s : Runner E) (l : List Task)
      → r.tasks ≡ l
      → cancel_receive r ≡ some s
      → IsCounted r
      → IsCounted s
  unfolding cancel_receive
  cancel_receive-IsCounted r s [] q e v = ground arith
  cancel_receive-IsCounted r s (t ∷ l) q e v = ground arith

  thread_take-IsCounted :
      (i : ℕ) (r s : Runner E) (l : List Task)
      → r.tasks ≡ l
      → At r i polling
      → thread_take i r ≡ some s
      → IsCounted r
      → IsCounted s
  unfolding thread_take
  thread_take-IsCounted i r s [] q at e v = ground (
    arith,
    weigh-put_at is_active r.threads i polling exited at,
    weigh-put_at holds_task r.threads i polling exited at,
  )
  thread_take-IsCounted i r s (t ∷ l) q at e v = ground (
    arith,
    weigh-put_at is_active r.threads i polling (taken t) at,
    weigh-put_at holds_task r.threads i polling (taken t) at,
  )

  Step-IsCounted : {r s : Runner E} → Step r s → IsCounted r → IsCounted s
  unfolding add_begin add_check add_count add_send cancel_test cancel_receive idle_timeout run
      set_max_parallel set_finished_notification reset_finish_notification_if_active thread_open
      thread_take thread_activate thread_start thread_release thread_settle thread_notify
      thread_leave thread_check thread_call thread_unlock cancel_notify cancel_end timer_notify
  Step-IsCounted {r} (begins b) v = ground (
    arith,
    weigh-append is_counted r.adding
        (numbered (record { num = decrement (increment r.task_id); has_on_error = b }) ∷ []),
  )
  Step-IsCounted {r} (checks_cancel j t at) v = ground (
    arith,
    weigh-put_at is_counted r.adding j (numbered t) (if r.cancel then rejected else admitted t) at,
  )
  Step-IsCounted {r} (counts j t at) v =
      ground (arith, weigh-put_at is_counted r.adding j (admitted t) (counted t) at)
  Step-IsCounted {r} (sends j t at e) v = ground (
    arith,
    weigh-put_at is_counted r.adding j (counted t) (sent t) at,
    length-append r.tasks (t ∷ []),
  )
  Step-IsCounted {r} runs v = ground (
    arith,
    add_threads-IsCounted r.max_parallel
        (record r { timers = if r.finished_notification_enabled then r.timers + 1 else r.timers }),
  )
  Step-IsCounted {r} (times_out _) v = ground arith
  Step-IsCounted {r} (sets_max n) v = set_max_parallel-IsCounted n r v
  Step-IsCounted (enables on) v = ground arith
  Step-IsCounted (resets free) v = ground arith
  Step-IsCounted {r} closes v = done-IsCounted r v
  Step-IsCounted {r} (cancels force) v = cancel_begin-IsCounted force r v
  Step-IsCounted {r} (tests_queue at) v = ground arith
  Step-IsCounted {r} (cancel_notifies p {q} at e) v =
      ground (arith, notify_finished-IsCounted p r q e v)
  Step-IsCounted {r} (cancel_ends at) v = ground arith
  Step-IsCounted {r} (timer_notifies j p {q} at e) v =
      ground (arith, notify_finished-IsCounted p r q e v)
  Step-IsCounted {r} (drains {s} at e) v = cancel_receive-IsCounted r s r.tasks refl e v
  Step-IsCounted {r} (opens i at) v = ground (
    arith,
    weigh-put_at is_active r.threads i opening polling at,
    weigh-put_at holds_task r.threads i opening polling at,
  )
  Step-IsCounted {r} (takes i {s} at e) v = thread_take-IsCounted i r s r.tasks refl at e v
  Step-IsCounted {r} (activates i t at) v = ground (
    arith,
    weigh-put_at is_active r.threads i (taken t) (active t) at,
    weigh-put_at holds_task r.threads i (taken t) (active t) at,
  )
  Step-IsCounted {r} (starts i t at) v = ground (
    arith,
    weigh-put_at is_active r.threads i (active t) (running t) at,
    weigh-put_at holds_task r.threads i (active t) (running t) at,
  )
  Step-IsCounted {r} (releases i t e at) v = ground (
    arith,
    weigh-put_at is_active r.threads i (running t) (released t e) at,
    weigh-put_at holds_task r.threads i (running t) (released t e) at,
  )
  Step-IsCounted {r} (settles i t e at) v = ground (
    arith,
    weigh-put_at is_active r.threads i (released t e) (settled t e) at,
    weigh-put_at holds_task r.threads i (released t e) (settled t e) at,
  )
  Step-IsCounted {r} (notifies i t e at _) v = ground (
    arith,
    weigh-put_at is_active r.threads i (settled t e) (notified t e) at,
    weigh-put_at holds_task r.threads i (settled t e) (notified t e) at,
    weigh-put_at is_active r.threads i (settled t e) (signalling t e) at,
    weigh-put_at holds_task r.threads i (settled t e) (signalling t e) at,
  )
  Step-IsCounted {r} (thread_calls p {q} at e) v =
      ground (arith, notify_finished-IsCounted p r q e v)
  Step-IsCounted {r} (unlocks i t e at _) v = ground (
    arith,
    weigh-put_at is_active r.threads i (signalling t e) (notified t e) at,
    weigh-put_at holds_task r.threads i (signalling t e) (notified t e) at,
  )
  Step-IsCounted {r} (records i t e at) v = thread_error-IsCounted i t e r at v
  Step-IsCounted {r} (leaves i at f) v = ground (
    arith,
    weigh-put_at is_active r.threads i cancelling exited at,
    weigh-put_at holds_task r.threads i cancelling exited at,
  )
  Step-IsCounted {r} (checks i at) v = ground (
    arith,
    weigh-put_at is_active r.threads i checking exited at,
    weigh-put_at holds_task r.threads i checking exited at,
    weigh-put_at is_active r.threads i checking polling at,
    weigh-put_at holds_task r.threads i checking polling at,
  )

  pub Reach-IsCounted : {r s : Runner E} → Reach r s → IsCounted r → IsCounted s
  Reach-IsCounted here v = v
  Reach-IsCounted (next p q) v = Step-IsCounted q (Reach-IsCounted p v)

  pub new_runner-IsCounted :
      (max_parallel : ℤ) (capacity : ℕ) (fail_fast : Bool)
      → IsCounted (new_runner max_parallel capacity fail_fast)
  unfolding new_runner
  new_runner-IsCounted max_parallel capacity fail_fast = ground arith
