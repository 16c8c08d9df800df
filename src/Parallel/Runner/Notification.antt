-- ===== src/Parallel/Runner/Notification.antt =====
-- parallel/runner.go: the channels of a runner, and what the calls of `notifyFinished` do to one of them.
use gofrog.Prelude.{
  inl, inr, true, ◌++◌, get_elem?, ◌==◌, not, ◌&&◌, ◌+◌, ℕ, zero, suc, ◌-◌, ◌≤◌, ◌≡◌, refl, List,
  [], ◌∷◌, Bool, false, Option, none, some, ℤ, length, length-append, put_at, arith, if◌then◌else◌,
  ltb_ℤ, pos, pos_part,
}
use gofrog.Parallel.Runner.{
  CancelPhase, untouched, testing, Notifying, entered, tested, filled, flagged, returned, calling,
  cancel_notify, cancel_end, timer_notify, Task, receiving, finished, Runner, new_runner,
  notify_finished, done, cancel_begin, cancel_test, cancel_receive, add_begin, add_check, add_count,
  add_send, add_threads, add_thread, run, idle_timeout, set_max_parallel, set_finished_notification,
  reset_finish_notification_if_active,
}
use gofrog.Parallel.Runner.Threads.{
  thread_open, thread_take, thread_activate, thread_start, thread_release, thread_settle,
  thread_call, thread_unlock, thread_notify, thread_error, thread_leave, thread_check,
}
use gofrog.Parallel.Runner.Steps.{
  cancel_notifies, cancel_ends, timer_notifies, thread_calls, unlocks, Step, begins, checks_cancel,
  counts, sends, runs, times_out, sets_max, enables, resets, closes, cancels, tests_queue, drains,
  opens, takes, activates, starts, releases, settles, notifies, records, leaves, checks, Reach,
  here, next,
}

abbrev pub no_calls : List Notifying → Bool
no_calls [] = true
no_calls (_ ∷ _) = false

no_calls-append : (l : List Notifying) (p : Notifying) → no_calls (l ++ p ∷ []) ≡ false
no_calls-append [] p = refl
no_calls-append (q ∷ l) p = refl

no_calls-put_at :
    (l : List Notifying) (j : ℕ) (p q : Notifying)
    → get_elem? l j ≡ some p
    → no_calls (put_at l j q) ≡ false
no_calls-put_at [] j p q h = absurd (ground arith)
no_calls-put_at (x ∷ l) zero p q h = refl
no_calls-put_at (x ∷ l) (suc j) p q h = refl

abbrev pub before_notify : CancelPhase → Bool
before_notify untouched = true
before_notify testing = true
before_notify receiving = true
before_notify finished = false
before_notify (calling _) = false

-- The flag, the channel and the number of values in it, by the call that holds the lock.
abbrev pub agrees : Option Notifying → Bool → Bool → ℕ → Bool
agrees none flag closed n = if flag then closed else not closed && n == 0
agrees (some entered) flag closed n = if flag then closed else not closed && n == 0
agrees (some tested) flag closed n = not flag && not closed && n == 0
agrees (some filled) flag closed n = not flag && not closed
agrees (some flagged) flag closed n = flag && not closed
agrees (some returned) flag closed n = if flag then closed else not closed && n == 0

module _ {E : Type 0} where
  -- No timer and not the body of `Cancel` has called `notifyFinished`.
  abbrev pub is_alone : Runner E → Bool
  is_alone r = no_calls r.timer_calls && before_notify r.cancel_once

  -- The flags say which channels are closed, and an open notifier is empty, but for what the call that holds
  -- the lock is about to do.
  pub record IsGuarded (r : Runner E) : Type 0 where
    pub tasks_flag : r.tasks_closed ≡ r.done_once
    pub at_most_one : length r.finished_notifier.buffer ≤ 1
    pub in_step :
        is_alone r ≡ true
        → agrees r.finished_notifier_lock r.finished_notifier_channel_closed
            r.finished_notifier.closed
            (length r.finished_notifier.buffer)
          ≡ true
    pub no_panic : is_alone r ≡ true → r.tasks_closed ≡ false → r.panicked ≡ false

  add_threads-IsGuarded : (n : ℕ) (r : Runner E) → IsGuarded r → IsGuarded (add_threads n r)
  unfolding add_threads
  add_threads-IsGuarded zero r v = v
  add_threads-IsGuarded (suc n) r v = add_threads-IsGuarded n (add_thread r) (ground arith)

  -- What every step of a call keeps.
  notify_finished_keeps :
      (p : Notifying) (r : Runner E) (q : Notifying × Runner E)
      → notify_finished p r ≡ some q
      → length r.finished_notifier.buffer ≤ 1
      → (q.1.tasks_closed ≡ r.tasks_closed)
        × (q.1.done_once ≡ r.done_once)
        × (length q.1.finished_notifier.buffer ≤ 1)
  unfolding notify_finished
  notify_finished_keeps entered r q e l = ground arith
  notify_finished_keeps tested r q e l = ground arith
  notify_finished_keeps filled r q e l = ground arith
  notify_finished_keeps flagged r q e l = ground arith
  notify_finished_keeps returned r q e l = ground arith

  thread_call-IsGuarded :
      (p : Notifying) (r : Runner E) (q : Notifying × Runner E)
      → r.finished_notifier_lock ≡ some p
      → notify_finished p r ≡ some q
      → IsGuarded r
      → IsGuarded (thread_call q)
  unfolding notify_finished thread_call
  thread_call-IsGuarded entered r q at e v = ground arith
  thread_call-IsGuarded tested r q at e v = ground arith
  thread_call-IsGuarded filled r q at e v = ground arith
  thread_call-IsGuarded flagged r q at e v = ground arith
  thread_call-IsGuarded returned r q at e v = ground arith

  cancel_receive-IsGuarded :
      (r s : Runner E) (l : List Task)
      → r.tasks ≡ l
      → r.cancel_once ≡ receiving
      → cancel_receive r ≡ some s
      → IsGuarded r
      → IsGuarded s
  unfolding cancel_receive
  cancel_receive-IsGuarded r s [] q at e v = ground arith
  cancel_receive-IsGuarded r s (t ∷ l) q at e v = ground arith

  thread_take-IsGuarded :
      (i : ℕ) (r s : Runner E) (l : List Task)
      → r.tasks ≡ l
      → thread_take i r ≡ some s
      → IsGuarded r
      → IsGuarded s
  unfolding thread_take
  thread_take-IsGuarded i r s [] q e v = ground arith
  thread_take-IsGuarded i r s (t ∷ l) q e v = ground arith

  thread_error-IsGuarded :
      (i : ℕ) (t : Task) (e : Option E) (r : Runner E)
      → IsGuarded r
      → IsGuarded (thread_error i t e r)
  unfolding thread_error cancel_begin
  thread_error-IsGuarded i t none r v = ground arith
  thread_error-IsGuarded i t (some e) r v = ground arith

  timer_notify-IsGuarded :
      (j : ℕ) (p : Notifying) (r : Runner E) (q : Notifying × Runner E)
      → get_elem? r.timer_calls j ≡ some p
      → notify_finished p r ≡ some q
      → IsGuarded r
      → IsGuarded (timer_notify j q)
  unfolding notify_finished timer_notify
  timer_notify-IsGuarded j entered r q at e v =
      ground (arith, no_calls-put_at r.timer_calls j entered q.0 at)
  timer_notify-IsGuarded j tested r q at e v =
      ground (arith, no_calls-put_at r.timer_calls j tested q.0 at)
  timer_notify-IsGuarded j filled r q at e v =
      ground (arith, no_calls-put_at r.timer_calls j filled q.0 at)
  timer_notify-IsGuarded j flagged r q at e v =
      ground (arith, no_calls-put_at r.timer_calls j flagged q.0 at)
  timer_notify-IsGuarded j returned r q at e v =
      ground (arith, no_calls-put_at r.timer_calls j returned q.0 at)

  Step-IsGuarded : {r s : Runner E} → Step r s → IsGuarded r → IsGuarded s
  unfolding add_begin add_check add_count add_send cancel_test cancel_receive idle_timeout run
      set_max_parallel set_finished_notification reset_finish_notification_if_active thread_open
      thread_take thread_activate thread_start thread_release thread_settle thread_notify
      thread_leave thread_check thread_call thread_unlock cancel_notify cancel_end timer_notify done
      cancel_begin
  Step-IsGuarded {r} (begins b) v = ground arith
  Step-IsGuarded {r} (checks_cancel j t at) v = ground arith
  Step-IsGuarded {r} (counts j t at) v = ground arith
  Step-IsGuarded {r} (sends j t at e) v = ground (arith, length-append r.tasks (t ∷ []))
  Step-IsGuarded {r} runs v = ground (
    arith,
    add_threads-IsGuarded r.max_parallel
        (record r { timers = if r.finished_notification_enabled then r.timers + 1 else r.timers }),
  )
  Step-IsGuarded {r} (times_out _) v = ground (arith, no_calls-append r.timer_calls entered)
  Step-IsGuarded {r} (sets_max n) v = ground (
    arith,
    add_threads-IsGuarded ((if ltb_ℤ n (pos 1) then 1 else pos_part n) - r.max_parallel) r v,
  )
  Step-IsGuarded {r} (enables on) v = ground arith
  Step-IsGuarded {r} (resets free) v = ground arith
  Step-IsGuarded {r} closes v = ground arith
  Step-IsGuarded {r} (cancels force) v = ground arith
  Step-IsGuarded {r} (tests_queue at) v = ground arith
  Step-IsGuarded {r} (cancel_notifies p {q} at e) v =
      ground (arith, notify_finished_keeps p r q e v.at_most_one)
  Step-IsGuarded {r} (cancel_ends at) v = ground arith
  Step-IsGuarded {r} (timer_notifies j p {q} at e) v = timer_notify-IsGuarded j p r q at e v
  Step-IsGuarded {r} (drains {s} at e) v = cancel_receive-IsGuarded r s r.tasks refl at e v
  Step-IsGuarded {r} (opens i at) v = ground arith
  Step-IsGuarded {r} (takes i {s} at e) v = thread_take-IsGuarded i r s r.tasks refl e v
  Step-IsGuarded {r} (activates i t at) v = ground arith
  Step-IsGuarded {r} (starts i t at) v = ground arith
  Step-IsGuarded {r} (releases i t e at) v = ground arith
  Step-IsGuarded {r} (settles i t e at) v = ground arith
  Step-IsGuarded {r} (notifies i t e at (inl off)) v = ground arith
  Step-IsGuarded {r} (notifies i t e at (inr free)) v = ground arith
  Step-IsGuarded {r} (thread_calls p {q} at e) v = thread_call-IsGuarded p r q at e v
  Step-IsGuarded {r} (unlocks i t e at h) v = ground arith
  Step-IsGuarded {r} (records i t e at) v = thread_error-IsGuarded i t e r v
  Step-IsGuarded {r} (leaves i at f) v = ground arith
  Step-IsGuarded {r} (checks i at) v = ground arith

  Reach-IsGuarded : {r s : Runner E} → Reach r s → IsGuarded r → IsGuarded s
  Reach-IsGuarded here v = v
  Reach-IsGuarded (next p q) v = Step-IsGuarded q (Reach-IsGuarded p v)

  new_runner-IsGuarded :
      (max_parallel : ℤ) (capacity : ℕ) (fail_fast : Bool)
      → IsGuarded (new_runner max_parallel capacity fail_fast)
  unfolding new_runner
  new_runner-IsGuarded max_parallel capacity fail_fast = ground arith

  pub Reach-new_runner-IsGuarded :
      (max_parallel : ℤ) (capacity : ℕ) (fail_fast : Bool) {s : Runner E}
      → Reach (new_runner max_parallel capacity fail_fast) s
      → IsGuarded s
  Reach-new_runner-IsGuarded max_parallel capacity fail_fast p =
      Reach-IsGuarded p (new_runner-IsGuarded max_parallel capacity fail_fast)
