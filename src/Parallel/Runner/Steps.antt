-- ===== src/Parallel/Runner/Steps.antt =====
-- parallel/runner.go: one step of a caller, of a thread or of a timer, and the states that are reached. A
-- step is what happens between two points at which others can run; any caller may call any method
-- at any time, and a timer of `Run` that sleeps may end at any time.
use gofrog.Prelude.{◌⊎◌, none, false, ◌≤◌, ℕ, Bool, Option, some, ℤ, ◌≡◌, get_elem?}
use gofrog.Parallel.Runner.{
  Notifying, returned, signalling, calling, notify_finished, cancel_notify, cancel_end,
  timer_notify, Task, Phase, opening, polling, taken, active, running, released, settled, notified,
  cancelling, checking, Adding, numbered, admitted, counted, testing, receiving, finished, Runner,
  done, cancel_begin, cancel_test, cancel_receive, add_begin, add_check, add_count, add_send, run,
  idle_timeout, set_max_parallel, set_finished_notification, reset_finish_notification_if_active,
}
use gofrog.Parallel.Runner.Threads.{
  thread_open, thread_take, thread_activate, thread_start, thread_release, thread_settle,
  thread_notify, thread_call, thread_unlock, thread_error, thread_leave, thread_check,
}

module _ {E : Type 0} where
  -- The thread i, or the call j of `addTask`, stands at a point.
  abbrev pub At : Runner E → ℕ → Phase E → Type 0
  At r i p = get_elem? r.threads i ≡ some p

  abbrev pub Adds : Runner E → ℕ → Adding → Type 0
  Adds r j a = get_elem? r.adding j ≡ some a

  pub data Step (r : Runner E) : Runner E → Type 0 where
    begins : (on_error : Bool) → Step r (add_begin on_error r)
    checks_cancel : (j : ℕ) (t : Task) → Adds r j (numbered t) → Step r (add_check j t r)
    counts : (j : ℕ) (t : Task) → Adds r j (admitted t) → Step r (add_count j t r)
    sends :
        (j : ℕ) (t : Task) {s : Runner E}
        → Adds r j (counted t)
        → add_send j t r ≡ some s
        → Step r s
    runs : Step r (run r)
    times_out : 1 ≤ r.timers → Step r (idle_timeout r)
    sets_max : (n : ℤ) → Step r (set_max_parallel n r)
    enables : (on : Bool) → Step r (set_finished_notification on r)
    resets : r.finished_notifier_lock ≡ none → Step r (reset_finish_notification_if_active r)
    closes : Step r (done r)
    cancels : (force : Bool) → Step r (cancel_begin force r)
    tests_queue : r.cancel_once ≡ testing → Step r (cancel_test r)
    cancel_notifies :
        (p : Notifying) {q : Notifying × Runner E}
        → r.cancel_once ≡ calling p
        → notify_finished p r ≡ some q
        → Step r (cancel_notify q)
    cancel_ends : r.cancel_once ≡ calling returned → Step r (cancel_end r)
    timer_notifies :
        (j : ℕ) (p : Notifying) {q : Notifying × Runner E}
        → get_elem? r.timer_calls j ≡ some p
        → notify_finished p r ≡ some q
        → Step r (timer_notify j q)
    drains : {s : Runner E} → r.cancel_once ≡ receiving → cancel_receive r ≡ some s → Step r s
    opens : (i : ℕ) → At r i opening → Step r (thread_open i r)
    takes : (i : ℕ) {s : Runner E} → At r i polling → thread_take i r ≡ some s → Step r s
    activates : (i : ℕ) (t : Task) → At r i (taken t) → Step r (thread_activate i t r)
    starts : (i : ℕ) (t : Task) → At r i (active t) → Step r (thread_start i t r)
    releases :
        (i : ℕ) (t : Task) (e : Option E) → At r i (running t) → Step r (thread_release i t e r)
    settles :
        (i : ℕ) (t : Task) (e : Option E) → At r i (released t e) → Step r (thread_settle i t e r)
    notifies :
        (i : ℕ) (t : Task) (e : Option E)
        → At r i (settled t e)
        → (r.finished_notification_enabled ≡ false) ⊎ (r.finished_notifier_lock ≡ none)
        → Step r (thread_notify i t e r)
    thread_calls :
        (p : Notifying) {q : Notifying × Runner E}
        → r.finished_notifier_lock ≡ some p
        → notify_finished p r ≡ some q
        → Step r (thread_call q)
    unlocks :
        (i : ℕ) (t : Task) (e : Option E)
        → At r i (signalling t e)
        → r.finished_notifier_lock ≡ some returned
        → Step r (thread_unlock i t e r)
    records :
        (i : ℕ) (t : Task) (e : Option E) → At r i (notified t e) → Step r (thread_error i t e r)
    leaves : (i : ℕ) → At r i cancelling → r.cancel_once ≡ finished → Step r (thread_leave i r)
    checks : (i : ℕ) → At r i checking → Step r (thread_check i r)

  pub data Reach (r : Runner E) : Runner E → Type 0 where
    here : Reach r r
    next : {s t : Runner E} → Reach r s → Step s t → Reach r t

  pub Reach-trans : {r s t : Runner E} → Reach r s → Reach s t → Reach r t
  Reach-trans p here = p
  Reach-trans p (next q x) = next (Reach-trans p q) x
