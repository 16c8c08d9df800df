-- ===== src/Parallel/Runner/Threads.antt =====
-- parallel/runner.go: the goroutine of `addThread`, from one point at which the others can run to the next.
use gofrog.Prelude.{
  ℕ, List, [], ◌∷◌, ◌++◌, false, ◌&&◌, if◌then◌else◌, ◌==◌, ltb, Option, none, some, put_at,
}
use gofrog.Parallel.Runner.{
  Task, Runner, polling, taken, active, running, released, settled, notified, signalling, entered,
  Notifying, cancelling, checking, exited, increment, decrement, cancel_begin,
}

module _ {E : Type 0} where
  -- The body of a thread, from one point to the next; `i` is the thread.
  unfoldable pub thread_open : ℕ → Runner E → Runner E
  thread_open i r = record r {
    open_threads = increment r.open_threads;
    threads = put_at r.threads i polling;
  }

  -- `range r.tasks`: a task, the end of a closed channel, or waiting.
  unfoldable pub thread_take : ℕ → Runner E → Option (Runner E)
  thread_take i r = elim r.tasks [
    | t ∷ ts ↦ some (record r { tasks = ts; threads = put_at r.threads i (taken t) })
    | [] ↦ if r.tasks_closed then some (record r { threads = put_at r.threads i exited }) else none
  ]

  unfoldable pub thread_activate : ℕ → Task → Runner E → Runner E
  thread_activate i t r = record r {
    active_threads = increment r.active_threads;
    threads = put_at r.threads i (active t);
  }

  unfoldable pub thread_start : ℕ → Task → Runner E → Runner E
  thread_start i t r = record r {
    started = increment r.started;
    threads = put_at r.threads i (running t);
  }

  -- The task returns `e`.
  unfoldable pub thread_release : ℕ → Task → Option E → Runner E → Runner E
  thread_release i t e r = record r {
    active_threads = decrement r.active_threads;
    threads = put_at r.threads i (released t e);
  }

  unfoldable pub thread_settle : ℕ → Task → Option E → Runner E → Runner E
  thread_settle i t e r = record r {
    total_tasks_in_queue = decrement r.total_tasks_in_queue;
    threads = put_at r.threads i (settled t e);
  }

  -- The part under `finishedNotifierLock`: up to the call of `notifyFinished`, with the lock then held, a step of
  -- the call, and the release of the lock after it.
  unfoldable pub thread_notify : ℕ → Task → Option E → Runner E → Runner E
  thread_notify i t e r =
      if r.finished_notification_enabled && r.active_threads == 0 && r.total_tasks_in_queue == 0
      then record r {
        finished_notifier_lock = some entered;
        threads = put_at r.threads i (signalling t e);
      }
      else record r { threads = put_at r.threads i (notified t e) }

  unfoldable pub thread_call : Notifying × Runner E → Runner E
  thread_call (p, r) = record r { finished_notifier_lock = some p }

  unfoldable pub thread_unlock : ℕ → Task → Option E → Runner E → Runner E
  thread_unlock i t e r = record r {
    finished_notifier_lock = none;
    threads = put_at r.threads i (notified t e);
  }

  unfoldable pub record_error : ℕ → E → List (ℕ × E) → List (ℕ × E)
  record_error num e [] = (num, e) ∷ []
  record_error num e ((n, x) ∷ m) = if n == num then (num, e) ∷ m else (n, x) ∷ record_error num e m

  -- The error is handed on and recorded; with `failFast` the thread goes on to `Cancel(false)`.
  unfoldable pub thread_error : ℕ → Task → Option E → Runner E → Runner E
  unfolding record_error cancel_begin
  thread_error i t none r = record r { threads = put_at r.threads i checking }
  thread_error i t (some e) r =
      let r' : Runner E = record r {
        handled = if t.has_on_error then r.handled ++ (t.num, e) ∷ [] else r.handled;
        errors = record_error t.num e r.errors;
        threads = put_at r.threads i (if r.fail_fast then cancelling else checking);
      } in
      if r.fail_fast then cancel_begin false r' else r'

  -- `Cancel` returns once its body is done, and the thread leaves the loop.
  unfoldable pub thread_leave : ℕ → Runner E → Runner E
  thread_leave i r = record r { threads = put_at r.threads i exited }

  -- The part under `openThreadsLock`.
  unfoldable pub thread_check : ℕ → Runner E → Runner E
  thread_check i r =
      if ltb r.max_parallel r.open_threads
      then record r { open_threads = decrement r.open_threads; threads = put_at r.threads i exited }
      else record r { threads = put_at r.threads i polling }
