-- ===== src/Parallel/Runner/Settled.antt =====
-- parallel/runner.go: the counters of a runner, and when its threads notify.
use gofrog.Prelude.{◌≤◌, length, weigh, ℕ, ◌+◌, ◌≡◌, Bool, Option, ℤ, length, weigh, arith, ◌≤◌}
use gofrog.Parallel.Runner.{Task, Runner, new_runner}
use gofrog.Parallel.Runner.Threads.{thread_notify}
use gofrog.Parallel.Runner.Steps.{Reach}
use gofrog.Parallel.Runner.Counters.{
  is_counted, holds_task, IsCounted, Reach-IsCounted, new_runner-IsCounted,
}

module _ {E : Type 0} where
  -- In every state that a new runner reaches, `activeThreads` is the number of threads between the two
  -- updates around their task, and `totalTasksInQueue` is the number of tasks that are counted and
  -- unsent, queued, held by a thread, or taken out of the queue by `Cancel`, both modulo 2^32.
  pub Reach-new_runner-IsCounted :
      (max_parallel : ℤ) (capacity : ℕ) (fail_fast : Bool) {s : Runner E}
      → Reach (new_runner max_parallel capacity fail_fast) s
      → IsCounted s
  Reach-new_runner-IsCounted max_parallel capacity fail_fast p =
      Reach-IsCounted p (new_runner-IsCounted max_parallel capacity fail_fast)

  -- Once `Cancel` has taken a task out of the queue, and fewer than 2^32 tasks are counted, no thread
  -- that settles a task takes the lock to notify.
  pub Reach-thread_notify-drained :
      (max_parallel : ℤ) (capacity : ℕ) (fail_fast : Bool) {s : Runner E} (i : ℕ) (t : Task)
      (e : Option E)
      → Reach (new_runner max_parallel capacity fail_fast) s
      → 1 ≤ length s.drained
      → length s.tasks + weigh is_counted s.adding + weigh holds_task s.threads + length s.drained
        ≤ 4294967295
      → (thread_notify i t e s).finished_notifier_lock ≡ s.finished_notifier_lock
  unfolding thread_notify
  Reach-thread_notify-drained max_parallel capacity fail_fast i t e p d small =
      let v = Reach-new_runner-IsCounted max_parallel capacity fail_fast p in ground arith
