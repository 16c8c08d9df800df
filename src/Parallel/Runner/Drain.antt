-- ===== src/Parallel/Runner/Drain.antt =====
-- parallel/runner.go: `Cancel` when no thread interferes, and what is recorded of an error.
use gofrog.Prelude.{
  ℕ, ◌≡◌, refl, List, [], ◌∷◌, Option, none, some, arith, if◌then◌else◌, ◌==◌, ◌||◌,
}
use gofrog.Parallel.Runner.{Task, testing, Runner, cancel_begin, cancel_test}
use gofrog.Parallel.Runner.Threads.{thread_error, record_error}

module _ {E : Type 0} where
  -- The loop of `Cancel`, without other steps between its own.
  abbrev pub cancel_loop : List Task → Runner E → Runner E
  unfolding cancel_test
  cancel_loop [] r = cancel_test r
  cancel_loop (t ∷ ts) r =
      cancel_loop ts (record r { tasks = ts; drained = t ∷ r.drained; cancel_once = testing })

  -- What the map of errors holds for a task.
  abbrev pub find_error : ℕ → List (ℕ × E) → Option E
  find_error n [] = none
  find_error n ((k, e) ∷ m) = if k == n then some e else find_error n m

  find_error-record_error :
      (n k : ℕ) (e : E) (m : List (ℕ × E))
      → find_error n (record_error k e m) ≡ (if k == n then some e else find_error n m)
  unfolding record_error
  find_error-record_error n k e [] = refl
  find_error-record_error n k e ((j, x) ∷ m) = ground (arith, find_error-record_error n k e m)

  -- A thread whose task has failed leaves the error in the map under the task's number and keeps the
  -- other entries, and it cancels the runner exactly when the runner fails fast or is already cancelled.
  pub thread_error-find_error :
      (i : ℕ) (t : Task) (e : E) (r : Runner E) (n : ℕ)
      → find_error n (thread_error i t (some e) r).errors
          ≡ (if t.num == n then some e else find_error n r.errors)
        × (thread_error i t (some e) r).cancel ≡ (r.fail_fast || r.cancel)
  unfolding thread_error cancel_begin
  thread_error-find_error i t e r n = ground (arith, find_error-record_error n t.num e r.errors)
