-- ===== src/Parallel/Runner/Tests.antt =====
-- Runs of parallel/runner.go, step by step, and its theorems at concrete inputs.
use gofrog.Prelude.{inr, ℕ, ◌≡◌, refl, [], ◌∷◌, true, false, none, some, pos, weigh}
use gofrog.Parallel.Runner.{
  entered, tested, filled, flagged, returned, calling, cancel_notify, cancel_end, timer_notify,
  Task, taken, sent, testing, receiving, Runner, new_runner, new_bouned_runner, add_result,
  notify_finished, done, cancel_begin, cancel_test, cancel_receive, add_begin, add_check, add_count,
  add_send, add_thread, add_threads, run, is_started, idle_timeout, set_max_parallel,
  set_finished_notification, reset_finish_notification_if_active,
}
use gofrog.Parallel.Runner.Threads.{
  thread_open, thread_take, thread_activate, thread_start, thread_release, thread_settle,
  thread_call, thread_unlock, thread_notify, record_error, thread_error, thread_leave, thread_check,
}
use gofrog.Parallel.Runner.Steps.{
  cancel_notifies, thread_calls, notifies, begins, checks_cancel, counts, sends, runs, enables,
  cancels, tests_queue, drains, opens, takes, activates, starts, releases, settles, Reach, here,
  next,
}
use gofrog.Parallel.Runner.Counters.{IsCounted}
use gofrog.Parallel.Runner.Settled.{Reach-new_runner-IsCounted}
use gofrog.Parallel.Runner.Cancelled.{is_admitted, Reach-cancel-is_admitted}
use gofrog.Parallel.Runner.Stuck.{Reach-cancel_receive}

abbrev program : Unit {0}
unfolding new_runner new_bouned_runner add_result notify_finished done cancel_begin cancel_test
    cancel_receive add_begin add_check add_count add_send add_thread add_threads run is_started
    idle_timeout set_max_parallel set_finished_notification reset_finish_notification_if_active
    thread_open thread_take thread_activate thread_start thread_release thread_settle thread_notify
    record_error thread_error thread_leave thread_check thread_call thread_unlock cancel_notify
    cancel_end timer_notify
program = tt

-- One thread, room for two tasks, and a task that fails with the error 7.
abbrev task : Task
task = record { num = 0; has_on_error = true }

abbrev fresh : Runner ℕ
fresh = new_runner (pos 1) 2 true

-- The task is queued.
abbrev queued : Runner ℕ
queued =
    record (add_count 0 task
      (add_check 0 task (add_begin true (run (set_finished_notification true fresh))))) {
        tasks = task ∷ [];
        adding = sent task ∷ [];
      }

fresh-queued : Reach fresh queued
unfolding program
fresh-queued =
    next
      (next
        (next (next (next (next here (enables true)) runs) (begins true))
          (checks_cancel 0 task refl))
        (counts 0 task refl))
      (sends 0 task refl refl)

-- The task has run, and its thread has settled it.
abbrev ready : Runner ℕ
ready = record (thread_open 0 queued) { tasks = []; threads = taken task ∷ [] }

abbrev ran : Runner ℕ
ran =
    thread_settle 0 task (some 7)
      (thread_release 0 task (some 7) (thread_start 0 task (thread_activate 0 task ready)))

fresh-ready : Reach fresh ready
unfolding program
fresh-ready = next (next fresh-queued (opens 0 refl)) (takes 0 refl refl)

fresh-ran : Reach fresh ran
unfolding program
fresh-ran =
    next
      (next (next (next fresh-ready (activates 0 task refl)) (starts 0 task refl))
        (releases 0 task (some 7) refl))
      (settles 0 task (some 7) refl)

-- The queue is drained by `Cancel`.
abbrev cancelled : Runner ℕ
cancelled = cancel_begin false queued

abbrev drained_one : Runner ℕ
drained_one = record (cancel_test cancelled) {
  tasks = [];
  drained = task ∷ [];
  cancel_once = testing;
}

fresh-drained_one : Reach fresh drained_one
unfolding program
fresh-drained_one =
    next (next (next fresh-queued (cancels false)) (tests_queue refl)) (drains refl refl)

-- The thread is faster than the receive of `Cancel`.
abbrev stuck : Runner ℕ
stuck = record (thread_open 0 (cancel_test cancelled)) { tasks = []; threads = taken task ∷ [] }

fresh-stuck : Reach fresh stuck
unfolding program
fresh-stuck =
    next (next (next (next fresh-queued (cancels false)) (tests_queue refl)) (opens 0 refl))
      (takes 0 refl refl)

Reach-new_runner-IsCounted_example : IsCounted ran
Reach-new_runner-IsCounted_example = Reach-new_runner-IsCounted (pos 1) 2 true fresh-ran

-- The thread holds the lock, and calls `notifyFinished`.
abbrev locking : Runner ℕ
locking = thread_notify 0 task (some 7) ran

fresh-locking : Reach fresh locking
unfolding program
fresh-locking = next fresh-ran (notifies 0 task (some 7) refl (inr refl))

-- `Cancel` calls `notifyFinished` at the same time: both pass the test, and it closes the channel.
abbrev both_calling : Runner ℕ
both_calling =
    thread_call (tested, cancel_notify (tested, cancel_test (cancel_begin false locking)))

abbrev closed_by_cancel : Runner ℕ
closed_by_cancel = record both_calling {
  cancel_once = calling returned;
  finished_notifier = record { buffer = true ∷ []; closed = true };
  finished_notifier_channel_closed = true;
}

fresh-closed_by_cancel : Reach fresh closed_by_cancel
unfolding program
fresh-closed_by_cancel =
    next
      (next
        (next
          (next
            (next (next (next fresh-locking (cancels false)) (tests_queue refl)) (
              cancel_notifies entered {q = (tested, cancel_test (cancel_begin false locking))} refl
                refl))
            (thread_calls entered
              {q = (tested, cancel_notify (tested, cancel_test (cancel_begin false locking)))} refl
              refl))
          (cancel_notifies tested
            {q = (
              filled,
              record both_calling {
                finished_notifier = record { buffer = true ∷ []; closed = false };
              },
            )}
            refl refl))
        (cancel_notifies filled
          {q = (
            flagged,
            record both_calling {
              cancel_once = calling filled;
              finished_notifier = record { buffer = true ∷ []; closed = false };
              finished_notifier_channel_closed = true;
            },
          )}
          refl refl))
      (cancel_notifies flagged
        {q = (
          returned,
          record both_calling {
            cancel_once = calling flagged;
            finished_notifier = record { buffer = true ∷ []; closed = true };
            finished_notifier_channel_closed = true;
          },
        )}
        refl refl)

-- The thread then sends on the closed channel.
send_panics :
    notify_finished tested closed_by_cancel
    ≡ some (returned, record closed_by_cancel { panicked = true })
unfolding program
send_panics = refl

abbrev refused : Runner ℕ
refused = add_check 1 (record { num = 1; has_on_error = false }) (add_begin false cancelled)

Reach-cancel-is_admitted_example :
    refused.cancel ≡ true × weigh is_admitted refused.adding ≡ weigh is_admitted cancelled.adding
unfolding program
Reach-cancel-is_admitted_example = Reach-cancel-is_admitted {r = cancelled} refl (
    next (next here (begins false))
      (checks_cancel 1 (record { num = 1; has_on_error = false }) refl))

abbrev later : Runner ℕ
later = thread_activate 0 task stuck

Reach-cancel_receive_example : later.cancel_once ≡ receiving × cancel_receive later ≡ none
unfolding program
Reach-cancel_receive_example =
    Reach-cancel_receive {r = stuck} refl refl refl refl (next here (activates 0 task refl)) refl
