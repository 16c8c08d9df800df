-- ===== src/Parallel/Runner.antt =====
-- parallel/runner.go: the state of a `runner`, and what its methods and its threads do to it between two
-- points at which the others can run. `Parallel/Runner/Steps` puts these together. Atomic counters keep
-- 32 bits. E is the type of the errors that tasks return.
mod Threads
mod Steps
mod Counters
mod Bounds
mod Notification
mod Cancelled
mod Drain
mod Settled
mod Stuck
mod Tests
use gofrog.Prelude.{
  ℕ, zero, suc, ◌+◌, ◌-◌, ◌%◌, List, [], ◌∷◌, ◌++◌, Bool, true, false, not, ◌&&◌, ◌||◌,
  if◌then◌else◌, ◌==◌, ltb, leb, length, Option, none, some, ℤ, pos, negsuc, pos_part, ltb_ℤ,
  put_at,
}

pub record Task : Type 0 where
  pub num : ℕ
  pub has_on_error : Bool

-- Where a call of `notifyFinished` stands: before its test, its send, its assignment or its close, or returned.
pub data Notifying : Type 0 where
  entered tested filled flagged returned : Notifying

-- Where a thread stands in the body of `addThread`.
pub data Phase (E : Type 0) : Type 0 where
  -- Before it counts itself as open, and at the head of the loop.
  opening polling : Phase E
  -- A task has been received, counted as active, and is run.
  taken active running : Task → Phase E
  -- The task has returned, and the thread is no longer active; the task no longer counts as queued;
  -- the notification has been considered.
  released settled notified : Task → Option E → Phase E
  -- In `notifyFinished`, with `finishedNotifierLock` held.
  signalling : Task → Option E → Phase E
  -- In `Cancel` after an error, and before the comparison with the maximum.
  cancelling checking : Phase E
  exited : Phase E

-- Where a call of `addTask` stands: its task has a number, is admitted, counted, sent or rejected.
pub data Adding : Type 0 where
  numbered admitted counted sent : Task → Adding
  rejected : Adding

-- Where the body of `cancelOnce` stands: not called, before its test, before the receive, in
-- `notifyFinished`, done.
pub data CancelPhase : Type 0 where
  untouched testing receiving finished : CancelPhase
  calling : Notifying → CancelPhase

-- A channel with room for one value.
pub record Notifier : Type 0 where
  pub buffer : List Bool
  pub closed : Bool

pub record Runner (E : Type 0) : Type 0 where
  pub tasks : List Task
  pub capacity : ℕ
  pub tasks_closed : Bool
  pub task_id : ℕ
  pub cancel : Bool
  pub cancel_once : CancelPhase
  pub done_once : Bool
  pub max_parallel : ℕ
  pub fail_fast : Bool
  pub started : ℕ
  pub thread_count : ℕ
  pub open_threads : ℕ
  pub active_threads : ℕ
  pub total_tasks_in_queue : ℕ
  pub finished_notifier : Notifier
  pub finished_notifier_channel_closed : Bool
  -- `finishedNotifierLock`: none when it is free, or the call of the thread that holds it.
  pub finished_notifier_lock : Option Notifying
  pub finished_notification_enabled : Bool
  pub errors : List (ℕ × E)
  -- The timers of `Run` that sleep, the threads, the calls of `addTask`, the tasks that `Cancel` took out of the queue, the errors
  -- handed to `onError`, and whether a send or a close has panicked.
  pub timers : ℕ
  -- The calls of `notifyFinished` by timers, which take no lock.
  pub timer_calls : List Notifying
  pub threads : List (Phase E)
  pub adding : List Adding
  pub drained : List Task
  pub handled : List (ℕ × E)
  pub panicked : Bool

abbrev pub word32 : ℕ
word32 = 4294967296

-- `Add(1)` and `Add(^uint32(0))`.
abbrev pub increment : ℕ → ℕ
increment n = (n + 1) % word32

abbrev pub decrement : ℕ → ℕ
decrement n = (n + (word32 - 1)) % word32

abbrev pub empty_notifier : Notifier
empty_notifier = record { buffer = []; closed = false }

unfoldable pub new_runner : {E : Type 0} → ℤ → ℕ → Bool → Runner E
new_runner max_parallel capacity fail_fast = record {
  tasks = [];
  capacity = if ltb capacity 1 then 1 else capacity;
  tasks_closed = false;
  task_id = 0;
  cancel = false;
  cancel_once = untouched;
  done_once = false;
  max_parallel = if ltb_ℤ max_parallel (pos 1) then 1 else pos_part max_parallel;
  fail_fast = fail_fast;
  started = 0;
  thread_count = 0;
  open_threads = 0;
  active_threads = 0;
  total_tasks_in_queue = 0;
  finished_notifier = empty_notifier;
  finished_notifier_channel_closed = false;
  finished_notifier_lock = none;
  finished_notification_enabled = false;
  errors = [];
  timers = 0;
  timer_calls = [];
  threads = [];
  adding = [];
  drained = [];
  handled = [];
  panicked = false;
}

unfoldable pub new_bouned_runner : {E : Type 0} → ℤ → Bool → Runner E
unfolding new_runner
new_bouned_runner max_parallel fail_fast = new_runner max_parallel 1 fail_fast

-- What `addTask` returns: the number of the task, or -1 with an error.
unfoldable pub add_result : Adding → Option (ℤ × Bool)
add_result (sent t) = some (pos t.num, true)
add_result rejected = some (negsuc 0, false)
add_result _ = none

module _ {E : Type 0} where
  -- One step of a call of `notifyFinished`, by where it stands: none when it waits for room in the channel, or
  -- has returned. A send on a closed channel and a second close panic.
  unfoldable pub notify_finished : Notifying → Runner E → Option (Notifying × Runner E)
  notify_finished entered r =
      some ((if r.finished_notifier_channel_closed then returned else tested), r)
  notify_finished tested r =
      if r.finished_notifier.closed
      then some (returned, record r { panicked = true })
      else if length r.finished_notifier.buffer == 0
      then some
          (filled, record r { finished_notifier = record { buffer = true ∷ []; closed = false } })
      else none
  notify_finished filled r = some (flagged, record r { finished_notifier_channel_closed = true })
  notify_finished flagged r = some (
    returned,
    record r {
      finished_notifier = record { buffer = r.finished_notifier.buffer; closed = true };
      panicked = r.panicked || r.finished_notifier.closed;
    },
  )
  notify_finished returned r = none

  -- The body of `doneOnce`.
  unfoldable pub done : Runner E → Runner E
  done r = if r.done_once then r else record r {
    done_once = true;
    tasks_closed = true;
    panicked = r.panicked || r.tasks_closed;
  }

  -- `Cancel` up to its once: nothing more is admitted, and the first caller enters the once.
  unfoldable pub cancel_begin : Bool → Runner E → Runner E
  unfolding done
  cancel_begin force r =
      let r' : Runner E =
        if force then done (record r { cancel = true }) else record r { cancel = true } in
      elim r'.cancel_once [ untouched ↦ record r' { cancel_once = testing } | _ ↦ r' ]

  -- The test of the loop in `Cancel`, and what follows the loop.
  unfoldable pub cancel_test : Runner E → Runner E
  cancel_test r =
      if ltb 0 (length r.tasks)
      then record r { cancel_once = receiving }
      else if r.finished_notification_enabled
      then record r { cancel_once = calling entered }
      else record r { cancel_once = finished }

  -- A step of the call of `notifyFinished` in `Cancel`, which holds no lock, and the end of the body.
  unfoldable pub cancel_notify : Notifying × Runner E → Runner E
  cancel_notify (p, r) = record r { cancel_once = calling p }

  unfoldable pub cancel_end : Runner E → Runner E
  cancel_end r = record r { cancel_once = finished }

  -- The receive in `Cancel`; from an open and empty channel nothing comes.
  unfoldable pub cancel_receive : Runner E → Option (Runner E)
  cancel_receive r = elim r.tasks [
    | t ∷ ts ↦ some (record r { tasks = ts; drained = t ∷ r.drained; cancel_once = testing })
    | [] ↦ if r.tasks_closed then some (record r { cancel_once = testing }) else none
  ]

  -- `addTask`: the number, the test of `cancel`, the count, the send.
  unfoldable pub add_begin : Bool → Runner E → Runner E
  add_begin has_on_error r = record r {
    task_id = increment r.task_id;
    adding =
        r.adding
        ++ numbered (record { num = decrement (increment r.task_id); has_on_error = has_on_error })
          ∷ [];
  }

  unfoldable pub add_check : ℕ → Task → Runner E → Runner E
  add_check j t r = record r {
    adding = put_at r.adding j (if r.cancel then rejected else admitted t);
  }

  unfoldable pub add_count : ℕ → Task → Runner E → Runner E
  add_count j t r = record r {
    total_tasks_in_queue = increment r.total_tasks_in_queue;
    adding = put_at r.adding j (counted t);
  }

  unfoldable pub add_send : ℕ → Task → Runner E → Option (Runner E)
  add_send j t r =
      if r.tasks_closed
      then some (record r { panicked = true })
      else if ltb (length r.tasks) r.capacity
      then some (record r { tasks = r.tasks ++ t ∷ []; adding = put_at r.adding j (sent t) })
      else none

  unfoldable pub add_thread : Runner E → Runner E
  add_thread r = record r {
    thread_count = increment r.thread_count;
    threads = r.threads ++ opening ∷ [];
  }

  unfoldable pub add_threads : ℕ → Runner E → Runner E
  unfolding add_thread
  add_threads zero r = r
  add_threads (suc n) r = add_threads n (add_thread r)

  -- `Run` up to its wait; `idle_timeout` is its timer, which ends at some time.
  unfoldable pub run : Runner E → Runner E
  unfolding add_threads
  run r =
      let n = if r.finished_notification_enabled then r.timers + 1 else r.timers in
      add_threads r.max_parallel (record r { timers = n })

  unfoldable pub is_started : Runner E → Bool
  is_started r = ltb 0 r.started

  unfoldable pub idle_timeout : Runner E → Runner E
  unfolding is_started
  idle_timeout r =
      let r' : Runner E = record r { timers = r.timers - 1 } in
      if not (is_started r) then record r' { timer_calls = r.timer_calls ++ entered ∷ [] } else r'

  -- A step of the call j of a timer.
  unfoldable pub timer_notify : ℕ → Notifying × Runner E → Runner E
  timer_notify j (p, r) = record r { timer_calls = put_at r.timer_calls j p }

  unfoldable pub set_max_parallel : ℤ → Runner E → Runner E
  unfolding add_threads
  set_max_parallel new_val r =
      let n = if ltb_ℤ new_val (pos 1) then 1 else pos_part new_val in
      let grown : Runner E =
        if ltb r.max_parallel n then add_threads (n - r.max_parallel) r else r in
      if n == r.max_parallel then r else record grown { max_parallel = n }

  unfoldable pub set_finished_notification : Bool → Runner E → Runner E
  set_finished_notification to_enable r = record r { finished_notification_enabled = to_enable }

  unfoldable pub reset_finish_notification_if_active : Runner E → Runner E
  reset_finish_notification_if_active r =
      if r.active_threads == 0 && r.total_tasks_in_queue == 0 || r.cancel
      then r
      else record r { finished_notifier = empty_notifier; finished_notifier_channel_closed = false }
