-- ===== src/ThreadPool/Steps.antt =====
-- The workers, the threads that call `enqueue` and the one that calls the destructor, as steps. A
-- step is what a thread does under the mutex, or one notification.
use budd.Common.{ℕ, zero, suc, ◌+◌, ◌≡◌, Bool, true, false, List, [], ◌∷◌, ◌++◌}
use budd.Outcome.{ok}
use budd.ThreadPool.{ThreadPool, Turn, waits, leaves, takes, empty_pool, enqueue, turn, set_stop}

-- Where a worker stands: it wants the lock, it is blocked in `wait`, it runs a task, or its function
-- has returned.
pub data Worker (T : Type 0) : Type 0 where
  ready waiting exited : Worker T
  running : T → Worker T

-- `notifies` counts the calls of `enqueue` that have pushed a task and not yet called `notify_one`;
-- `notify_all_due` says that the destructor is between the lock and `notify_all`. All tasks ever
-- pushed are in `queued`, all that were taken in `taken`, all that have ended in `ended`.
pub record System (T : Type 0) : Type 0 where
  pub pool : ThreadPool T
  pub workers : List (Worker T)
  pub notifies : ℕ
  pub notify_all_due : Bool
  pub queued : List T
  pub taken : List T
  pub ended : List T

module _ {T : Type 0} where
  abbrev pub workers_of : ℕ → List (Worker T)
  workers_of zero = []
  workers_of (suc n) = ready ∷ workers_of n

  -- The pool that the constructor makes.
  abbrev pub start : ℕ → System T
  start worker_count = record {
    pool = empty_pool;
    workers = workers_of worker_count;
    notifies = 0;
    notify_all_due = false;
    queued = [];
    taken = [];
    ended = [];
  }

  -- `notify_all`
  abbrev pub wake : Worker T → Worker T
  wake waiting = ready
  wake w = w

  abbrev pub wake_all : List (Worker T) → List (Worker T)
  wake_all [] = []
  wake_all (w ∷ ws) = wake w ∷ wake_all ws

  -- The number of workers of a kind, and of any other measure of theirs.
  abbrev pub total : (Worker T → ℕ) → List (Worker T) → ℕ
  total f [] = 0
  total f (w ∷ ws) = f w + total f ws

  abbrev pub is_waiting : Worker T → ℕ
  is_waiting waiting = 1
  is_waiting _ = 0

  -- The state behind the turn of the worker between `front` and `back`.
  abbrev pub after_turn : Turn T → System T → List (Worker T) → List (Worker T) → System T
  after_turn waits s front back = record s { workers = front ++ waiting ∷ back }
  after_turn leaves s front back = record s { workers = front ++ exited ∷ back }
  after_turn (takes t ts) s front back = record s {
    pool = record s.pool { tasks = ts };
    workers = front ++ running t ∷ back;
    taken = s.taken ++ t ∷ [];
  }

  pub data Step (s : System T) : System T → Type 0 where
    -- `enqueue`: the push, and later the notification of a worker, or of none
    push :
        (t : T) (p : ThreadPool T)
        → enqueue t s.pool ≡ ok p
        → Step s (record s { pool = p; notifies = suc s.notifies; queued = s.queued ++ t ∷ [] })
    notify_one :
        (n : ℕ) (front back : List (Worker T))
        → s.notifies ≡ suc n
        → s.workers ≡ front ++ waiting ∷ back
        → Step s (record s { notifies = n; workers = front ++ ready ∷ back })
    notify_none :
        (n : ℕ)
        → s.notifies ≡ suc n
        → total is_waiting s.workers ≡ 0
        → Step s (record s { notifies = n })
    -- a worker wakes up without a notification
    wake_up :
        (front back : List (Worker T))
        → s.workers ≡ front ++ waiting ∷ back
        → Step s (record s { workers = front ++ ready ∷ back })
    -- a worker has the lock
    look :
        (front back : List (Worker T))
        → s.workers ≡ front ++ ready ∷ back
        → Step s (after_turn (turn s.pool) s front back)
    -- a task ends
    end_task :
        (t : T) (front back : List (Worker T))
        → s.workers ≡ front ++ running t ∷ back
        → Step s (record s { workers = front ++ ready ∷ back; ended = s.ended ++ t ∷ [] })
    -- the destructor: the flag, and later `notify_all`
    close :
        s.pool.stop ≡ false → Step s (record s { pool = set_stop s.pool; notify_all_due = true })
    notify_all :
        s.notify_all_due ≡ true
        → Step s (record s { notify_all_due = false; workers = wake_all s.workers })

  pub data Reach (n : ℕ) : System T → Type 0 where
    begins : Reach n (start n)
    steps : {s s' : System T} → Reach n s → Step s s' → Reach n s'
