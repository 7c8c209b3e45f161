-- ===== src/Tcp/EventLoopThread.antt =====
-- tcp/eventLoopThread.h and tcp/eventLoopThread.cpp: `class EventLoopThread`, as the steps of the
-- thread that calls `start` and of the one that runs `threadFunc`. `L` stands for pointers to event
-- loops.
pub mod Start
mod Tests
use budd.Common.{◌≡◌, Bool, true, false, not, Option, none, some}
use budd.Outcome.{Outcome, ok, ◌>>◌, demand, assertion}

-- `m_started` and `m_eventLoop`
pub record EventLoopThread (L : Type 0) : Type 0 where
  pub started : Bool
  pub event_loop : Option L

-- The thread that calls `start`: before it, before and in `wait`, behind `wait`, and with a result.
pub data Starter (L : Type 0) : Type 0 where
  before spawned waiting woken : Starter L
  returned : Option L → Starter L

-- The new thread: not there yet, with its loop but before the lock, and in `loop`.
pub data Runner : Type 0 where
  absent constructed looping : Runner

pub record System (L : Type 0) : Type 0 where
  pub thread : EventLoopThread L
  pub starter : Starter L
  pub runner : Runner

module _ {L : Type 0} where
  -- The constructor.
  abbrev pub create : EventLoopThread L
  create = record { started = false; event_loop = none }

  abbrev pub new : System L
  new = record { thread = create; starter = before; runner = absent }

  -- The assertion of `start`.
  unfoldable pub check_start : EventLoopThread L → Outcome (EventLoopThread L)
  check_start t = demand (not t.started) assertion >> ok t

  -- The end of `start`: the state, and what is returned.
  unfoldable pub finish_start : EventLoopThread L → Option L × EventLoopThread L
  finish_start t = (t.event_loop, record t { started = true })

  -- What `threadFunc` stores under the lock.
  unfoldable pub publish : L → EventLoopThread L → EventLoopThread L
  publish loop t = record t { event_loop = some loop }

  -- `notify_one` reaches the starter only if it is in `wait`.
  abbrev pub notify : Starter L → Starter L
  notify waiting = woken
  notify s = s

  -- `loop` is the loop that the new thread constructs.
  pub data Step (loop : L) (s : System L) : System L → Type 0 where
    spawn :
        s.starter ≡ before
        → check_start s.thread ≡ ok s.thread
        → Step loop s (record s { starter = spawned; runner = constructed })
    wait : s.starter ≡ spawned → Step loop s (record s { starter = waiting })
    store :
        s.runner ≡ constructed
        → Step loop s (record s {
          thread = publish loop s.thread;
          starter = notify s.starter;
          runner = looping;
        })
    -- a return of `wait` with no notification
    wake_up : s.starter ≡ waiting → Step loop s (record s { starter = woken })
    finish :
        s.starter ≡ woken
        → Step loop s (record s {
          thread = (finish_start s.thread).1;
          starter = returned (finish_start s.thread).0;
        })

  -- All steps but a return of `wait` with no notification.
  abbrev pub IsOwn : {loop : L} {s s' : System L} → Step loop s s' → Type 0
  IsOwn (wake_up e) = ⊥
  IsOwn _ = Unit

  pub data Reach (loop : L) : System L → Type 0 where
    begins : Reach loop new
    steps : {s s' : System L} → Reach loop s → Step loop s s' → Reach loop s'

  -- The states that are reached with no such return.
  pub data OwnReach (loop : L) : System L → Type 0 where
    begins : OwnReach loop new
    steps :
        {s s' : System L} → OwnReach loop s → (st : Step loop s s') → IsOwn st → OwnReach loop s'
