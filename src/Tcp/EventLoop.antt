-- ===== src/Tcp/EventLoop.antt =====
-- tcp/eventLoop.h and tcp/eventLoop.cpp: the tasks of `class EventLoop` and what wakes it up.
-- The tasks are keys of a type `K`.
pub mod Steps
pub mod Wakeup
pub mod Loop
pub mod Round
pub mod Readable
pub mod Quit
pub mod Timers
pub mod Expiry
pub mod Create
pub mod Destroy
mod Tests
use budd.Common.{ℕ, zero, suc, Bool, true, false, not, ◌||◌, List, [], ◌∷◌, ◌++◌, if◌then◌else◌}

-- `wakeup_count` is the counter of the `eventfd` behind `m_wakeupFd`.
pub record EventLoop (K : Type 0) : Type 0 where
  pub task_q : List K
  pub calling_task : Bool
  pub wakeup_count : ℕ

module _ {K : Type 0} where
  unfoldable pub wakeup : EventLoop K → EventLoop K
  wakeup l = record l { wakeup_count = suc l.wakeup_count }

  -- What `queueInLoop` does under the lock.
  unfoldable pub push_task : K → EventLoop K → EventLoop K
  push_task t l = record l { task_q = l.task_q ++ t ∷ [] }

  -- `is_in_loop_thread` tells which thread calls.
  unfoldable pub queue_in_loop : Bool → K → EventLoop K → EventLoop K
  queue_in_loop is_in_loop_thread t l =
      let l' = push_task t l in if not is_in_loop_thread || l'.calling_task then wakeup l' else l'

  -- A read of an `eventfd` sets its counter to 0.
  unfoldable pub handle_read : EventLoop K → EventLoop K
  handle_read l = record l { wakeup_count = zero }

  -- `execTasks` up to its loop: the tasks that it takes, and the event loop.
  unfoldable pub begin_tasks : EventLoop K → List K × EventLoop K
  begin_tasks l = (l.task_q, record l { calling_task = true; task_q = [] })

  unfoldable pub end_tasks : EventLoop K → EventLoop K
  end_tasks l = record l { calling_task = false }
