-- ===== src/ThreadPool.antt =====
-- base/threadPool.h and base/threadPool.cpp: `class ThreadPool`, under its mutex. `T` stands for the
-- tasks; what a task does, and the future with its result, are not part of the state.
pub mod Steps
pub mod Workers
pub mod Sound
pub mod Shutdown
mod Tests
use budd.Common.{Bool, true, not, ◌||◌, List, [], ◌∷◌, ◌++◌, if◌then◌else◌}
use budd.Outcome.{Outcome, ok, ◌>>◌, demand, logic_error}

-- `m_tasks` and `m_stop`
pub record ThreadPool (T : Type 0) : Type 0 where
  pub tasks : List T
  pub stop : Bool

-- What a worker does when it has the lock: it waits, it returns, or it takes the first task.
pub data Turn (T : Type 0) : Type 0 where
  waits leaves : Turn T
  takes : T → List T → Turn T

module _ {T : Type 0} where
  -- The constructor, but for the threads.
  abbrev pub empty_pool : ThreadPool T
  empty_pool = record { tasks = []; stop = Bool.false }

  -- What `enqueue` does under the lock.
  unfoldable pub enqueue : T → ThreadPool T → Outcome (ThreadPool T)
  enqueue t p = demand (not p.stop) logic_error >> ok (record p { tasks = p.tasks ++ t ∷ [] })

  -- `m_tasks` of a worker with the lock: the condition of `wait`, the test for the end, and `pop`.
  abbrev pub turn_on : List T → Bool → Turn T
  turn_on [] stop = if stop then leaves else waits
  turn_on (t ∷ ts) stop = takes t ts

  unfoldable pub turn : ThreadPool T → Turn T
  turn p = turn_on p.tasks p.stop

  -- What the destructor does under the lock.
  unfoldable pub set_stop : ThreadPool T → ThreadPool T
  set_stop p = record p { stop = true }
