-- ===== src/ThreadPool/Tests.antt =====
-- A pool with one worker and one task.
use mathlib.Core.List.{Perm}
use budd.Common.{ℕ, ◌+◌, ◌≤◌, ◌<◌, ◌≡◌, refl, ◌⊎◌, true, false, [], ◌∷◌, arith, length}
use budd.ThreadPool.{enqueue, turn, set_stop}
use budd.ThreadPool.Steps.{
  waiting, exited, System, start, total, Step, push, look, end_task, close, Reach, begins, steps,
}
use budd.ThreadPool.Workers.{is_ready, is_exited}
use budd.ThreadPool.Shutdown.{
  no_task_sleeps, shutdown_completes, work_left, IsOwn, destructor_returns,
}

-- The worker is blocked, and a task was pushed.
abbrev asleep : System ℕ
asleep = record (start 1) { workers = waiting ∷ [] }

abbrev pushed : System ℕ
pushed = record asleep {
  pool = record { tasks = 7 ∷ []; stop = false };
  notifies = 1;
  queued = 7 ∷ [];
}

pushed-Reach : Reach 1 pushed
unfolding enqueue turn
pushed-Reach = steps (steps begins (look [] [] refl)) (push 7 _ refl)

-- The worker of another pool has run the task, and the pool is stopped.
abbrev stopped : System ℕ
stopped = record (start 1) {
  pool = record { tasks = []; stop = true };
  notify_all_due = true;
  notifies = 1;
  queued = 7 ∷ [];
  taken = 7 ∷ [];
  ended = 7 ∷ [];
}

stopped-Reach : Reach 1 stopped
unfolding enqueue turn set_stop
stopped-Reach =
    steps (steps (steps (steps begins (push 7 _ refl)) (look [] [] refl)) (end_task 7 [] [] refl))
      (close refl)

abbrev over : System ℕ
over = record stopped { workers = exited ∷ [] }

over-Reach : Reach 1 over
unfolding turn
over-Reach = steps stopped-Reach (look [] [] refl)

no_task_sleeps_example : length pushed.pool.tasks ≤ total is_ready pushed.workers + pushed.notifies
no_task_sleeps_example = no_task_sleeps 1 pushed pushed-Reach (omega arith)

shutdown_completes_example : (over.pool.stop ≡ true) × Perm over.ended over.queued
shutdown_completes_example = shutdown_completes 1 over over-Reach (omega arith) refl

destructor_returns_example :
    ((s' : System ℕ) → Step stopped s' → work_left s' < work_left stopped)
    × ((total is_exited stopped.workers ≡ 1)
        ⊎ ((s' : System ℕ) × (st : Step stopped s') × IsOwn st))
destructor_returns_example = destructor_returns 1 stopped stopped-Reach refl
