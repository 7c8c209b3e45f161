-- ===== src/ThreadPool/Shutdown.antt =====
-- What the pool promises: the order of the tasks, no task that sleeps, and an end of the destructor.
use mathlib.Core.List as L
use mathlib.Core.List.{Perm}
use budd.Common.{
  ℕ, ◌+◌, ◌*◌, ◌≤◌, ◌<◌, ◌≡◌, refl, ap, sym, ◌∙◌, subst, ◌⊎◌, inl, inr, true, true≢false,
  Bool-cases, ◌==◌, ==_iff, List, [], ◌∷◌, ◌++◌, append-nil, arith, length, if◌then◌else◌,
}
use budd.ThreadPool.{Turn, waits, leaves, takes, turn, set_stop}
use budd.ThreadPool.Steps.{
  Worker, ready, waiting, exited, running, System, wake_all, total, is_waiting, after_turn, Step,
  push, notify_one, notify_none, wake_up, look, end_task, close, notify_all, Reach,
}
use budd.ThreadPool.Workers.{
  counted, is_ready, is_exited, running_tasks, turn-waits, turn-takes, enqueue-ok,
}
use budd.ThreadPool.Sound.{Reach-IsSound}

module _ {T : Type 0} where
  -- In every state that can be reached the tasks that were taken and those that wait are the tasks
  -- that were pushed, in that order: each task is given to one worker, the first pushed first.
  pub taken_in_order : (n : ℕ) (s : System T) → Reach n s → s.taken ++ s.pool.tasks ≡ s.queued
  taken_in_order n s r = (Reach-IsSound r).in_order

  -- In every state that can be reached in which a worker is blocked, there is for every task that
  -- waits a worker on its way to the lock or a notification that is about to be sent.
  pub no_task_sleeps :
      (n : ℕ) (s : System T)
      → Reach n s
      → 0 < total is_waiting s.workers
      → length s.pool.tasks ≤ total is_ready s.workers + s.notifies
  no_task_sleeps n s r h = (Reach-IsSound r).woken h

  total_exited-le : (ws : List (Worker T)) → total is_exited ws ≤ length ws
  total_exited-le [] = omega arith
  total_exited-le (exited ∷ ws) = omega (arith, total_exited-le ws)
  total_exited-le (ready ∷ ws) = omega (arith, total_exited-le ws)
  total_exited-le (waiting ∷ ws) = omega (arith, total_exited-le ws)
  total_exited-le (running t ∷ ws) = omega (arith, total_exited-le ws)

  all_exited : (ws : List (Worker T)) → total is_exited ws ≡ length ws → running_tasks ws ≡ []
  all_exited [] h = refl
  all_exited (exited ∷ ws) h = all_exited ws (omega arith)
  all_exited (ready ∷ ws) h = absurd (omega (arith, total_exited-le ws))
  all_exited (waiting ∷ ws) h = absurd (omega (arith, total_exited-le ws))
  all_exited (running t ∷ ws) h = absurd (omega (arith, total_exited-le ws))

  -- When all the workers of a pool that has some have returned, in a state that can be reached, the
  -- pool was stopped, and the tasks that have ended are all that were ever pushed, each once.
  pub shutdown_completes :
      (n : ℕ) (s : System T)
      → Reach n s
      → 0 < n
      → total is_exited s.workers ≡ n
      → (s.pool.stop ≡ true) × Perm s.ended s.queued
  shutdown_completes n s r some_worker all =
      let v = Reach-IsSound r in
      let (stopped, empty) = v.drained (omega arith) in
      let nothing_runs = all_exited s.workers (omega (arith, v.same_workers)) in
      let whole : s.taken ≡ s.queued =
        sym (append-nil s.taken) ∙ ap (λ x. s.taken ++ x) (sym empty) ∙ v.in_order in
      (
        stopped,
        L.Perm.symm (
            subst (λ x. Perm x s.ended) whole
              (subst (Perm s.taken) (append-nil s.ended)
                (subst (λ x. Perm s.taken (s.ended ++ x)) nothing_runs v.accounted))),
      )

  -- What is left to do once the pool is stopped.
  abbrev weight : Worker T → ℕ
  weight ready = 1
  weight waiting = 2
  weight exited = 0
  weight (running t) = 2

  abbrev pub work_left : System T → ℕ
  work_left s =
      2 * length s.pool.tasks
      + total weight s.workers
      + s.notifies
      + (if s.notify_all_due then 1 else 0)

  wake_all-le : (ws : List (Worker T)) → total weight (wake_all ws) ≤ total weight ws
  wake_all-le [] = omega arith
  wake_all-le (ready ∷ ws) = omega (arith, wake_all-le ws)
  wake_all-le (waiting ∷ ws) = omega (arith, wake_all-le ws)
  wake_all-le (exited ∷ ws) = omega (arith, wake_all-le ws)
  wake_all-le (running t ∷ ws) = omega (arith, wake_all-le ws)

  look_decreases :
      (s : System T) (front back : List (Worker T))
      → s.workers ≡ front ++ ready ∷ back
      → s.pool.stop ≡ true
      → (t : Turn T) → turn s.pool ≡ t
      → work_left (after_turn t s front back) < work_left s
  look_decreases s front back e stopped waits q =
      absurd (true≢false (sym stopped ∙ (turn-waits s.pool q).0))
  look_decreases s front back e stopped leaves q =
      omega (arith, counted front back ready exited s.workers e weight)
  look_decreases s front back e stopped (takes t ts) q = omega (
    arith,
    counted front back ready (running t) s.workers e weight,
    ap length (turn-takes s.pool t ts q),
  )

  stopped_decreases :
      {s s' : System T} → Step s s' → s.pool.stop ≡ true → work_left s' < work_left s
  unfolding set_stop
  stopped_decreases {s} (push t p e) stopped =
      absurd (true≢false (sym stopped ∙ (enqueue-ok t s.pool p e).0))
  stopped_decreases {s} (notify_one n front back e f) stopped =
      omega (arith, counted front back waiting ready s.workers f weight)
  stopped_decreases (notify_none n e f) stopped = omega arith
  stopped_decreases {s} (wake_up front back e) stopped =
      omega (arith, counted front back waiting ready s.workers e weight)
  stopped_decreases {s} (look front back e) stopped =
      look_decreases s front back e stopped (turn s.pool) refl
  stopped_decreases {s} (end_task t front back e) stopped =
      omega (arith, counted front back (running t) ready s.workers e weight)
  stopped_decreases (close e) stopped = absurd (true≢false (sym stopped ∙ e))
  stopped_decreases {s} (notify_all e) stopped = rw e (omega (arith, wake_all-le s.workers))

  -- A step that a thread takes by itself: all but a wakeup with no notification.
  abbrev pub IsOwn : {s s' : System T} → Step s s' → Type 0
  IsOwn (wake_up front back e) = ⊥
  IsOwn _ = Unit

  -- A worker that can go on without a notification.
  data CanGo (ws : List (Worker T)) : Type 0 where
    is_ready_at : (front back : List (Worker T)) → ws ≡ front ++ ready ∷ back → CanGo ws
    runs_at : (t : T) (front back : List (Worker T)) → ws ≡ front ++ running t ∷ back → CanGo ws

  CanGo-cons : (w : Worker T) (ws : List (Worker T)) → CanGo ws → CanGo (w ∷ ws)
  CanGo-cons w ws (is_ready_at front back e) = is_ready_at (w ∷ front) back (ap (◌∷◌ w) e)
  CanGo-cons w ws (runs_at t front back e) = runs_at t (w ∷ front) back (ap (◌∷◌ w) e)

  exited_or_CanGo :
      (ws : List (Worker T)) → total is_waiting ws ≡ 0 → (total is_exited ws ≡ length ws) ⊎ CanGo ws
  exited_or_CanGo [] h = inl refl
  exited_or_CanGo (ready ∷ ws) h = inr (is_ready_at [] ws refl)
  exited_or_CanGo (running t ∷ ws) h = inr (runs_at t [] ws refl)
  exited_or_CanGo (waiting ∷ ws) h = absurd (omega arith)
  exited_or_CanGo (exited ∷ ws) h = elim (exited_or_CanGo ws (omega arith)) [
    | inl all ↦ inl (omega arith)
    | inr go ↦ inr (CanGo-cons exited ws go)
  ]

  go_on : (s : System T) → CanGo s.workers → (s' : System T) × (st : Step s s') × IsOwn st
  go_on s (is_ready_at front back e) = (_, look front back e, tt)
  go_on s (runs_at t front back e) = (_, end_task t front back e, tt)

  -- From every state that can be reached in which the pool is stopped, each step makes the work
  -- that is left smaller, and as long as a worker has not returned some thread can take a step by
  -- itself: the destructor, which waits for the workers, returns, if the tasks end.
  pub destructor_returns :
      (n : ℕ) (s : System T)
      → Reach n s
      → s.pool.stop ≡ true
      → ((s' : System T) → Step s s' → work_left s' < work_left s)
        × ((total is_exited s.workers ≡ n) ⊎ ((s' : System T) × (st : Step s s') × IsOwn st))
  destructor_returns n s r stopped =
      let v = Reach-IsSound r in
      (
        λ s' st. stopped_decreases st stopped,
        elim (Bool-cases (total is_waiting s.workers == 0)) [
          | inl none ↦ elim (exited_or_CanGo s.workers ((==_iff _ _).0 none)) [
            | inl all ↦ inl (all ∙ v.same_workers)
            | inr go ↦ inr (go_on s go)
          ]
          | inr some_wait ↦ inr (_, notify_all (v.told stopped (ground (arith, some_wait))), tt)
        ],
      )
