-- ===== src/ThreadPool/Sound.antt =====
-- What holds in every state of the pool that can be reached.
use mathlib.Core.List as L
use mathlib.Core.List.{
  Perm, perm_append_singleton, perm_middle, perm-append_left_iff, perm-append_right_iff,
}
use budd.Common.{
  ℕ, zero, suc, ◌+◌, ◌≤◌, ◌<◌, ◌≡◌, refl, ap, sym, ◌∙◌, subst, true, true≢false, List, [], ◌∷◌,
  ◌++◌, append_assoc, arith, length, length-append,
}
use budd.ThreadPool.{Turn, waits, leaves, takes, turn, set_stop}
use budd.ThreadPool.Steps.{
  Worker, ready, waiting, exited, running, System, workers_of, start, total, is_waiting, after_turn,
  Step, push, notify_one, notify_none, wake_up, look, end_task, close, notify_all, Reach, begins,
  steps,
}
use budd.ThreadPool.Workers.{
  counted, same_length, same_running, perm_starts, perm_ends, is_ready, is_exited, running_tasks,
  running_tasks-append, total_waiting-wake_all, total_exited-wake_all, running_tasks-wake_all,
  length-wake_all, turn-waits, turn-leaves, turn-takes, enqueue-ok,
}

length-workers_of : (T : Type 0) (n : ℕ) → length (workers_of {T = T} n) ≡ n
length-workers_of T zero = refl
length-workers_of T (suc n) = omega (arith, length-workers_of T n)

none_exited : (T : Type 0) (n : ℕ) → total is_exited (workers_of {T = T} n) ≡ 0
none_exited T zero = refl
none_exited T (suc n) = omega (arith, none_exited T n)

none_running : (T : Type 0) (n : ℕ) → running_tasks (workers_of {T = T} n) ≡ []
none_running T zero = refl
none_running T (suc n) = none_running T n

module _ {T : Type 0} where
  pub record IsSound (n : ℕ) (s : System T) : Type 0 where
    pub same_workers : length s.workers ≡ n
    pub in_order : s.taken ++ s.pool.tasks ≡ s.queued
    pub drained : 0 < total is_exited s.workers → (s.pool.stop ≡ true) × (s.pool.tasks ≡ [])
    pub told : s.pool.stop ≡ true → 0 < total is_waiting s.workers → s.notify_all_due ≡ true
    -- while a worker is blocked, every task that waits has a worker or a notification of its own
    pub woken :
        0 < total is_waiting s.workers → length s.pool.tasks ≤ total is_ready s.workers + s.notifies
    pub accounted : Perm s.taken (s.ended ++ running_tasks s.workers)

  -- A blocked worker becomes ready.
  woken-IsSound :
      {n : ℕ} (s : System T) (m : ℕ) (front back : List (Worker T))
      → s.workers ≡ front ++ waiting ∷ back
      → s.notifies ≤ suc m
      → IsSound n s
      → IsSound n (record s { notifies = m; workers = front ++ ready ∷ back })
  woken-IsSound s m front back e few v = record {
    same_workers = same_length front back waiting ready s.workers e ∙ v.same_workers;
    in_order = v.in_order;
    drained = λ h. v.drained (omega (arith, moved is_exited));
    told = λ b h. v.told b (omega (arith, moved is_waiting));
    woken = λ h. omega (arith, v.woken (omega (arith, moved is_waiting)), moved is_ready);
    accounted =
        subst (λ x. Perm s.taken (s.ended ++ x))
          (sym (same_running front back waiting ready s.workers e refl)) v.accounted;
  }
    where
      moved :
          (f : Worker T → ℕ)
          → total f (front ++ ready ∷ back) + f waiting ≡ total f s.workers + f ready
      moved = counted front back waiting ready s.workers e

  look-IsSound :
      {n : ℕ} (s : System T) (front back : List (Worker T))
      → s.workers ≡ front ++ ready ∷ back
      → IsSound n s
      → (t : Turn T) → turn s.pool ≡ t
      → IsSound n (after_turn t s front back)
  look-IsSound s front back e v waits q =
      let (going, empty) = turn-waits s.pool q in
      let moved = counted front back ready waiting s.workers e in
      record {
        same_workers = same_length front back ready waiting s.workers e ∙ v.same_workers;
        in_order = v.in_order;
        drained = λ h. v.drained (omega (arith, moved is_exited));
        told = λ b h. absurd (true≢false (sym b ∙ going));
        woken = λ h. omega (arith, ap length empty);
        accounted =
            subst (λ x. Perm s.taken (s.ended ++ x))
              (sym (same_running front back ready waiting s.workers e refl)) v.accounted;
      }
  look-IsSound s front back e v leaves q =
      let (stopped, empty) = turn-leaves s.pool q in
      let moved = counted front back ready exited s.workers e in
      record {
        same_workers = same_length front back ready exited s.workers e ∙ v.same_workers;
        in_order = v.in_order;
        drained = λ h. (stopped, empty);
        told = λ b h. v.told b (omega (arith, moved is_waiting));
        woken = λ h. omega (arith, ap length empty);
        accounted =
            subst (λ x. Perm s.taken (s.ended ++ x))
              (sym (same_running front back ready exited s.workers e refl)) v.accounted;
      }
  look-IsSound s front back e v (takes t ts) q =
      let first = turn-takes s.pool t ts q in
      let moved = counted front back ready (running t) s.workers e in
      record {
        same_workers = same_length front back ready (running t) s.workers e ∙ v.same_workers;
        in_order =
            append_assoc s.taken (t ∷ []) ts ∙ ap (λ x. s.taken ++ x) (sym first) ∙ v.in_order;
        drained = λ h.
            let (stopped, empty) = v.drained (omega (arith, moved is_exited)) in
            absurd (omega (arith, ap length empty, ap length first));
        told = λ b h. v.told b (omega (arith, moved is_waiting));
        woken = λ h.
            omega
              (arith, v.woken (omega (arith, moved is_waiting)), moved is_ready, ap length first);
        accounted =
            subst (λ x. Perm (s.taken ++ t ∷ []) (s.ended ++ x))
              (sym (running_tasks-append front (running t ∷ back)))
              (perm_starts s.ended (running_tasks front) (running_tasks back) t s.taken (
                subst (λ x. Perm s.taken (s.ended ++ x))
                  (ap running_tasks e ∙ running_tasks-append front (ready ∷ back)) v.accounted));
      }

  Step-IsSound : {n : ℕ} {s s' : System T} → Step s s' → IsSound n s → IsSound n s'
  unfolding set_stop
  Step-IsSound {n} {s} (push t p e) v =
      let (going, q) = enqueue-ok t s.pool p e in
      let put : p.tasks ≡ s.pool.tasks ++ t ∷ [] = ap (λ x. x.tasks) q in
      let same : p.stop ≡ s.pool.stop = ap (λ x. x.stop) q in
      let size = length-append s.pool.tasks (t ∷ []) in
      record {
        same_workers = v.same_workers;
        in_order =
            ap (λ x. s.taken ++ x) put
            ∙ sym (append_assoc s.taken s.pool.tasks (t ∷ []))
            ∙ ap (λ x. x ++ t ∷ []) v.in_order;
        drained = λ h. absurd (true≢false (sym (v.drained h).0 ∙ going));
        told = λ b h. v.told (sym same ∙ b) h;
        woken = λ h. omega (arith, v.woken h, ap length put, size);
        accounted = v.accounted;
      }
  Step-IsSound {n} {s} (notify_one m front back e f) v =
      woken-IsSound s m front back f (omega arith) v
  Step-IsSound {n} {s} (notify_none m e f) v = record {
    same_workers = v.same_workers;
    in_order = v.in_order;
    drained = v.drained;
    told = v.told;
    woken = λ h. absurd (omega arith);
    accounted = v.accounted;
  }
  Step-IsSound {n} {s} (wake_up front back e) v =
      woken-IsSound s s.notifies front back e (omega arith) v
  Step-IsSound {n} {s} (look front back e) v = look-IsSound s front back e v (turn s.pool) refl
  Step-IsSound {n} {s} (end_task t front back e) v =
      let moved = counted front back (running t) ready s.workers e in
      record {
        same_workers = same_length front back (running t) ready s.workers e ∙ v.same_workers;
        in_order = v.in_order;
        drained = λ h. v.drained (omega (arith, moved is_exited));
        told = λ b h. v.told b (omega (arith, moved is_waiting));
        woken = λ h. omega (arith, v.woken (omega (arith, moved is_waiting)), moved is_ready);
        accounted =
            subst (λ x. Perm s.taken ((s.ended ++ t ∷ []) ++ x))
              (sym (running_tasks-append front (ready ∷ back)))
              (perm_ends s.ended (running_tasks front) (running_tasks back) t s.taken (
                subst (λ x. Perm s.taken (s.ended ++ x))
                  (ap running_tasks e ∙ running_tasks-append front (running t ∷ back))
                  v.accounted));
      }
  Step-IsSound {n} {s} (close e) v = record {
    same_workers = v.same_workers;
    in_order = v.in_order;
    drained = λ h. absurd (true≢false (sym (v.drained h).0 ∙ e));
    told = λ b h. refl;
    woken = v.woken;
    accounted = v.accounted;
  }
  Step-IsSound {n} {s} (notify_all e) v =
      let none_waits = total_waiting-wake_all s.workers in
      record {
        same_workers = length-wake_all s.workers ∙ v.same_workers;
        in_order = v.in_order;
        drained = λ h. v.drained (omega (arith, total_exited-wake_all s.workers));
        told = λ b h. absurd (omega (arith, none_waits));
        woken = λ h. absurd (omega (arith, none_waits));
        accounted =
            subst (λ x. Perm s.taken (s.ended ++ x)) (sym (running_tasks-wake_all s.workers))
              v.accounted;
      }

  start-IsSound : (n : ℕ) → IsSound n (start n)
  start-IsSound n = record {
    same_workers = length-workers_of T n;
    in_order = refl;
    drained = λ h. absurd (omega (arith, none_exited T n));
    told = λ b h. absurd (true≢false (sym b));
    woken = λ h. omega arith;
    accounted = subst (λ x. Perm [] x) (sym (none_running T n)) (L.Perm.refl []);
  }

  pub Reach-IsSound : {n : ℕ} {s : System T} → Reach n s → IsSound n s
  Reach-IsSound {n} begins = start-IsSound n
  Reach-IsSound (steps r st) = Step-IsSound st (Reach-IsSound r)
