-- ===== src/Tcp/EventLoop/Wakeup.antt =====
-- No task is lost, and none waits while the loop sleeps, but for those of before the loop.
use budd.Common.{
  ◌+◌, ◌<◌, ◌≡◌, ◌≢◌, refl, ap, sym, ◌∙◌, subst, true, false, true≢false, List, [], ◌∷◌, ◌++◌,
  append-nil, append_assoc, arith,
}
use budd.Tcp.EventLoop.{
  EventLoop, wakeup, push_task, queue_in_loop, handle_read, begin_tasks, end_tasks,
}
use budd.Tcp.EventLoop.Steps.{
  selecting, is_calling, is_handling, System, start, Step, early_queue, loop_begins, other_push,
  other_wakeup, select_returns, handler_read, own_queue, task_queue, tasks_begin, task_run,
  tasks_end, Reach, begins, steps,
}

module _ {K : Type 0} where
  pub record IsSound (s : System K) : Type 0 where
    -- the tasks are started once, in the order in which they were pushed
    pub in_order : s.ran ++ (s.temp_task_q ++ s.loop.task_q) ≡ s.queued
    pub flag : s.loop.calling_task ≡ is_calling s.phase
    pub no_temp : is_calling s.phase ≡ false → s.temp_task_q ≡ []
    -- outside of the handlers, if no task of before `loop` waits, a task that waits has a wakeup that is there or on its way
    pub woken :
        is_handling s.phase ≡ false
        → s.early ≡ []
        → s.loop.task_q ≢ []
        → 0 < s.loop.wakeup_count + s.in_flight

  pushed :
      (ran temp q queued : List K) (t : K)
      → ran ++ (temp ++ q) ≡ queued
      → ran ++ (temp ++ (q ++ t ∷ [])) ≡ queued ++ t ∷ []
  pushed ran temp q queued t e =
      ap (λ x. ran ++ x) (sym (append_assoc temp q (t ∷ [])))
      ∙ sym (append_assoc ran (temp ++ q) (t ∷ []))
      ∙ ap (λ x. x ++ t ∷ []) e

  snoc-nil : (xs : List K) (t : K) → xs ++ t ∷ [] ≢ []
  snoc-nil [] t e = cc
  snoc-nil (x ∷ xs) t e = cc

  queue-quiet :
      (t : K) (l : EventLoop K) → l.calling_task ≡ false → queue_in_loop true t l ≡ push_task t l
  unfolding queue_in_loop push_task
  queue-quiet t l e = rw e refl

  queue-loud :
      (t : K) (l : EventLoop K)
      → l.calling_task ≡ true
      → queue_in_loop true t l ≡ wakeup (push_task t l)
  unfolding queue_in_loop push_task
  queue-loud t l e = rw e refl

  Step-IsSound : (s s' : System K) → Step s s' → IsSound s → IsSound s'
  unfolding push_task wakeup queue_in_loop handle_read begin_tasks end_tasks
  Step-IsSound s s' (other_push s₁ t) v = record {
    in_order = pushed s.ran s.temp_task_q s.loop.task_q s.queued t v.in_order;
    flag = v.flag;
    no_temp = v.no_temp;
    woken = λ h none k. omega arith;
  }
  Step-IsSound s s' (other_wakeup s₁ n e) v = record {
    in_order = v.in_order;
    flag = v.flag;
    no_temp = v.no_temp;
    woken = λ h none k. omega arith;
  }
  Step-IsSound s s' (early_queue s₁ t e) v =
      let quiet = queue-quiet t s.loop (v.flag ∙ ap is_calling e) in
      subst
        (λ l.
          IsSound (record s { loop = l; queued = s.queued ++ t ∷ []; early = s.early ++ t ∷ [] }))
        (sym quiet)
        (record {
          in_order = pushed s.ran s.temp_task_q s.loop.task_q s.queued t v.in_order;
          flag = v.flag;
          no_temp = v.no_temp;
          woken = λ h none k. absurd (snoc-nil s.early t none);
        })
  Step-IsSound s s' (loop_begins s₁ e) v = record {
    in_order = v.in_order;
    flag = v.flag ∙ ap is_calling e;
    no_temp = λ h. v.no_temp (ap is_calling e);
    woken = λ h none k. v.woken (ap is_handling e) none k;
  }
  Step-IsSound s s' (select_returns s₁ e) v = record {
    in_order = v.in_order;
    flag = v.flag ∙ ap is_calling e;
    no_temp = λ h. v.no_temp (ap is_calling e);
    woken = λ h none k. absurd (true≢false h);
  }
  Step-IsSound s s' (handler_read s₁ e) v = record {
    in_order = v.in_order;
    flag = v.flag;
    no_temp = v.no_temp;
    woken = λ h none k. absurd (true≢false (sym (ap is_handling e) ∙ h));
  }
  Step-IsSound s s' (own_queue s₁ t e) v =
      let quiet = queue-quiet t s.loop (v.flag ∙ ap is_calling e) in
      subst (λ l. IsSound (record s { loop = l; queued = s.queued ++ t ∷ [] })) (sym quiet)
        (record {
          in_order = pushed s.ran s.temp_task_q s.loop.task_q s.queued t v.in_order;
          flag = v.flag;
          no_temp = v.no_temp;
          woken = λ h none k. absurd (true≢false (sym (ap is_handling e) ∙ h));
        })
  Step-IsSound s s' (task_queue s₁ t e) v =
      let loud = queue-loud t s.loop (v.flag ∙ ap is_calling e) in
      subst (λ l. IsSound (record s { loop = l; queued = s.queued ++ t ∷ [] })) (sym loud)
        (record {
          in_order = pushed s.ran s.temp_task_q s.loop.task_q s.queued t v.in_order;
          flag = v.flag;
          no_temp = v.no_temp;
          woken = λ h none k. omega arith;
        })
  Step-IsSound s s' (tasks_begin s₁ e) v = record {
    in_order =
        ap (λ x. s.ran ++ x) (append-nil s.loop.task_q)
        ∙ ap (λ x. s.ran ++ (x ++ s.loop.task_q)) (sym (v.no_temp (ap is_calling e)))
        ∙ v.in_order;
    flag = refl;
    no_temp = λ h. absurd (true≢false h);
    woken = λ h none k. absurd (k refl);
  }
  Step-IsSound s s' (task_run s₁ t ts e f) v = record {
    in_order =
        append_assoc s.ran (t ∷ []) (ts ++ s.loop.task_q)
        ∙ ap (λ x. s.ran ++ (x ++ s.loop.task_q)) (sym f)
        ∙ v.in_order;
    flag = v.flag;
    no_temp = λ h. absurd (true≢false (sym (ap is_calling e) ∙ h));
    woken = v.woken;
  }
  Step-IsSound s s' (tasks_end s₁ e f) v = record {
    in_order = v.in_order;
    flag = refl;
    no_temp = λ h. f;
    woken = λ h none k. v.woken (ap is_handling e) none k;
  }

  Reach-IsSound : (s : System K) → Reach s → IsSound s
  Reach-IsSound s begins = record {
    in_order = refl;
    flag = refl;
    no_temp = λ h. refl;
    woken = λ h none k. absurd (k refl);
  }
  Reach-IsSound s (steps s₁ s' r step) = Step-IsSound s₁ s step (Reach-IsSound s₁ r)

  -- In every state that the loop and the other threads can reach, the tasks that were started,
  -- those that `execTasks` has taken and those that wait are together the tasks that were pushed, in
  -- the order of their pushes: each task is started at most once and none is lost.
  pub tasks_in_order :
      (s : System K) → Reach s → s.ran ++ (s.temp_task_q ++ s.loop.task_q) ≡ s.queued
  tasks_in_order s r = (Reach-IsSound s r).in_order

  -- In every state that can be reached in which the loop is in `select`, a task waits, and no task
  -- waits that the thread of the loop queued before it called `loop`, the `eventfd` is readable, or a
  -- thread that pushed a task is about to make it so.
  pub no_lost_wakeup :
      (s : System K)
      → Reach s
      → s.phase ≡ selecting
      → s.early ≡ []
      → s.loop.task_q ≢ []
      → 0 < s.loop.wakeup_count + s.in_flight
  no_lost_wakeup s r e none k = (Reach-IsSound s r).woken (ap is_handling e) none k

  -- A task that the thread of the loop queued before it called `loop` may wait in `select` with no wakeup,
  -- there or on its way.
  early_task_waits :
      (t : K)
      → (s : System K) × Reach s
        × (s.phase ≡ selecting)
        × (s.loop.task_q ≡ t ∷ [])
        × (s.loop.wakeup_count + s.in_flight ≡ 0)
  unfolding queue_in_loop push_task
  early_task_waits t = (
    _,
    steps _ _ (steps _ _ begins (early_queue start t refl)) (loop_begins _ refl),
    refl,
    refl,
    refl,
  )
