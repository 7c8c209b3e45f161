-- ===== src/Tcp/EventLoop/Round.antt =====
-- A task that another thread hands to a waiting loop is run in the next round.
use budd.Common.{
  ℕ, ◌<◌, ◌≡◌, refl, ap, ◌∙◌, true, false, Option, none, some, List, [], ◌∷◌, ◌++◌, arith,
}
use budd.Outcome.{Outcome, ok, err, ◌>>=◌}
use budd.Tcp.Channel.{
  Channel, error_event, has_event, read_event, write_event, handle_events, call_if,
}
use budd.Tcp.EventLoop.{wakeup, push_task, queue_in_loop, handle_read, begin_tasks, end_tasks}
use budd.Tcp.EventLoop.Loop.{
  Loop, channel_at, read_wakeup, run_tasks, exec_tasks, handle_all, round,
}
use budd.Tcp.Selector.Interest.{put_same}
use budd.Tcp.Selector.{Handle, Selector, set_revents, activate, select, reported}

pub select-wakeup :
    {E : Type 0} (fd p : ℕ) (s : Selector E)
    → s.channel_maps fd ≡ some p
    → select (reported ((fd, 1) ∷ [])) s ≡ ok (p ∷ [], set_revents p 1 s)
unfolding select activate
select-wakeup fd p s at = rw at refl

call_if-false : {S : Type 0} (o : Option (S → Outcome S)) (s : S) → call_if false o s ≡ ok s
unfolding call_if
call_if-false none s = refl
call_if-false (some f) s = refl

bind-ok :
    {S : Type 0} (o : Outcome S) {next : S → Outcome S}
    → ((s : S) → next s ≡ ok s)
    → (o >>= next) ≡ o
bind-ok (ok s) h = h s
bind-ok (err e) h = refl

module _ {E K W : Type 0} where
  -- The tasks one after another, when they all end.
  abbrev pub act_all : (K → Loop E K W → Loop E K W) → List K → Loop E K W → Loop E K W
  act_all act [] s = s
  act_all act (t ∷ ts) s = act_all act ts (act t s)

  run_tasks-act_all :
      (call : K → Loop E K W → Outcome (Loop E K W)) (act : K → Loop E K W → Loop E K W)
      → ((t : K) (s : Loop E K W) → call t s ≡ ok (act t s))
      → (ts : List K) (s : Loop E K W) → run_tasks call ts s ≡ ok (act_all act ts s)
  unfolding run_tasks
  run_tasks-act_all call act ends [] s = refl
  run_tasks-act_all call act ends (t ∷ ts) s =
      ap (λ o. o >>= λ s'. run_tasks call ts s') (ends t s)
      ∙ run_tasks-act_all call act ends ts (act t s)

  -- A channel that is reported readable, and nothing else, runs its read callback.
  pub handle_events-read :
      (c : Channel (Loop E K W)) (f : Loop E K W → Outcome (Loop E K W)) (s : Loop E K W)
      → c.revents ≡ 1
      → c.read_callback ≡ some f
      → handle_events c s ≡ f s
  unfolding handle_events call_if
  handle_events-read c f s revents reads =
      ap
        (λ e. call_if (has_event e error_event) c.error_callback s >>= λ s₁.
          call_if (has_event e read_event) c.read_callback s₁ >>= λ s₂.
          call_if (has_event e write_event) c.write_callback s₂)
        revents
      ∙ rw (call_if-false c.error_callback s, reads)
          (bind-ok (f s) (λ r. call_if-false c.write_callback r))

  -- The end of `execTasks`.
  abbrev pub ended : Loop E K W → Loop E K W
  ended s = record s { event_loop = end_tasks s.event_loop }

  exec_tasks-act_all :
      (call : K → Loop E K W → Outcome (Loop E K W)) (act : K → Loop E K W → Loop E K W)
      → ((t : K) (s : Loop E K W) → call t s ≡ ok (act t s))
      → (s : Loop E K W)
      → let ran =
          act_all act s.event_loop.task_q
            (record s { event_loop = (begin_tasks s.event_loop).1 }) in
        exec_tasks call s ≡ ok (ended ran)
  unfolding exec_tasks begin_tasks
  exec_tasks-act_all call act ends s =
      ap (λ (o : Outcome (Loop E K W)). o >>= λ r. ok (ended r))
        (run_tasks-act_all call act ends s.event_loop.task_q _)

  -- The state in which the tasks of the round begin: no task waits and the eventfd was read.
  abbrev pub at_tasks : ℕ → Loop E K W → Loop E K W
  at_tasks p s = record s {
    event_loop = record { task_q = []; calling_task = true; wakeup_count = 0 };
    selector = set_revents p 1 s.selector;
    active_channel_list = p ∷ [];
  }

  -- Let p be the channel of the eventfd, registered, with the callback that reads it, and let all tasks
  -- end. When another thread has queued a task, the eventfd is readable, and the round in which
  -- it is reported reads it, runs the tasks that waited and then the new one, each once and in order, and
  -- ends.
  pub queued_task_runs :
      (call : K → Loop E K W → Outcome (Loop E K W)) (act : K → Loop E K W → Loop E K W)
      (callbacks : ℕ → Channel (Loop E K W)) (fd p : ℕ) (t : K) (s : Loop E K W)
      → ((u : K) (r : Loop E K W) → call u r ≡ ok (act u r))
      → s.selector.channel_maps fd ≡ some p
      → (callbacks p).read_callback ≡ some read_wakeup
      → let queued = record s { event_loop = queue_in_loop false t s.event_loop } in
        let ran = act_all act (s.event_loop.task_q ++ t ∷ []) (at_tasks p s) in
        (0 < queued.event_loop.wakeup_count)
        × (round call callbacks (reported ((fd, 1) ∷ [])) queued ≡ ok (ended ran))
  unfolding round handle_all queue_in_loop push_task wakeup begin_tasks handle_read
  queued_task_runs call act callbacks fd p t s ends at reads = (
    omega arith,
    rw
        (
          select-wakeup fd p s.selector at,
          handle_events-read (channel_at call callbacks p ((set_revents p 1 s.selector).channels p))
              read_wakeup ready (ap Handle.revents (put_same p _ s.selector.channels)) reads,
        )
        (exec_tasks-act_all call act ends _),
  )
    where
      ready : Loop E K W
      ready = record s {
        event_loop = wakeup (push_task t s.event_loop);
        selector = set_revents p 1 s.selector;
        active_channel_list = p ∷ [];
      }
