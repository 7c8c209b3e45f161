-- ===== src/Tcp/EventLoop/Readable.antt =====
-- A round in which the kernel reports one channel as readable.
use budd.Common.{ℕ, ◌≡◌, refl, ap, ◌∙◌, false, some, [], ◌∷◌}
use budd.Outcome.{Outcome, ok, ◌>>=◌}
use budd.Tcp.Channel.{Channel}
use budd.Tcp.EventLoop.{begin_tasks, end_tasks}
use budd.Tcp.EventLoop.Loop.{Loop, channel_at, run_tasks, exec_tasks, handle_all, round}
use budd.Tcp.EventLoop.Round.{select-wakeup, handle_events-read}
use budd.Tcp.Selector.{Handle, set_revents, reported}
use budd.Tcp.Selector.Interest.{put_same}

module _ {E K W : Type 0} where
  -- The state in which the handlers of a round begin that reports the channel `p` as readable.
  abbrev pub reading : ℕ → Loop E K W → Loop E K W
  reading p s = record s { selector = set_revents p 1 s.selector; active_channel_list = p ∷ [] }

  -- The state behind `execTasks` when no task waits.
  abbrev pub idle : Loop E K W → Loop E K W
  idle s = record s { event_loop = record s.event_loop { task_q = []; calling_task = false } }

  -- A round that reports one registered channel as readable runs its read callback, and then the tasks.
  pub round-exec_tasks :
      (call : K → Loop E K W → Outcome (Loop E K W)) (callbacks : ℕ → Channel (Loop E K W))
      (fd p : ℕ) (f : Loop E K W → Outcome (Loop E K W)) (s s' : Loop E K W)
      → s.selector.channel_maps fd ≡ some p
      → (callbacks p).read_callback ≡ some f
      → f (reading p s) ≡ ok s'
      → round call callbacks (reported ((fd, 1) ∷ [])) s ≡ exec_tasks call s'
  unfolding round handle_all
  round-exec_tasks call callbacks fd p f s s' at reads runs =
      rw
        (
          select-wakeup fd p s.selector at,
          handle_events-read (channel_at call callbacks p ((set_revents p 1 s.selector).channels p))
              f (reading p s) (ap Handle.revents (put_same p _ s.selector.channels)) reads,
          runs,
        )
        refl

  exec_tasks-none :
      (call : K → Loop E K W → Outcome (Loop E K W)) (s : Loop E K W)
      → s.event_loop.task_q ≡ []
      → exec_tasks call s ≡ ok (idle s)
  unfolding exec_tasks begin_tasks end_tasks run_tasks
  exec_tasks-none call s none_wait =
      ap
        (λ ts. run_tasks call ts (record s { event_loop = (begin_tasks s.event_loop).1 }) >>= λ r.
          ok (record r { event_loop = end_tasks r.event_loop }))
        none_wait

  -- When no task waits behind the callback, the round ends.
  pub round-read :
      (call : K → Loop E K W → Outcome (Loop E K W)) (callbacks : ℕ → Channel (Loop E K W))
      (fd p : ℕ) (f : Loop E K W → Outcome (Loop E K W)) (s s' : Loop E K W)
      → s.selector.channel_maps fd ≡ some p
      → (callbacks p).read_callback ≡ some f
      → f (reading p s) ≡ ok s'
      → s'.event_loop.task_q ≡ []
      → round call callbacks (reported ((fd, 1) ∷ [])) s ≡ ok (idle s')
  round-read call callbacks fd p f s s' at reads runs none_wait =
      round-exec_tasks call callbacks fd p f s s' at reads runs ∙ exec_tasks-none call s' none_wait
