-- ===== src/Tcp/EventLoop/Expiry.antt =====
-- A round of the loop in which timers expire.
mod Tests
use budd.Common.{
  ℕ, suc, ◌+◌, ◌≤◌, ◌<◌, ◌≡◌, ◌≢◌, refl, ap, ◌∙◌, Option, some, List, [], ◌∷◌, ◌++◌, length,
}
use budd.Outcome.{Outcome, ok, ◌>>=◌}
use budd.Tcp.Channel.{Channel, create, registe_read_callback}
use budd.Tcp.EventLoop.Loop.{Loop, exec_tasks, round}
use budd.Tcp.EventLoop.Readable.{reading, round-exec_tasks}
use budd.Tcp.Selector.{reported}
use budd.Tcp.Timer.{Entry, TimerQueue, long_max, next_when, set_time, handle_read}
use budd.Tcp.Timer.Read.{act_all, again, NextAfter, handle_read_lem}
use budd.Tcp.Timer.Set.{Above, at, UpTo}

-- `m_timerQueue`, and what the callbacks work on besides the loop.
pub record Timed (T R : Type 0) : Type 0 where
  pub timer_queue : TimerQueue T
  pub rest : R

-- The loop with its queue put back.
abbrev pub with_queue :
    {E K T R : Type 0} → TimerQueue T → Loop E K (Timed T R) → Loop E K (Timed T R)
with_queue q s = record s { world = record s.world { timer_queue = q } }

module _ {E K T R : Type 0} (time : ℕ → ℕ)
    (start : T
      → Loop E K (Timed T R)
      → TimerQueue T
      → Outcome (Loop E K (Timed T R) × TimerQueue T)) where
  -- `TimerQueue::handleRead`, as the constructor registers it; `start` calls a callback.
  unfoldable pub on_timers : T → Loop E K (Timed T R) → Outcome (Loop E K (Timed T R))
  on_timers nothing s =
      handle_read time start nothing s s.world.timer_queue >>= λ (s', q). ok (with_queue q s')

  -- The channel behind the constructor of `TimerQueue`.
  abbrev pub timer_channel : T → ℕ → Channel (Loop E K (Timed T R))
  timer_channel nothing fd = registe_read_callback (on_timers nothing) (create fd)

  -- Let the callbacks end, each with an effect on the loop and none on the queue, and let the queue and
  -- the clock be as `handleRead` needs them. The round in which the kernel reports the timerfd runs the
  -- callbacks of the timers that are due, each once and in order, and then execTasks, the tasks that they
  -- have queued included; by then the queue has no timer that was due, it has the later timers and,
  -- under their next times, the repeating ones that were due, but a repeating timer is lost if another
  -- timer has its next time; and the timerfd is set for the first of them.
  pub round-on_timers :
      (act : T → Loop E K (Timed T R) → Loop E K (Timed T R))
      (ends : (k : T) (s : Loop E K (Timed T R)) (q : TimerQueue T) → start k s q ≡ ok (act k s, q))
      (call : K → Loop E K (Timed T R) → Outcome (Loop E K (Timed T R)))
      (callbacks : ℕ → Channel (Loop E K (Timed T R))) (nothing : T) (fd p top : ℕ)
      (due later : List (Entry T)) (s : Loop E K (Timed T R))
      → s.selector.channel_maps fd ≡ some p
      → callbacks p ≡ timer_channel nothing fd
      → s.world.timer_queue.timer_set ≡ due ++ later
      → Above 0 s.world.timer_queue.timer_set
      → UpTo (time s.world.timer_queue.calls) due
      → Above (suc (time s.world.timer_queue.calls)) later
      → later ≢ []
      → time s.world.timer_queue.calls < long_max
      → ((i : ℕ) → i ≤ s.world.timer_queue.calls + length due → time i ≤ top)
      → NextAfter top due
      → (q : TimerQueue T) × (round call callbacks (reported ((fd, 1) ∷ [])) s
          ≡ exec_tasks call (
              with_queue (set_time time (next_when q.timer_set) q) (act_all act due (reading p s))))
        × Above (suc (time s.world.timer_queue.calls)) q.timer_set
        × ((i : ℕ) → at i q.timer_set ≡ again due (λ j. at j later) i)
  unfolding on_timers
  round-on_timers act ends call callbacks nothing fd p top due later s own registers cut all upto
        above some_left below clock next =
      let (q, e, above', looks) =
        handle_read_lem time start act ends nothing top due later (reading p s) s.world.timer_queue
          cut all upto above some_left below clock next in
      (
        q,
        round-exec_tasks call callbacks fd p (on_timers nothing) s
            (with_queue (set_time time (next_when q.timer_set) q) (act_all act due (reading p s)))
            own (ap Channel.read_callback registers)
            (ap
              (λ (o : Outcome (Loop E K (Timed T R) × TimerQueue T)).
                o >>= λ (t, r). ok (with_queue r t))
              e),
        above',
        looks,
      )
