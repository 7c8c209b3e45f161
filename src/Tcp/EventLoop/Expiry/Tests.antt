-- ===== src/Tcp/EventLoop/Expiry/Tests.antt =====
-- A loop of which a timer of every 50 microseconds is due at 400, another one only at 500; the clock
-- goes on by 1 with every reading. The callback of the first one asks the loop to quit.
use budd.Common.{ℕ, ◌+◌, ◌≡◌, ◌≢◌, refl, false, Option, none, some, List, [], ◌∷◌, ◌++◌, arith}
use budd.Outcome.{Outcome, ok}
use budd.Tcp.EventLoop.Expiry.{Timed, with_queue, timer_channel, round-on_timers}
use budd.Tcp.EventLoop.Loop.{Loop, set_quit, exec_tasks, round}
use budd.Tcp.EventLoop.Readable.{reading}
use budd.Tcp.Selector.{put, reported}
use budd.Tcp.Timer.{Entry, TimerQueue, create, create_timer, next_when, set_time}
use budd.Tcp.Timer.Read.{act_all, again}
use budd.Tcp.Timer.Set.{Above, at}

abbrev Timing : Type 0
Timing = Loop (ℕ → Option ℕ) ℕ (Timed ℕ ℕ)

abbrev clock : ℕ → ℕ
clock i = 400 + i

abbrev due : List (Entry ℕ)
due = (390, create_timer 390 50 7 0) ∷ []

abbrev later : List (Entry ℕ)
later = (500, create_timer 500 0 8 1) ∷ []

abbrev timing : Timing
timing = record {
  event_loop = record { task_q = []; calling_task = false; wakeup_count = 0 };
  selector = record {
    epoll = put 4 (some 3) (λ fd. none);
    channel_maps = put 4 (some 0) (λ fd. none);
    channels = λ p. record { event_loop = 9; fd = 4; events = 3; revents = 0 };
  };
  active_channel_list = [];
  looping = false;
  quit = false;
  world = record {
    timer_queue = record create { timer_set = due ++ later; global_id = 2 };
    rest = 0;
  };
}

abbrev run : ℕ → Timing → TimerQueue ℕ → Outcome (Timing × TimerQueue ℕ)
run k s q = ok (set_quit s, q)

later-left : later ≢ []
later-left e = cc

round-on_timers_example :
    (q : TimerQueue ℕ) × (round
        (λ t s. ok s)
        (λ p. timer_channel clock run 0 4)
        (reported ((4, 1) ∷ []))
        timing
      ≡ exec_tasks
          (λ t s. ok s)
          (with_queue
            (set_time clock (next_when q.timer_set) q)
            (act_all (λ k s. set_quit s) due (reading 0 timing))))
    × Above 401 q.timer_set
    × ((i : ℕ) → at i q.timer_set ≡ again due (λ j. at j later) i)
round-on_timers_example =
    round-on_timers clock run (λ k s. set_quit s) (λ k s q. refl) (λ t s. ok s)
      (λ p. timer_channel clock run 0 4) 0 4 0 420 due later timing refl refl refl
      ((omega arith, refl), ((omega arith, refl), tt)) (omega arith, tt) ((omega arith, refl), tt)
      later-left (omega arith) (λ i h. omega arith) (λ h. omega arith, tt)
