-- ===== src/Tcp/EventLoop/Tests.antt =====
-- A loop to which another thread hands a task.
use budd.Common.{ℕ, ◌+◌, ◌<◌, ◌≡◌, refl, Option, none, some, true, false, [], ◌∷◌, ◌++◌}
use budd.Outcome.{Outcome, ok}
use budd.Tcp.Channel.{Channel, create, handle_events, call_if}
use budd.Tcp.Selector.{put, reported, failed, select, activate}
use budd.Tcp.EventLoop.{push_task, queue_in_loop, handle_read, begin_tasks, end_tasks}
use budd.Tcp.EventLoop.Loop.{
  Loop, read_wakeup, set_quit, run_tasks, exec_tasks, handle_all, round, rounds, loop,
}
use budd.Tcp.EventLoop.Quit.{loop_ends}
use budd.Tcp.EventLoop.Round.{act_all, at_tasks, ended, queued_task_runs}
use budd.Tcp.EventLoop.Steps.{
  selecting, System, start, loop_begins, other_push, Reach, begins, steps,
}
use budd.Tcp.EventLoop.Wakeup.{tasks_in_order, no_lost_wakeup}

abbrev begun : System ℕ
begun = record start { phase = selecting }

abbrev pushed : System ℕ
pushed = record begun { loop = push_task 7 start.loop; in_flight = 1; queued = 7 ∷ [] }

pushed-Reach : Reach pushed
pushed-Reach =
    steps begun pushed (steps start begun begins (loop_begins start refl)) (other_push begun 7)

tasks_in_order_example : pushed.ran ++ (pushed.temp_task_q ++ pushed.loop.task_q) ≡ pushed.queued
tasks_in_order_example = tasks_in_order pushed pushed-Reach

no_lost_wakeup_example : 0 < pushed.loop.wakeup_count + pushed.in_flight
unfolding push_task
no_lost_wakeup_example = no_lost_wakeup pushed pushed-Reach refl refl (λ e. cc)

-- A loop of which the channel 0 with the descriptor 3 is that of the eventfd; a task does nothing.
abbrev waiting : Loop (ℕ → Option ℕ) ℕ ℕ
waiting = record {
  event_loop = record { task_q = 7 ∷ []; calling_task = false; wakeup_count = 0 };
  selector = record {
    epoll = put 3 (some 3) (λ fd. none);
    channel_maps = put 3 (some 0) (λ fd. none);
    channels = λ p. record { event_loop = 0; fd = 3; events = 3; revents = 0 };
  };
  active_channel_list = [];
  looping = true;
  quit = false;
  world = 0;
}

abbrev wakeup_channel : Channel (Loop (ℕ → Option ℕ) ℕ ℕ)
wakeup_channel = record (create 3) { read_callback = some read_wakeup }

queued_task_runs_example :
    let queued = record waiting { event_loop = queue_in_loop false 8 waiting.event_loop } in
    let ran = act_all (λ t s. s) (7 ∷ 8 ∷ []) (at_tasks 0 waiting) in
    (0 < queued.event_loop.wakeup_count)
    × (round (λ t s. ok s) (λ p. wakeup_channel) (reported ((3, 1) ∷ [])) queued ≡ ok (ended ran))
queued_task_runs_example =
    queued_task_runs (λ t s. ok s) (λ t s. s) (λ p. wakeup_channel) 3 0 8 waiting (λ t s. refl) refl
      refl

-- The task asks the loop to quit.
abbrev quitting : ℕ → Loop (ℕ → Option ℕ) ℕ ℕ → Outcome (Loop (ℕ → Option ℕ) ℕ ℕ)
quitting t s = ok (set_quit s)

abbrev after_round : Loop (ℕ → Option ℕ) ℕ ℕ
after_round = ended (act_all (λ t s. set_quit s) (7 ∷ []) (at_tasks 0 waiting))

loop_ends_example :
    loop quitting (λ p. wakeup_channel) (reported ((3, 1) ∷ []) ∷ failed ∷ []) waiting
    ≡ ok (record after_round { looping = false })
unfolding loop rounds round handle_all handle_events call_if select activate exec_tasks run_tasks
    begin_tasks end_tasks handle_read
loop_ends_example =
    loop_ends quitting (λ p. wakeup_channel) [] (reported ((3, 1) ∷ [])) (failed ∷ []) waiting
      waiting after_round refl refl refl refl
