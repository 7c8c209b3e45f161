-- ===== src/Tcp/EventLoop/Steps.antt =====
-- The loop and the threads that hand it tasks, as steps: `loop`, `execTasks` and `queueInLoop` of
-- tcp/eventLoop.cpp, cut where another thread may come in between.
use budd.Common.{ℕ, suc, ◌≡◌, Bool, true, false, List, [], ◌∷◌, ◌++◌}
use budd.Tcp.EventLoop.{
  EventLoop, wakeup, push_task, queue_in_loop, handle_read, begin_tasks, end_tasks,
}

-- Where the thread of the loop is: before `loop`, in `select`, in the handlers of channels, or in the
-- tasks.
pub data Phase : Type 0 where
  starting selecting handling calling : Phase

abbrev pub is_calling : Phase → Bool
is_calling calling = true
is_calling _ = false

abbrev pub is_handling : Phase → Bool
is_handling handling = true
is_handling _ = false

-- `temp_task_q` is the vector of `execTasks`; `in_flight` counts the threads that have pushed a
-- task and not yet called `wakeup`. All tasks ever pushed are in `queued`, all that were started
-- in `ran`; `early` are those of the tasks that wait which the thread of the loop queued before `loop`.
pub record System (K : Type 0) : Type 0 where
  pub loop : EventLoop K
  pub phase : Phase
  pub temp_task_q : List K
  pub in_flight : ℕ
  pub queued : List K
  pub ran : List K
  pub early : List K

module _ {K : Type 0} where
  -- The loop behind its constructor.
  abbrev pub start : System K
  start = record {
    loop = record { task_q = []; calling_task = false; wakeup_count = 0 };
    phase = starting;
    temp_task_q = [];
    in_flight = 0;
    queued = [];
    ran = [];
    early = [];
  }

  pub data Step : System K → System K → Type 0 where
    -- another thread, in `queueInLoop`: the push, and later the call of `wakeup`
    other_push :
        (s : System K) (t : K)
        → Step s (record s {
          loop = push_task t s.loop;
          in_flight = suc s.in_flight;
          queued = s.queued ++ t ∷ [];
        })
    other_wakeup :
        (s : System K) (n : ℕ)
        → s.in_flight ≡ suc n
        → Step s (record s { loop = wakeup s.loop; in_flight = n })
    -- the thread of the loop calls `queueInLoop` before `loop`
    early_queue :
        (s : System K) (t : K)
        → s.phase ≡ starting
        → Step s (record s {
          loop = queue_in_loop true t s.loop;
          queued = s.queued ++ t ∷ [];
          early = s.early ++ t ∷ [];
        })
    -- it calls `loop`
    loop_begins : (s : System K) → s.phase ≡ starting → Step s (record s { phase = selecting })
    -- `select` returns
    select_returns : (s : System K) → s.phase ≡ selecting → Step s (record s { phase = handling })
    -- a handler reads the `eventfd`
    handler_read :
        (s : System K) → s.phase ≡ handling → Step s (record s { loop = handle_read s.loop })
    -- a handler or a task calls `queueInLoop`
    own_queue :
        (s : System K) (t : K)
        → s.phase ≡ handling
        → Step s (record s { loop = queue_in_loop true t s.loop; queued = s.queued ++ t ∷ [] })
    task_queue :
        (s : System K) (t : K)
        → s.phase ≡ calling
        → Step s (record s { loop = queue_in_loop true t s.loop; queued = s.queued ++ t ∷ [] })
    -- `execTasks`: the start, the call of a task, and the end
    tasks_begin :
        (s : System K)
        → s.phase ≡ handling
        → Step s (record s {
          loop = (begin_tasks s.loop).1;
          temp_task_q = (begin_tasks s.loop).0;
          phase = calling;
          early = [];
        })
    task_run :
        (s : System K) (t : K) (ts : List K)
        → s.phase ≡ calling
        → s.temp_task_q ≡ t ∷ ts
        → Step s (record s { temp_task_q = ts; ran = s.ran ++ t ∷ [] })
    tasks_end :
        (s : System K)
        → s.phase ≡ calling
        → s.temp_task_q ≡ []
        → Step s (record s { loop = end_tasks s.loop; phase = selecting })

  pub data Reach : System K → Type 0 where
    begins : Reach start
    steps : (s s' : System K) → Reach s → Step s s' → Reach s'
