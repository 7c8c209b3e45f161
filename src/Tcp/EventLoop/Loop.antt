-- ===== src/Tcp/EventLoop/Loop.antt =====
-- `EventLoop::loop` of tcp/eventLoop.cpp: rounds of `select`, the handlers of the active channels, and
-- the tasks. What a task does and what is registered with a channel are parameters.
use budd.Common.{ℕ, Bool, true, false, List, [], ◌∷◌, if◌then◌else◌}
use budd.Outcome.{Outcome, ok, ◌>>=◌}
use budd.Tcp.Channel.{Channel, handle_events}
use budd.Tcp.EventLoop.{EventLoop, queue_in_loop, handle_read, begin_tasks, end_tasks}
use budd.Tcp.Selector.{Handle, Selector, Wait, select}

-- `m_selector`, `m_activeChannelList`, `m_looping` and `m_quit`, and the tasks; `world` is the rest
-- of what the thread of the loop works on.
pub record Loop (E K W : Type 0) : Type 0 where
  pub event_loop : EventLoop K
  pub selector : Selector E
  pub active_channel_list : List ℕ
  pub looping : Bool
  pub quit : Bool
  pub world : W

module _ {E K W : Type 0} where
  -- `EventLoop::quit`
  abbrev pub set_quit : Loop E K W → Loop E K W
  set_quit s = record s { quit = true }

  -- `EventLoop::handleRead`, which is registered with `m_wakeupChannel`
  abbrev pub read_wakeup : Loop E K W → Outcome (Loop E K W)
  read_wakeup s = ok (record s { event_loop = handle_read s.event_loop })

  module _ (call : K → Loop E K W → Outcome (Loop E K W)) where
    unfoldable pub run_in_loop : Bool → K → Loop E K W → Outcome (Loop E K W)
    run_in_loop is_in_loop_thread t s =
        if is_in_loop_thread
        then call t s
        else ok (record s { event_loop = queue_in_loop is_in_loop_thread t s.event_loop })

    unfoldable pub run_tasks : List K → Loop E K W → Outcome (Loop E K W)
    run_tasks [] s = ok s
    run_tasks (t ∷ ts) s = call t s >>= λ s'. run_tasks ts s'

    unfoldable pub exec_tasks : Loop E K W → Outcome (Loop E K W)
    exec_tasks s = do
      let (temp_task_q, l) = begin_tasks s.event_loop
      s' ← run_tasks temp_task_q (record s { event_loop = l })
      ok (record s' { event_loop = end_tasks s'.event_loop })

    -- `callbacks p` holds what is registered with the channel `p`.
    module _ (callbacks : ℕ → Channel (Loop E K W)) where
      abbrev pub channel_at : ℕ → Handle → Channel (Loop E K W)
      channel_at p h = record (callbacks p) { fd = h.fd; events = h.events; revents = h.revents }

      -- The loop over the active channels.
      unfoldable pub handle_all : List ℕ → Loop E K W → Outcome (Loop E K W)
      handle_all [] s = ok s
      handle_all (p ∷ ps) s =
          handle_events (channel_at p (s.selector.channels p)) s >>= λ s'. handle_all ps s'

      -- A round, with what `epoll_wait` returns in it.
      unfoldable pub round : Wait → Loop E K W → Outcome (Loop E K W)
      round w s = do
        (ps, selector) ← select w s.selector
        s' ← handle_all ps (record s { selector = selector; active_channel_list = ps })
        exec_tasks s'

      -- `loop` behind its first line, with what the calls of `epoll_wait` return; when these are used
      -- up the loop is still in `select`.
      unfoldable pub rounds : List Wait → Loop E K W → Outcome (Loop E K W)
      rounds [] s = ok (if s.quit then record s { looping = false } else s)
      rounds (w ∷ ws) s = elim s.quit [
        | true ↦ ok (record s { looping = false })
        | false ↦ round w s >>= λ s'. rounds ws s'
      ]

      unfoldable pub loop : List Wait → Loop E K W → Outcome (Loop E K W)
      loop ws s = rounds ws (record s { looping = true })
