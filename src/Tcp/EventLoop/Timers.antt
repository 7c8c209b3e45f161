-- ===== src/Tcp/EventLoop/Timers.antt =====
-- `runAt`, `runAfter`, `runEvey` and `cancelTimer` of tcp/eventLoop.cpp; the first three on the thread
-- of the loop.
use budd.Common.{ℕ, ◌+◌, Bool}
use budd.Outcome.{Outcome}
use budd.Tcp.EventLoop.{EventLoop, queue_in_loop}
use budd.Tcp.Timer.{TimerQueue, tick, add_timer}

module _ {K : Type 0} (time : ℕ → ℕ) where
  unfoldable pub run_at : ℕ → K → TimerQueue K → Outcome (ℕ × TimerQueue K)
  run_at when callback q = add_timer time callback when 0 q

  unfoldable pub run_after : ℕ → K → TimerQueue K → Outcome (ℕ × TimerQueue K)
  run_after delay callback q =
      let when = time q.calls + delay in add_timer time callback when 0 (tick time q)

  unfoldable pub run_evey : ℕ → K → TimerQueue K → Outcome (ℕ × TimerQueue K)
  run_evey interval callback q =
      let when = time q.calls + interval in add_timer time callback when interval (tick time q)

-- `TimerQueue::cancelTimer` and `EventLoop::cancelTimer`, from any thread; `cancel_timer_in_loop id` is the
-- task that calls `cancelTimerInLoop` with the id.
abbrev pub queue_cancel : {K : Type 0} → (ℕ → K) → Bool → ℕ → EventLoop K → EventLoop K
queue_cancel cancel_timer_in_loop in_thread id l =
    queue_in_loop in_thread (cancel_timer_in_loop id) l

abbrev pub cancel_timer : {K : Type 0} → (ℕ → K) → Bool → ℕ → EventLoop K → EventLoop K
cancel_timer cancel_timer_in_loop in_thread timer_id l =
    queue_cancel cancel_timer_in_loop in_thread timer_id l
