-- ===== src/Tcp/EventLoop/Destroy.antt =====
-- `~EventLoop` and `~TimerQueue`, which runs as a part of it, and `getEventLoopInThread`.
use budd.Common.{ℕ, ◌≡◌, ◌≢◌, ap, Bool, true, Option, none, some}
use budd.Outcome.{Outcome, ok, err, ◌>>=◌, ◌>>◌, demand, fatal}
use budd.Tcp.EventLoop.Create.{create, create_lem}
use budd.Tcp.EventLoop.Loop.{Loop}
use budd.Tcp.Selector.{Epoll, Selector, disable_events, remove}
use budd.Tcp.Selector.Channels.{disable-remove}
use budd.Tcp.Selector.Interest.{Agrees}

-- `assertInLoopThread`
abbrev pub assert_in_loop_thread : Bool → Outcome (Unit {0})
assert_in_loop_thread in_thread = demand in_thread fatal

abbrev pub get_event_loop_in_thread : Bool → Option ℕ → Outcome (Option ℕ)
get_event_loop_in_thread in_thread thread_local = assert_in_loop_thread in_thread >> ok thread_local

module _ {E : Type 0} (ep : Epoll E) where
  -- `~TimerQueue`, but for the `close`
  unfoldable pub destroy_timer_queue : Bool → ℕ → Selector E → Outcome (Selector E)
  destroy_timer_queue in_thread timer_channel s =
      disable_events ep in_thread timer_channel s >>= λ t. remove ep in_thread timer_channel t

  -- `~EventLoop`: what `threadLocalEventLoop` holds then, and the selector before it goes too. The queue of
  -- timers is the last member, so it goes first.
  unfoldable pub destroy : {K W : Type 0} → Bool → ℕ → Loop E K W → Outcome (Selector E × Option ℕ)
  destroy in_thread timer_channel l =
      destroy_timer_queue in_thread timer_channel l.selector >>= λ selector. ok (selector, none)

  -- A loop is made on a thread that has none, with channels of different descriptors and a new selector;
  -- a second one there ends the process. When the first is destroyed on that thread, no assertion fails,
  -- the kernel is asked for nothing of its timerfd any more, the map of channels and the kernel agree, and
  -- another loop can be made.
  pub create-destroy :
      {K W : Type 0} (this other timer_channel wakeup_channel : ℕ) (w : W) (s : Selector E)
      → Agrees ep s
      → ((fd : ℕ) → s.channel_maps fd ≡ none)
      → (s.channels timer_channel).fd ≢ (s.channels wakeup_channel).fd
      → (l : Loop E K W) × (t : Selector E) × (thread_local : Option ℕ) × (l' : Loop E K W)
        × (create ep this none timer_channel wakeup_channel w s ≡ ok (l, some this))
        × (create ep {K = K} {W = W} other (some this) timer_channel wakeup_channel w s ≡ err fatal)
        × (destroy true timer_channel l ≡ ok (t, thread_local))
        × Agrees ep t
        × (ep.interest t.epoll (l.selector.channels timer_channel).fd ≡ none)
        × (create ep other thread_local timer_channel wakeup_channel w s ≡ ok (l', some other))
  unfolding destroy destroy_timer_queue
  create-destroy {K = K} {W = W} this other timer wakeup w s a empty differ =
      let ((l, e, agrees, timers, wakeups), refused) =
        create_lem ep {K = K} {W = W} this other timer wakeup w s a empty differ in
      let ((l', e', again, again_timers, again_wakeups), refused') =
        create_lem ep {K = K} {W = W} other this timer wakeup w s a empty differ in
      let (t, gone, agrees', free, unasked) = disable-remove ep timer l.selector agrees timers.0 in
      (
        l,
        t,
        none,
        l',
        e,
        refused',
        ap (λ (o : Outcome (Selector E)). o >>= λ x. ok (x, none)) gone,
        agrees',
        unasked,
        e',
      )
