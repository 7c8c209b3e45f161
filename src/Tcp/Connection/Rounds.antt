-- ===== src/Tcp/Connection/Rounds.antt =====
-- A round of the loop in which one connection has something to read, and the tasks that make and end a
-- connection.
use budd.Common.{
  ℕ, ◌≡◌, ◌≢◌, refl, ap, sym, ◌∙◌, subst, inl, inr, false, Bool-cases, some, [], ◌∷◌, ◌==◌, ==_iff,
  Bytes,
}
use budd.Outcome.{Outcome, ok, ◌>>=◌}
use budd.Buffer.{Readv}
use budd.Tcp.Channel.{Channel}
use budd.Tcp.Connection.{TcpConnection, Write, handle_read}
use budd.Tcp.Connection.Hosted.{Hosted, ask, put_back, on_read, channel_of}
use budd.Tcp.EventLoop.Loop.{Loop, round}
use budd.Tcp.EventLoop.Readable.{reading, idle, round-read}
use budd.Tcp.Selector.{Handle, put, Epoll, Selector, set_events, update_channel, reported}
use budd.Tcp.Selector.Active.{AgreesAt-set_revents}
use budd.Tcp.Selector.Channels.{update_in_thread}
use budd.Tcp.Selector.Frame.{set_events-Spares}
use budd.Tcp.Selector.Interest.{put_same, AgreesAt, Agrees, Owns, set_events-Asks}

module _ {E : Type 0} (ep : Epoll E) where
  -- What is known of the selector when the channel `p` has asked for the events: it is registered, the
  -- kernel is asked for exactly these, the map of channels and the kernel agree, and the other channels
  -- and descriptors are as they were.
  pub record Asked (p events : ℕ) (s s' : Selector E) : Type 0 where
    pub agrees : Agrees ep s'
    pub registered : s'.channel_maps (s.channels p).fd ≡ some p
    pub interest : ep.interest s'.epoll (s.channels p).fd ≡ some events
    pub other_maps : (k : ℕ) → k ≢ (s.channels p).fd → s'.channel_maps k ≡ s.channel_maps k
    pub others : (q : ℕ) → q ≢ p → s'.channels q ≡ s.channels q

  module _ {K X W : Type 0} where
    -- A channel that asks for other events than before may be new to the selector.
    pub ask-other :
        (p events : ℕ) (s : Loop E K (Hosted X W))
        → Agrees ep s.selector
        → Owns ep p s.selector
        → ((s.selector.channels p).events == events) ≡ false
        → (selector : Selector E) × (ask ep p events s ≡ ok (record s { selector = selector }))
          × Asked p events s.selector selector
    unfolding ask
    ask-other p events s a own other =
        let t = set_events p events s.selector in
        let (agrees, mine, asked) = set_events-Asks ep p events s.selector a own in
        (
          update_channel ep p t,
          rw (other, update_in_thread ep p t) refl,
          record {
            agrees = agrees;
            registered = mine;
            interest = asked;
            other_maps = (set_events-Spares ep p events s.selector).0;
            others = (set_events-Spares ep p events s.selector).1;
          },
        )

    pub ask_lem :
        (p events : ℕ) (s : Loop E K (Hosted X W))
        → Agrees ep s.selector
        → s.selector.channel_maps (s.selector.channels p).fd ≡ some p
        → (selector : Selector E) × (ask ep p events s ≡ ok (record s { selector = selector }))
          × Asked p events s.selector selector
    unfolding ask
    ask_lem p events s a own = elim (Bool-cases ((s.selector.channels p).events == events)) [
      | inl same ↦ (
        s.selector,
        rw same refl,
        record {
          agrees = a;
          registered = own;
          interest =
              (subst
                (λ o.
                  AgreesAt s.selector.channels (s.selector.channels p).fd o
                    (ep.interest s.selector.epoll (s.selector.channels p).fd))
                own (a (s.selector.channels p).fd)).1
              ∙ ap some ((==_iff _ _).0 same);
          other_maps = λ k away. refl;
          others = λ q away. refl;
        },
      )
      | inr other ↦ ask-other p events s a (inr own) other
    ]

module _ {E K X W : Type 0} (ep : Epoll E) where
  -- A round has put back the connection with the channel `p` and the descriptor `fd`, with the rest of
  -- what its callbacks work on: the others are as they were, no task waits, and the kernel is asked for
  -- exactly the events of the connection.
  pub record Returned (p fd : ℕ) (c : TcpConnection X) (w : W) (s s' : Loop E K (Hosted X W))
      : Type 0 where
    pub world : s'.world ≡ record { connections = put p c s.world.connections; rest = w }
    pub none_wait : s'.event_loop.task_q ≡ []
    pub agrees : Agrees ep s'.selector
    pub registered : s'.selector.channel_maps fd ≡ some p
    pub interest : ep.interest s'.selector.epoll fd ≡ some c.events

  put_back-reading :
      (p fd : ℕ) (c : TcpConnection X) (w : W) (s : Loop E K (Hosted X W))
      → Agrees ep s.selector
      → s.selector.channel_maps fd ≡ some p
      → s.event_loop.task_q ≡ []
      → (s' : Loop E K (Hosted X W)) × (put_back ep p (c, w) (reading p s) ≡ ok s')
        × Returned p fd c w s s'
  unfolding put_back
  put_back-reading p fd c w s a own none_wait =
      let s₁ : Loop E K (Hosted X W) = record (reading p s) {
        world = record { connections = put p c s.world.connections; rest = w };
      } in
      let ch : Handle = record (s.selector.channels p) { revents = 1 } in
      let a₁ : Agrees ep s₁.selector = λ k.
        AgreesAt-set_revents ep s.selector p 1 k (s.selector.channel_maps k)
          (ep.interest s.selector.epoll k) (a k) in
      let same_fd : (s₁.selector.channels p).fd ≡ fd =
        ap Handle.fd (put_same p ch s.selector.channels)
        ∙ (subst (λ o. AgreesAt s.selector.channels fd o (ep.interest s.selector.epoll fd)) own
            (a fd)).0 in
      let (selector, e, asked) =
        ask_lem ep p c.events s₁ a₁ (ap s.selector.channel_maps same_fd ∙ own) in
      (
        record s₁ { selector = selector },
        e,
        record {
          world = refl;
          none_wait = none_wait;
          agrees = asked.agrees;
          registered = ap selector.channel_maps (sym same_fd) ∙ asked.registered;
          interest = ap (ep.interest selector.epoll) (sym same_fd) ∙ asked.interest;
        },
      )

  module _ (connection_callback : TcpConnection X → W → Outcome (TcpConnection X × W))
      (message_callback : TcpConnection X → ℕ → W → Outcome (TcpConnection X × W))
      (close_callback : TcpConnection X → W → Outcome (TcpConnection X × W)) where
    -- A round in which one connection is reported as readable, and `handleRead` of it ends.
    pub round-on_read :
        (call : K → Loop E K (Hosted X W) → Outcome (Loop E K (Hosted X W)))
        (callbacks : ℕ → Channel (Loop E K (Hosted X W))) (fd p : ℕ) (extra : Bytes) (got : Readv)
        (w : Write) (c : TcpConnection X) (r : W) (s : Loop E K (Hosted X W))
        → Agrees ep s.selector
        → s.selector.channel_maps fd ≡ some p
        → s.event_loop.task_q ≡ []
        → callbacks p
          ≡ channel_of ep connection_callback message_callback close_callback p fd extra got w
        → handle_read connection_callback message_callback close_callback
            (s.world.connections p)
            extra
            got
            s.world.rest
          ≡ ok (c, r)
        → (s' : Loop E K (Hosted X W)) × (round call callbacks (reported ((fd, 1) ∷ [])) s ≡ ok s')
          × Returned p fd c r s s'
    unfolding on_read
    round-on_read call callbacks fd p extra got w c r s a own none_wait registers handles =
        let (s', e, returned) = put_back-reading p fd c r s a own none_wait in
        (
          idle s',
          round-read call callbacks fd p
              (on_read ep connection_callback message_callback close_callback p extra got) s s' own
              (ap Channel.read_callback registers)
              (ap (λ (o : Outcome (TcpConnection X × W)). o >>= λ x. put_back ep p x (reading p s))
                  handles
                ∙ e)
              returned.none_wait,
          record {
            world = returned.world;
            none_wait = refl;
            agrees = returned.agrees;
            registered = returned.registered;
            interest = returned.interest;
          },
        )
