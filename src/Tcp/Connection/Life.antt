-- ===== src/Tcp/Connection/Life.antt =====
-- A connection from `connectEstablished` to `connectDestroyed`, as tasks of its loop.
mod Tests
use budd.Common.{
  ℕ, ◌≡◌, ◌≢◌, refl, ap, sym, ◌∙◌, subst, inl, inr, true, true≢false, Bool-cases, none, some, ◌==◌,
  ==_iff,
}
use budd.Outcome.{Outcome, ok, ◌>>=◌, ◌>>◌}
use budd.Tcp.Channel.{read_event, empty_event}
use budd.Tcp.Connection.{
  TcpConnection, State, connected, disconnect, is_none, is_open, enable_read, connect_established,
  connect_destroyed,
}
use budd.Tcp.Connection.Hosted.{Hosted, put_back, on_established, on_destroyed}
use budd.Tcp.Connection.Rounds.{Asked, ask_lem, ask-other}
use budd.Tcp.EventLoop.Loop.{Loop}
use budd.Tcp.Selector.{put, Epoll, Selector, loop_remove_channel, remove}
use budd.Tcp.Selector.Channels.{remove_lem, some-injective}
use budd.Tcp.Selector.Interest.{AgreesAt, Agrees, put_same}

-- The connection behind `connectDestroyed`.
abbrev pub destroyed : {X : Type 0} → TcpConnection X → TcpConnection X
destroyed c = record c { state = disconnect; events = empty_event; closed = true }

module _ {E K X W : Type 0} (ep : Epoll E) where
  on_destroyed_lem :
      (p : ℕ) (s : Loop E K (Hosted X W))
      → Agrees ep s.selector
      → s.selector.channel_maps (s.selector.channels p).fd ≡ some p
      → is_open (s.world.connections p).state ≡ true
      → (s' : Loop E K (Hosted X W)) × (on_destroyed ep p s ≡ ok s')
        × Agrees ep s'.selector
        × (s'.selector.channel_maps (s.selector.channels p).fd ≡ none)
        × (ep.interest s'.selector.epoll (s.selector.channels p).fd ≡ none)
        × ((k : ℕ)
            → k ≢ (s.selector.channels p).fd
            → s'.selector.channel_maps k ≡ s.selector.channel_maps k)
        × (s'.world ≡ record {
          connections = put p (destroyed (s.world.connections p)) s.world.connections;
          rest = s.world.rest;
        })
  unfolding on_destroyed connect_destroyed put_back remove
  on_destroyed_lem p s a own up =
      let fd = (s.selector.channels p).fd in
      let c = destroyed (s.world.connections p) in
      let s₁ : Loop E K (Hosted X W) = record s {
        world = record { connections = put p c s.world.connections; rest = s.world.rest };
      } in
      let (t, e, asked) = ask_lem ep p empty_event s₁ a own in
      let there : AgreesAt t.channels fd (some p) (ep.interest t.epoll fd) =
        subst (λ o. AgreesAt t.channels fd o (ep.interest t.epoll fd)) asked.registered
          (asked.agrees fd) in
      let (s', removed, agrees, free, unasked, others) =
        remove_lem ep p t asked.agrees (ap t.channel_maps there.0 ∙ asked.registered)
          (some-injective (sym there.1 ∙ asked.interest)) in
      (
        record s₁ { selector = s' },
        rw (up, e, removed) refl,
        agrees,
        ap s'.channel_maps (sym there.0) ∙ free,
        ap (ep.interest s'.epoll) (sym there.0) ∙ unasked,
        λ k away. others k (λ x. away (x ∙ there.0)) ∙ asked.other_maps k away,
        refl,
      )

  module _ (connection_callback : TcpConnection X → W → Outcome (TcpConnection X × W))
      (message_callback : TcpConnection X → ℕ → W → Outcome (TcpConnection X × W))
      (close_callback : TcpConnection X → W → Outcome (TcpConnection X × W)) where
    on_established_lem :
        (p : ℕ) (c : TcpConnection X) (w : W) (s : Loop E K (Hosted X W))
        → Agrees ep s.selector
        → s.selector.channel_maps (s.selector.channels p).fd ≡ none
        → (s.selector.channels p).events ≡ empty_event
        → (s.world.connections p).state ≡ State.none
        → connection_callback (record (s.world.connections p) { state = connected }) s.world.rest
          ≡ ok (c, w)
        → (selector : Selector E) × (on_established ep connection_callback message_callback
              close_callback p s
            ≡ ok (record s {
              selector = selector;
              world = record { connections = put p (enable_read c) s.world.connections; rest = w };
            }))
          × Asked ep p read_event s.selector selector
    unfolding on_established connect_established put_back
    on_established_lem p c w s a free idle new called =
        let s₁ : Loop E K (Hosted X W) = record s {
          world = record { connections = put p (enable_read c) s.world.connections; rest = w };
        } in
        let (selector, e, asked) =
          ask-other ep p read_event s₁ a (inl free) (ap (λ n. n == read_event) idle) in
        (selector, rw (ap is_none new, ◌>>◌) (rw (called, ◌>>=◌) e), asked)

    -- A new connection with a channel that asks for nothing and a descriptor that is not registered:
    -- when connectEstablished has run on the thread of the loop, the kernel is asked for its read
    -- events; if the connection callback leaves it open and connectDestroyed runs next, both end, the
    -- map of channels is as it was before for every descriptor, the kernel is asked for nothing of this
    -- one, the map and the kernel agree, and the connection is closed.
    pub on_established-on_destroyed :
        (p : ℕ) (c : TcpConnection X) (w : W) (s : Loop E K (Hosted X W))
        → Agrees ep s.selector
        → s.selector.channel_maps (s.selector.channels p).fd ≡ none
        → (s.selector.channels p).events ≡ empty_event
        → (s.world.connections p).state ≡ State.none
        → connection_callback (record (s.world.connections p) { state = connected }) s.world.rest
          ≡ ok (c, w)
        → is_open c.state ≡ true
        → (s₁ : Loop E K (Hosted X W)) × (s₂ : Loop E K (Hosted X W)) × (on_established ep
              connection_callback message_callback close_callback p s
            ≡ ok s₁)
          × (on_destroyed ep p s₁ ≡ ok s₂)
          × (ep.interest s₁.selector.epoll (s.selector.channels p).fd ≡ some read_event)
          × (ep.interest s₂.selector.epoll (s.selector.channels p).fd ≡ none)
          × ((k : ℕ) → s₂.selector.channel_maps k ≡ s.selector.channel_maps k)
          × Agrees ep s₂.selector
          × (s₂.world.connections p ≡ destroyed c)
    on_established-on_destroyed p c w s a free idle new called up =
        let (selector, e, asked) = on_established_lem p c w s a free idle new called in
        let fd = (s.selector.channels p).fd in
        let there : AgreesAt selector.channels fd (some p) (ep.interest selector.epoll fd) =
          subst (λ o. AgreesAt selector.channels fd o (ep.interest selector.epoll fd))
            asked.registered (asked.agrees fd) in
        let s₁ : Loop E K (Hosted X W) = record s {
          selector = selector;
          world = record { connections = put p (enable_read c) s.world.connections; rest = w };
        } in
        let here : s₁.world.connections p ≡ enable_read c =
          put_same p (enable_read c) s.world.connections in
        let (s₂, f, agrees, gone, unasked, others, world) =
          on_destroyed_lem p s₁ asked.agrees (ap selector.channel_maps there.0 ∙ asked.registered)
            (ap (λ x. is_open x.state) here ∙ up) in
        (
          s₁,
          s₂,
          e,
          f,
          asked.interest,
          ap (ep.interest s₂.selector.epoll) (sym there.0) ∙ unasked,
          λ k. elim (Bool-cases (k == fd)) [
            | inl same ↦
                let at : k ≡ fd = (==_iff k fd).0 same in
                ap s₂.selector.channel_maps (at ∙ sym there.0)
                ∙ (gone ∙ (sym free ∙ ap s.selector.channel_maps (sym at)))
            | inr other ↦
                let away : k ≢ fd = λ x. true≢false (sym ((==_iff k fd).1 x) ∙ other) in
                others k (λ x. away (x ∙ there.0)) ∙ asked.other_maps k away
          ],
          agrees,
          ap (λ (h : Hosted X W). h.connections p) world
              ∙ (put_same p (destroyed (s₁.world.connections p)) s₁.world.connections
                  ∙ ap destroyed here),
        )
