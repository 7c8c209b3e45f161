-- ===== src/Tcp/Connection/Hosted.antt =====
-- Connections inside the rounds of their loop: what the constructor of `TcpConnection` registers with the
-- channel, and the channel's calls of the selector.
use budd.Common.{ℕ, true, ◌==◌, if◌then◌else◌, Bytes}
use budd.Outcome.{Outcome, ok, ◌>>=◌}
use budd.Buffer.{Readv}
use budd.Tcp.Channel.{
  Channel, create, registe_read_callback, registe_write_callback, registe_error_callback,
  registe_close_callback,
}
use budd.Tcp.Connection.{
  TcpConnection, Write, connect_established, connect_destroyed, handle_read, handle_write,
  handle_close,
}
use budd.Tcp.EventLoop.Loop.{Loop}
use budd.Tcp.Selector.{put, Epoll, set_events, update, loop_remove_channel}

-- The connections of a loop, by their channels, and what their callbacks work on besides.
pub record Hosted (X W : Type 0) : Type 0 where
  pub connections : ℕ → TcpConnection X
  pub rest : W

module _ {E K X W : Type 0} (ep : Epoll E) where
  -- What `enableRead`, `enableWrite` and `disableEvents` of a registered channel tell the selector, if
  -- the channel had other events.
  unfoldable pub ask : ℕ → ℕ → Loop E K (Hosted X W) → Outcome (Loop E K (Hosted X W))
  ask p events s =
      if (s.selector.channels p).events == events
      then ok s
      else (update ep true p (set_events p events s.selector) >>= λ selector.
          ok (record s { selector = selector }))

  -- A handler of the connection with the channel `p` has ended; the selector learns the events that it
  -- asked for last.
  unfoldable pub put_back :
      ℕ → TcpConnection X × W → Loop E K (Hosted X W) → Outcome (Loop E K (Hosted X W))
  put_back p (c, w) s =
      ask p c.events
        (record s { world = record { connections = put p c s.world.connections; rest = w } })

  unfoldable pub on_write : ℕ → Write → Loop E K (Hosted X W) → Outcome (Loop E K (Hosted X W))
  on_write p w s = do c ← handle_write (s.world.connections p) w; put_back p (c, s.world.rest) s

  -- `handleError` only logs.
  abbrev pub on_error : Loop E K (Hosted X W) → Outcome (Loop E K (Hosted X W))
  on_error s = ok s

  -- `connectDestroyed` as a task of the loop; the connection has the loop of its channel.
  unfoldable pub on_destroyed : ℕ → Loop E K (Hosted X W) → Outcome (Loop E K (Hosted X W))
  on_destroyed p s = do
    c ← connect_destroyed (s.world.connections p)
    s' ← put_back p (c, s.world.rest) s
    selector ← loop_remove_channel ep (s'.selector.channels p).event_loop true p s'.selector
    ok (record s' { selector = selector })

  module _ (connection_callback : TcpConnection X → W → Outcome (TcpConnection X × W))
      (message_callback : TcpConnection X → ℕ → W → Outcome (TcpConnection X × W))
      (close_callback : TcpConnection X → W → Outcome (TcpConnection X × W)) where
    -- `connectEstablished` as a task of the loop
    unfoldable pub on_established : ℕ → Loop E K (Hosted X W) → Outcome (Loop E K (Hosted X W))
    on_established p s = do
      r ←
          connect_established connection_callback message_callback close_callback
            (s.world.connections p) s.world.rest
      put_back p r s

    unfoldable pub on_read :
        ℕ → Bytes → Readv → Loop E K (Hosted X W) → Outcome (Loop E K (Hosted X W))
    on_read p extra got s = do
      r ←
          handle_read connection_callback message_callback close_callback (s.world.connections p)
            extra got s.world.rest
      put_back p r s

    unfoldable pub on_close : ℕ → Loop E K (Hosted X W) → Outcome (Loop E K (Hosted X W))
    on_close p s = do
      r ←
          handle_close connection_callback message_callback close_callback (s.world.connections p)
            s.world.rest
      put_back p r s

    -- The channel behind the constructor of `TcpConnection`, with what the system calls of its handlers
    -- return next.
    abbrev pub channel_of : ℕ → ℕ → Bytes → Readv → Write → Channel (Loop E K (Hosted X W))
    channel_of p fd extra got w = registe_close_callback (on_close p) (
        registe_write_callback (on_write p w) (
          registe_error_callback on_error
            (registe_read_callback (on_read p extra got) (create fd))))
