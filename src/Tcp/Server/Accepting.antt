-- ===== src/Tcp/Server/Accepting.antt =====
-- A round of the loop of a server in which a client arrives.
mod Tests
use budd.Common.{
  ℕ, suc, ◌%◌, ◌^◌, ◌≡◌, refl, ap, ◌∙◌, true, Option, none, some, List, [], ◌∷◌, ◌++◌, take, Bytes,
  equal_iff, if◌then◌else◌,
}
use budd.Outcome.{Outcome, ok, ◌>>=◌}
use budd.Tcp.Acceptor.{Accept, accepted, accept}
use budd.Tcp.Channel.{Channel, create, registe_read_callback}
use budd.Tcp.EventLoop.Loop.{Loop, exec_tasks, round}
use budd.Tcp.EventLoop.Readable.{reading, round-exec_tasks}
use budd.Tcp.LoopPool.{EventLoopThreadPool, get_next_loop}
use budd.Tcp.Selector.{reported}
use budd.Tcp.Server.Sound.{put_name_same}
use budd.Tcp.Server.{
  Connection, to_establish, TcpServer, conn_name, new_connection, add_connection, post,
}

module _ {E K L : Type 0} (inet_ntop : Bytes → Bytes)
    (close : ℕ → Loop E K (TcpServer L) → Loop E K (TcpServer L)) where
  -- `newConnection`, as the constructor of `TcpServer` registers it with the acceptor
  unfoldable pub on_new_connection :
      ℕ → Bytes → Loop E K (TcpServer L) → Outcome (Loop E K (TcpServer L))
  on_new_connection conn_fd client_ip s = do
    (conn, server) ← new_connection true conn_fd client_ip s.world
    ok (record s { world = server })

  -- The channel of the acceptor behind `listen`, with what `::accept` returns next.
  abbrev pub listen_channel : ℕ → Accept → Channel (Loop E K (TcpServer L))
  listen_channel fd arrival =
      registe_read_callback (accept inet_ntop close (some on_new_connection) arrival) (create fd)

  -- The kernel reports the listening socket, registered with the channel of the acceptor, as readable, and
  -- `::accept` returns a descriptor. If getNextLoop returns a loop, then the handlers of the round leave a
  -- server with a new connection of that descriptor and that loop under the next name, which is counted
  -- on; connectEstablished of it goes to that loop and nothing else is posted; and the tasks follow.
  pub round-accept :
      (call : K → Loop E K (TcpServer L) → Outcome (Loop E K (TcpServer L)))
      (callbacks : ℕ → Channel (Loop E K (TcpServer L))) (fd p conn_fd : ℕ) (client_addr : Bytes)
      (io_loop : L) (pool : EventLoopThreadPool L) (s : Loop E K (TcpServer L))
      → s.selector.channel_maps fd ≡ some p
      → callbacks p ≡ listen_channel fd (accepted conn_fd client_addr)
      → get_next_loop s.world.loop_pool ≡ ok (io_loop, pool)
      → (conn : Connection L) × (server : TcpServer L) × (round call callbacks
            (reported ((fd, 1) ∷ []))
            s
          ≡ exec_tasks call (record (reading p s) { world = server }))
        × (conn ≡ record {
          event_loop = io_loop;
          sockfd = conn_fd;
          client_ip = inet_ntop (take 4 client_addr);
          name = conn_name s.world.next_connection_id;
        })
        × (server.connection_maps conn.name ≡ some conn)
        × (server.posted ≡ s.world.posted ++ (io_loop, to_establish conn) ∷ [])
        × (server.loop_pool ≡ pool)
        × (server.next_connection_id ≡ suc s.world.next_connection_id % 2 ^ 64)
  unfolding on_new_connection new_connection add_connection post accept
  round-accept call callbacks fd p conn_fd client_addr io_loop pool s own registers picked =
      let made = add_connection conn_fd (inet_ntop (take 4 client_addr)) io_loop pool s.world in
      (
        made.0,
        made.1,
        round-exec_tasks call callbacks fd p
            (accept inet_ntop close (some on_new_connection) (accepted conn_fd client_addr)) s
            (record (reading p s) { world = made.1 }) own (ap Channel.read_callback registers)
            (rw picked refl),
        refl,
        put_name_same made.0.name (some made.0) s.world.connection_maps,
        refl,
        refl,
        refl,
      )
