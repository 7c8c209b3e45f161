-- ===== src/Tcp/Server/Accepting/Tests.antt =====
-- A client that comes to the server of the tests.
use budd.Common.{ℕ, ◌≡◌, refl, false, Option, none, some, [], ◌∷◌, ◌++◌, Bytes, codes}
use budd.Outcome.{ok}
use budd.Tcp.Acceptor.{accepted}
use budd.Tcp.EventLoop.Loop.{Loop, exec_tasks, round}
use budd.Tcp.EventLoop.Readable.{reading}
use budd.Tcp.LoopPool.{get_next_loop, pick, advance}
use budd.Tcp.Selector.{put, reported}
use budd.Tcp.Server.Accepting.{listen_channel, round-accept}
use budd.Tcp.Server.Tests.{new, client}
use budd.Tcp.Server.{Connection, to_establish, TcpServer}

abbrev Listening : Type 0
Listening = Loop (ℕ → Option ℕ) ℕ (TcpServer ℕ)

-- The channel 0 is that of the acceptor.
abbrev listening : Listening
listening = record {
  event_loop = record { task_q = []; calling_task = false; wakeup_count = 0 };
  selector = record {
    epoll = put 3 (some 3) (λ fd. none);
    channel_maps = put 3 (some 0) (λ fd. none);
    channels = λ p. record { event_loop = 0; fd = 3; events = 3; revents = 0 };
  };
  active_channel_list = [];
  looping = false;
  quit = false;
  world = new;
}

abbrev name_of : Bytes → Bytes
name_of address = codes "10.0.0.1"

round-accept_example :
    (conn : Connection ℕ) × (server : TcpServer ℕ) × (round
        (λ t s. ok s)
        (λ p. listen_channel name_of (λ fd s. s) 3 (accepted 7 (codes "....")))
        (reported ((3, 1) ∷ []))
        listening
      ≡ exec_tasks (λ t s. ok s) (record (reading 0 listening) { world = server }))
    × (conn ≡ client)
    × (server.connection_maps conn.name ≡ some conn)
    × (server.posted ≡ [] ++ (1, to_establish conn) ∷ [])
    × (server.loop_pool ≡ record new.loop_pool { next = 1 })
    × (server.next_connection_id ≡ 1)
unfolding get_next_loop pick advance
round-accept_example =
    round-accept name_of (λ fd s. s) (λ t s. ok s)
      (λ p. listen_channel name_of (λ fd s. s) 3 (accepted 7 (codes "...."))) 3 0 7 (codes "....") 1
      (record new.loop_pool { next = 1 }) listening refl refl refl
