-- ===== src/Tcp/Server/Tests.antt =====
-- A server with two loops, named 1 and 2, and its theorems on the states of one connection.
use budd.Common.{ℕ, suc, ◌≡◌, refl, some, List, [], ◌∷◌, arith, Bytes, codes, false}
use budd.Outcome.{ok}
use budd.Tcp.Acceptor.{Acceptor}
use budd.Tcp.LoopPool.{get_next_loop, pick, advance}
use budd.Tcp.Selector.{put}
use budd.Tcp.Server.{
  Connection, to_establish, to_remove, TcpServer, conn_name, add_connection, new_connection,
  new_connections, remove_connection,
}
use budd.Tcp.Server.Steps.{
  absent, due, opened, closing, System, held, running, accept, establish, close, Reach, begins,
  steps,
}
use budd.Tcp.Server.Lives.{map_is_live, connection_tasks}
use budd.Tcp.Server.Posts.{posts_about}
use budd.Tcp.Server.Start.{event_loops, new_connections_round}
use budd.Buffer.{Buffer}
use budd.Tcp.Channel.{read_event}
use budd.Tcp.Connection.{TcpConnection, State, connected, disable_events, handle_close}
use budd.Tcp.Server.Handlers.{handlers_pass}
use budd.Common.{none, some, false}

abbrev pub idle : Acceptor
idle = record { listenning = false; events = 0 }

abbrev pub new : TcpServer ℕ
new = running 0 idle (1 ∷ 2 ∷ [])

abbrev pub client : Connection ℕ
client = record { event_loop = 1; sockfd = 7; client_ip = codes "10.0.0.1"; name = conn_name 0 }

abbrev taken : TcpServer ℕ
taken = (add_connection 7 (codes "10.0.0.1") 1 (record new.loop_pool { next = 1 }) new).1

-- The connection was accepted and established.
abbrev established : System ℕ
established = record {
  server = taken;
  accepted = 1;
  life = put 0 (opened client) (put 0 (due client) (λ k. absent));
  state = put 0 connected (put 0 State.none (λ k. State.none));
  repeats = λ k. 0;
}

established-Reach : Reach 0 idle (1 ∷ 2 ∷ []) established
unfolding new_connection get_next_loop pick advance add_connection
established-Reach =
    steps (steps begins (accept 7 (codes "10.0.0.1") client taken refl)) (establish 0 client refl)

-- And then it was closed.
abbrev closed : System ℕ
closed = record established {
  server = remove_connection client taken;
  life = put 0 (closing client) established.life;
}

closed-Reach : Reach 0 idle (1 ∷ 2 ∷ []) closed
closed-Reach = steps established-Reach (close 0 client refl)

abbrev empty : Buffer
empty = record { reader_index = 8; writer_index = 8; buffer = codes "............" }

abbrev live : TcpConnection ℕ
live = record {
  state = connected;
  events = read_event;
  input_buffer = empty;
  output_buffer = empty;
  context = none;
  sent = [];
  write_shut = false;
  closed = false;
}

handlers_pass_example :
    handle_close
      (λ c w. ok (c, w))
      (λ c n w. ok (c, w))
      (λ c w. ok (record c { context = some 1 }, suc w))
      live
      5
    ≡ ok (record (disable_events live) { context = some 1 }, 6)
handlers_pass_example =
    handlers_pass (λ c w. ok (c, w)) (λ c n w. ok (c, w))
      (λ c w. ok (record c { context = some 1 }, suc w)) 5 0 idle (1 ∷ 2 ∷ []) established 0 live
      established-Reach refl

map_is_live_example :
    ((k : ℕ) (c : Connection ℕ)
      → held (closed.life k) ≡ some c
      → closed.server.connection_maps (conn_name k) ≡ some c)
    × ((name : Bytes) (c : Connection ℕ)
        → closed.server.connection_maps name ≡ some c
        → (k : ℕ) × (name ≡ conn_name k) × (held (closed.life k) ≡ some c))
map_is_live_example = map_is_live 0 idle (1 ∷ 2 ∷ []) closed closed-Reach (omega arith)

connection_tasks_example :
    posts_about (conn_name 0) closed.server.posted
    ≡ (1, to_establish client) ∷ (0, to_remove client) ∷ []
connection_tasks_example =
    connection_tasks 0 idle (1 ∷ 2 ∷ []) closed 0 closed-Reach (omega arith) (omega arith) refl

new_connections_round_example :
    (cs : List (Connection ℕ)) × (s' : TcpServer ℕ) × (new_connections
        ((7, codes "10.0.0.1") ∷ (8, codes "10.0.0.2") ∷ [])
        new
      ≡ ok (cs, s'))
    × (event_loops cs ≡ 1 ∷ 2 ∷ [])
    × (s'.loop_pool ≡ new.loop_pool)
new_connections_round_example =
    new_connections_round ((7, codes "10.0.0.1") ∷ (8, codes "10.0.0.2") ∷ []) new refl refl refl
