-- ===== src/Tcp/Server.antt =====
-- tcp/tcpserver.h and tcp/tcpserver.cpp: `class TcpServer`. `L` stands for pointers to event loops;
-- `in_thread` tells whether the calling thread is that of the server's loop.
pub mod Steps
pub mod Halves
pub mod Sound
pub mod Calls
pub mod Posts
pub mod Invariant
pub mod Lives
pub mod Handlers
pub mod Start
pub mod Accepting
mod Tests
use budd.Common.{
  ℕ, suc, ◌^◌, ◌%◌, Bool, true, false, not, Option, none, some, List, [], ◌∷◌, ◌++◌, if◌then◌else◌,
  Bytes, codes, decimal, equal,
}
use budd.Outcome.{Outcome, ok, ◌>>=◌, ◌>>◌, demand, assertion, fatal}
use budd.Tcp.Acceptor.{Acceptor, listen}
use budd.Tcp.LoopPool.{EventLoopThreadPool, get_next_loop}
use budd.Tcp.LoopPool as LoopPool

-- What the constructor of a `TcpConnection` sets for good.
pub record Connection (L : Type 0) : Type 0 where
  pub event_loop : L
  pub sockfd : ℕ
  pub client_ip : Bytes
  pub name : Bytes

-- The calls that the server hands to loops: `connectEstablished`, `removeConnectionInLoop` and
-- `connectDestroyed`.
pub data Task (L : Type 0) : Type 0 where
  to_establish to_remove to_destroy : Connection L → Task L

-- `m_connectionMaps` is a function; `posted` are the tasks that the server gave to `runInLoop` or
-- `queueInLoop` of a loop, in order.
pub record TcpServer (L : Type 0) : Type 0 where
  pub event_loop : L
  pub acceptor : Acceptor
  pub started : Bool
  pub connection_maps : Bytes → Option (Connection L)
  pub loop_pool : EventLoopThreadPool L
  pub next_connection_id : ℕ
  pub posted : List (L × Task L)

-- `m_connectionMaps[k] = conn` and `erase (k)`
abbrev pub put_name {ℓ} : {V : Type ℓ} → Bytes → V → (Bytes → V) → Bytes → V
put_name k v m j = if equal j k then v else m j

abbrev pub is_there {ℓ} : {V : Type ℓ} → Option V → Bool
is_there none = false
is_there (some v) = true

-- `"conn_" + std::to_string(n)`
abbrev pub conn_name : ℕ → Bytes
conn_name n = codes "conn_" ++ decimal n

module _ {L : Type 0} where
  -- The constructor: a pool with no loops yet, and no connections.
  abbrev pub create : L → Acceptor → TcpServer L
  create event_loop acceptor = record {
    event_loop = event_loop;
    acceptor = acceptor;
    started = false;
    connection_maps = λ name. none;
    loop_pool = LoopPool.create event_loop;
    next_connection_id = 0;
    posted = [];
  }

  -- `start`, with the loops of the pool's threads and the results of the two calls of `::listen`.
  unfoldable pub start : Bool → List L → Bool → Bool → TcpServer L → Outcome (TcpServer L)
  start in_thread loops listens listens_again s = do
    demand in_thread fatal
    demand (not s.acceptor.listenning) assertion
    pool ← LoopPool.start loops s.loop_pool
    a ← listen listens s.acceptor
    a' ← listen listens_again a
    ok (record s { loop_pool = pool; acceptor = a'; started = true })

  unfoldable pub post : L → Task L → TcpServer L → TcpServer L
  post loop t s = record s { posted = s.posted ++ (loop, t) ∷ [] }

  -- `newConnection` once it has its loop; `m_nextConnectionId` has 64 bits.
  unfoldable pub add_connection :
      ℕ → Bytes → L → EventLoopThreadPool L → TcpServer L → Connection L × TcpServer L
  add_connection conn_fd client_ip io_loop pool s =
      let conn : Connection L = record {
        event_loop = io_loop;
        sockfd = conn_fd;
        client_ip = client_ip;
        name = conn_name s.next_connection_id;
      } in
      (
        conn,
        post io_loop (to_establish conn) (record s {
          loop_pool = pool;
          next_connection_id = suc s.next_connection_id % 2 ^ 64;
          connection_maps = put_name conn.name (some conn) s.connection_maps;
        }),
      )

  unfoldable pub new_connection :
      Bool → ℕ → Bytes → TcpServer L → Outcome (Connection L × TcpServer L)
  new_connection in_thread conn_fd client_ip s = do
    demand in_thread fatal
    (io_loop, pool) ← get_next_loop s.loop_pool
    ok (add_connection conn_fd client_ip io_loop pool s)

  unfoldable pub remove_connection : Connection L → TcpServer L → TcpServer L
  remove_connection conn s = post s.event_loop (to_remove conn) s

  unfoldable pub remove_connection_in_loop :
      Bool → Connection L → TcpServer L → Outcome (TcpServer L)
  remove_connection_in_loop in_thread conn s = do
    demand in_thread fatal
    demand (is_there (s.connection_maps conn.name)) assertion
    ok (
        post conn.event_loop (to_destroy conn)
          (record s { connection_maps = put_name conn.name none s.connection_maps }))

  -- So many connections, one after another: the connections, and the server.
  unfoldable pub new_connections :
      List (ℕ × Bytes) → TcpServer L → Outcome (List (Connection L) × TcpServer L)
  new_connections [] s = ok ([], s)
  new_connections ((conn_fd, client_ip) ∷ arrivals) s = do
    (c, s') ← new_connection true conn_fd client_ip s
    (cs, s'') ← new_connections arrivals s'
    ok (c ∷ cs, s'')
