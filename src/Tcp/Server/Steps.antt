-- ===== src/Tcp/Server/Steps.antt =====
-- The life of connections: the calls of the server and of the loops that serve its connections, one
-- after another. A call that the server hands to a loop is a step of its own.
use budd.Common.{ℕ, suc, ◌≡◌, true, Option, none, some, List, Bytes}
use budd.Outcome.{ok}
use budd.Tcp.Acceptor.{Acceptor}
use budd.Tcp.Channel.{read_event}
use budd.Tcp.Connection.{State, connected, disconnecting, disconnect}
use budd.Tcp.Selector.{put}
use budd.Tcp.Server.{
  Connection, TcpServer, create, new_connection, remove_connection, remove_connection_in_loop,
}

-- How far the connection of a number has come: it waits for `connectEstablished`, it is open, it was
-- closed and waits for `removeConnectionInLoop`, it waits for `connectDestroyed`, it is destroyed.
pub data Life (L : Type 0) : Type 0 where
  absent : Life L
  due opened closing removed gone : Connection L → Life L

-- `accepted` counts the connections; `life` tells how far each has come, `state` is its `m_state`, and
-- `repeats` counts the calls of its close callback behind the first.
pub record System (L : Type 0) : Type 0 where
  pub server : TcpServer L
  pub accepted : ℕ
  pub life : ℕ → Life L
  pub state : ℕ → State
  pub repeats : ℕ → ℕ

module _ {L : Type 0} where
  -- The connections that have not been removed.
  abbrev pub held : Life L → Option (Connection L)
  held absent = none
  held (due c) = some c
  held (opened c) = some c
  held (closing c) = some c
  held (removed c) = none
  held (gone c) = none

  -- The connections that were closed and are not yet destroyed: `handleClose` left their state as it
  -- was, and they are in the map of the selector.
  abbrev pub half_closed : Life L → Option (Connection L)
  half_closed (closing c) = some c
  half_closed (removed c) = some c
  half_closed _ = none

  -- The state of a server behind `start`.
  abbrev pub running : L → Acceptor → List L → TcpServer L
  running event_loop acceptor loops =
      let s = create event_loop acceptor in
      record s {
        loop_pool = record s.loop_pool { loops = loops; started = true };
        acceptor = record { listenning = true; events = read_event };
        started = true;
      }

  pub data Step (s : System L) : System L → Type 0 where
    accept :
        (conn_fd : ℕ) (client_ip : Bytes) (c : Connection L) (server : TcpServer L)
        → new_connection true conn_fd client_ip s.server ≡ ok (c, server)
        → Step s (record {
          server = server;
          accepted = suc s.accepted;
          life = put s.accepted (due c) s.life;
          state = put s.accepted State.none s.state;
          repeats = s.repeats;
        })
    establish :
        (k : ℕ) (c : Connection L)
        → s.life k ≡ due c
        → Step s (record s { life = put k (opened c) s.life; state = put k connected s.state })
    -- `shutdown` of a connection that is connected
    shut :
        (k : ℕ) → s.state k ≡ connected → Step s (record s { state = put k disconnecting s.state })
    -- the close callback
    close :
        (k : ℕ) (c : Connection L)
        → s.life k ≡ opened c
        → Step s
            (record s { server = remove_connection c s.server; life = put k (closing c) s.life })
    -- the close callback once more, if the connection got events again behind the first call
    close_again :
        (k : ℕ) (c : Connection L)
        → half_closed (s.life k) ≡ some c
        → Step s (record s {
          server = remove_connection c s.server;
          repeats = put k (suc (s.repeats k)) s.repeats;
        })
    -- the removal, if it passes its assertion
    remove :
        (k : ℕ) (c : Connection L) (server : TcpServer L)
        → s.life k ≡ closing c
        → remove_connection_in_loop true c s.server ≡ ok server
        → Step s (record s { server = server; life = put k (removed c) s.life })
    destroy :
        (k : ℕ) (c : Connection L)
        → s.life k ≡ removed c
        → Step s (record s { life = put k (gone c) s.life; state = put k disconnect s.state })

  pub data Reach (event_loop : L) (acceptor : Acceptor) (loops : List L) : System L → Type 0 where
    begins : Reach event_loop acceptor loops (record {
      server = running event_loop acceptor loops;
      accepted = 0;
      life = λ k. absent;
      state = λ k. State.none;
      repeats = λ k. 0;
    })
    steps :
        {s s' : System L}
        → Reach event_loop acceptor loops s
        → Step s s'
        → Reach event_loop acceptor loops s'
