-- ===== src/Tcp/Acceptor.antt =====
-- tcp/acceptor.h and tcp/acceptor.cpp: `class Acceptor`. What the socket calls return is an
-- argument; the rest of the program is a state `S`.
pub mod Clients
use budd.Common.{ℕ, Bool, true, false, Option, none, some, ◌==◌, take, Bytes}
use budd.Outcome.{Outcome, ok, err, ◌>>=◌, ◌>>◌, demand, fatal}
use budd.Tcp.Channel.{read_event, empty_event}

-- `m_listenChannel` is here by its events.
pub record Acceptor : Type 0 where
  pub listenning : Bool
  pub events : ℕ

-- The constructor, with what `socket` and `bind` return: -1 is `none` and `false`.
unfoldable pub create : Option ℕ → Bool → Outcome Acceptor
create none bound = err fatal
create (some fd) bound =
    demand bound fatal >> ok (record { listenning = false; events = empty_event })

-- `Acceptor::listen`; `listens` tells whether `::listen` succeeds.
unfoldable pub listen : Bool → Acceptor → Outcome Acceptor
listen listens a = do demand listens fatal; ok (record a { events = read_event; listenning = true })

-- What `::accept` returns: -1, or a descriptor, with the bytes of `clientAddr`.
pub data Accept : Type 0 where
  failed : Accept
  accepted : ℕ → Bytes → Accept

module _ {S : Type 0}
    -- `inet_ntop` for AF_INET, of the four bytes that it reads
    (inet_ntop : Bytes → Bytes)
    -- `::close`
    (close : ℕ → S → S)
    -- what is registered by `setNewConnectionCallback`
    (new_connection_callback : Option (ℕ → Bytes → S → Outcome S)) where
  -- `inet_ntop` is given the address of `clientAddr`.
  abbrev pub client_ip : Bytes → Bytes
  client_ip client_addr = inet_ntop (take 4 client_addr)

  abbrev pub hand_on : Option (ℕ → Bytes → S → Outcome S) → ℕ → Bytes → S → Outcome S
  hand_on none conn_fd ip s = ok (close conn_fd s)
  hand_on (some callback) conn_fd ip s = callback conn_fd ip s

  -- `Acceptor::accept`
  unfoldable pub accept : Accept → S → Outcome S
  accept failed s = err fatal
  accept (accepted conn_fd client_addr) s =
      hand_on new_connection_callback conn_fd (client_ip client_addr) s
