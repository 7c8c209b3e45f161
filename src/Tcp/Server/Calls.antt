-- ===== src/Tcp/Server/Calls.antt =====
-- What `newConnection` and `removeConnectionInLoop` did when they have ended.
use budd.Common.{ℕ, ◌≡◌, refl, Bool, true, false, none, Bytes}
use budd.Outcome.{Outcome, ok, err, ◌>>=◌, ◌>>◌, demand, assertion}
use budd.Tcp.LoopPool.{EventLoopThreadPool, get_next_loop}
use budd.Tcp.Server.{
  Connection, to_destroy, TcpServer, put_name, is_there, post, add_connection, new_connection,
  remove_connection_in_loop,
}

module _ {L : Type 0} where
  -- What `newConnection` did when it has ended.
  pub new_connection-add :
      (fd : ℕ) (ip : Bytes) (s s' : TcpServer L) (c : Connection L)
      → new_connection true fd ip s ≡ ok (c, s')
      → (loop : L) × (pool : EventLoopThreadPool L) × (get_next_loop s.loop_pool ≡ ok (loop, pool))
        × ((c, s') ≡ add_connection fd ip loop pool s)
  unfolding new_connection
  new_connection-add fd ip s s' c e = go (get_next_loop s.loop_pool) refl e
    where
      go :
          (o : Outcome (L × EventLoopThreadPool L))
          → get_next_loop s.loop_pool ≡ o
          → (o >>= λ (loop, pool). ok (add_connection fd ip loop pool s)) ≡ ok (c, s')
          → (loop : L) × (pool : EventLoopThreadPool L) × (get_next_loop s.loop_pool
              ≡ ok (loop, pool))
            × ((c, s') ≡ add_connection fd ip loop pool s)
      go (err x) f h = cc
      go (ok (loop, pool)) f h = (loop, pool, f, cc)

  abbrev pub erased : Connection L → TcpServer L → TcpServer L
  erased c s =
      post c.event_loop (to_destroy c)
        (record s { connection_maps = put_name c.name none s.connection_maps })

  pub remove-erased :
      (c : Connection L) (s s' : TcpServer L)
      → remove_connection_in_loop true c s ≡ ok s'
      → s' ≡ erased c s
  unfolding remove_connection_in_loop
  remove-erased c s s' e = go (is_there (s.connection_maps c.name)) e
    where
      go : (b : Bool) → (demand b assertion >> ok (erased c s)) ≡ ok s' → s' ≡ erased c s
      go true h = cc
      go false h = cc
