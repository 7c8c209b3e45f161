-- ===== src/Tcp/Server/Lives.antt =====
-- What holds of the connections of a running server, in every state that can be reached.
use budd.Common.{ℕ, ◌^◌, ◌<◌, ◌≡◌, refl, ap, sym, ◌∙◌, true, Option, none, some, List, arith, Bytes}
use budd.Outcome.{ok, err, ◌>>◌, demand, assertion}
use budd.Tcp.Acceptor.{Acceptor}
use budd.Tcp.Server.{Connection, TcpServer, is_there, conn_name, post, remove_connection_in_loop}
use budd.Tcp.Server.Steps.{closing, removed, System, held, half_closed, Reach}
use budd.Tcp.Server.Sound.{put_name_same, held-lt, conn_name_injective}
use budd.Tcp.Server.Posts.{posts_about, tasks_of}
use budd.Tcp.Server.Halves.{IsNamed}
use budd.Tcp.Server.Calls.{erased}
use budd.Tcp.Server.Invariant.{Reach-IsWell, none_some}

module _ {L : Type 0} where
  -- In every state that a started server can reach with less than 2 ^ 64 connections accepted, the map
  -- of connections has under the name of a number exactly the connection of that number, if it was
  -- accepted and not yet removed, and it has nothing else.
  pub map_is_live :
      (home : L) (a : Acceptor) (loops : List L) (s : System L)
      → Reach home a loops s
      → s.accepted < 2 ^ 64
      → ((k : ℕ) (c : Connection L)
          → held (s.life k) ≡ some c
          → s.server.connection_maps (conn_name k) ≡ some c)
        × ((name : Bytes) (c : Connection L)
            → s.server.connection_maps name ≡ some c
            → (k : ℕ) × (name ≡ conn_name k) × (held (s.life k) ≡ some c))
  map_is_live home a loops s r few =
      let sound = (Reach-IsWell home a loops r).sound few in
      (λ k c h. (sound.named k c h).1, sound.exact)

  -- In every state that a started server can reach with less than 2 ^ 64 connections accepted, a removal
  -- that is due passes its assertion, and afterwards the name of the connection is free.
  pub removal_succeeds :
      (home : L) (a : Acceptor) (loops : List L) (s : System L) (k : ℕ) (c : Connection L)
      → Reach home a loops s
      → s.accepted < 2 ^ 64
      → s.life k ≡ closing c
      → (server : TcpServer L) × (remove_connection_in_loop true c s.server ≡ ok server)
        × (server.connection_maps c.name ≡ none)
  unfolding remove_connection_in_loop post
  removal_succeeds home a loops s k c r few at =
      let sound = (Reach-IsWell home a loops r).sound few in
      let named = sound.named k c (ap held at) in
      (
        erased c s.server,
        ap (λ o. demand (is_there o) assertion >> ok (erased c s.server))
            (ap s.server.connection_maps named.0 ∙ named.1),
        put_name_same c.name none s.server.connection_maps,
      )

  -- In every state that a started server can reach with less than 2 ^ 64 connections accepted, a second
  -- removal of a connection fails its assertion.
  second_removal_fails :
      (home : L) (a : Acceptor) (loops : List L) (s : System L) (k : ℕ) (c : Connection L)
      → Reach home a loops s
      → s.accepted < 2 ^ 64
      → s.life k ≡ removed c
      → remove_connection_in_loop true c s.server ≡ err assertion
  unfolding remove_connection_in_loop
  second_removal_fails home a loops s k c r few at = go (s.server.connection_maps c.name) refl
    where
      named : IsNamed k c
      named = (Reach-IsWell home a loops r).named few k c (ap half_closed at)

      go :
          (o : Option (Connection L))
          → s.server.connection_maps c.name ≡ o
          → (demand (is_there (s.server.connection_maps c.name)) assertion
              >> ok (erased c s.server))
            ≡ err assertion
      go none e = ap (λ o. demand (is_there o) assertion >> ok (erased c s.server)) e
      go (some d) e =
          let sound = (Reach-IsWell home a loops r).sound few in
          let (j, same, is_held) = sound.exact c.name d e in
          let other : j ≡ k =
            conn_name_injective j k (omega (arith, held-lt sound j d is_held)) named.1
              (sym same ∙ named.0) in
          absurd
            (none_some d (sym (ap held at) ∙ (ap (λ i. held (s.life i)) (sym other) ∙ is_held)))

  -- In every state that a started server can reach with less than 2 ^ 64 connections accepted, the tasks
  -- that loops were given for a connection whose close callback was called at most once are, in this order
  -- and each once: connectEstablished on its loop, once it was closed the removal on the server's loop,
  -- and once it was removed connectDestroyed on its loop.
  pub connection_tasks :
      (home : L) (a : Acceptor) (loops : List L) (s : System L) (k : ℕ)
      → Reach home a loops s
      → s.accepted < 2 ^ 64
      → k < 2 ^ 64
      → s.repeats k ≡ 0
      → posts_about (conn_name k) s.server.posted ≡ tasks_of home (s.life k)
  connection_tasks home a loops s k r few small once =
      (Reach-IsWell home a loops r).posted few k small once
