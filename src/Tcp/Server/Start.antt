-- ===== src/Tcp/Server/Start.antt =====
-- The start of a server, and how it deals its connections out to the loops.
use budd.Common.{
  ℕ, suc, ◌≡◌, ◌≢◌, refl, ap, ap₂, inl, inr, sym, ◌∙◌, Bool, true, false, List, [], ◌∷◌, length,
  Bytes,
}
use budd.Outcome.{Outcome, Fault, ok, err, Outcome-cases, ◌>>=◌, assertion}
use budd.Tcp.Acceptor.{Acceptor, listen}
use budd.Tcp.LoopPool.{EventLoopThreadPool, get_next_loop, get_loops}
use budd.Tcp.LoopPool as LoopPool
use budd.Tcp.LoopPool.Round.{get_loops_round}
use budd.Tcp.Server.{
  Connection, TcpServer, create, start, post, add_connection, new_connection, new_connections,
}
use budd.Tcp.Server.Steps.{running}

fails : {A : Type 0} {a : A} (x : Fault) → err x ≢ ok a
fails x h = cc

module _ {L : Type 0} where
  -- start of a new server on the thread of its loop, when both calls of ::listen succeed, ends with the
  -- server started, listening and with the loops of the threads; a second start fails an assertion.
  pub start_lem :
      (event_loop : L) (a : Acceptor) (loops loops' : List L) (listens listens_again : Bool)
      → a.listenning ≡ false
      → (start true loops true true (create event_loop a) ≡ ok (running event_loop a loops))
        × (start true loops' listens listens_again (running event_loop a loops) ≡ err assertion)
  unfolding start listen LoopPool.start
  start_lem event_loop a loops loops' listens listens_again down = (rw down refl, refl)

  abbrev pub event_loops : List (Connection L) → List L
  event_loops [] = []
  event_loops (c ∷ cs) = c.event_loop ∷ event_loops cs

  abbrev Deals :
      Outcome (List (Connection L) × TcpServer L) → List L → EventLoopThreadPool L → Type 0
  Deals o loops pool =
      (cs : List (Connection L)) × (s' : TcpServer L) × (o ≡ ok (cs, s'))
      × (event_loops cs ≡ loops)
      × (s'.loop_pool ≡ pool)

  get_loops-cons :
      (n : ℕ) (p : EventLoopThreadPool L) (loops : List L) (pool : EventLoopThreadPool L)
      → get_loops (suc n) p ≡ ok (loops, pool)
      → (loop : L) × (p₁ : EventLoopThreadPool L) × (get_next_loop p ≡ ok (loop, p₁))
        × (ls : List L) × (p₂ : EventLoopThreadPool L) × (get_loops n p₁ ≡ ok (ls, p₂))
        × (loop ∷ ls ≡ loops)
        × (p₂ ≡ pool)
  unfolding get_loops
  get_loops-cons n p loops pool e = elim (Outcome-cases (get_next_loop p)) [
    | inr (x, f) ↦ absurd (
        fails x (
          sym (ap (λ o. o >>= λ (loop, p₁). get_loops n p₁ >>= λ (ls, p₂). ok (loop ∷ ls, p₂)) f)
          ∙ e))
    | inl ((loop, p₁), f) ↦
        let e₁ =
          sym (ap (λ o. o >>= λ (loop, p₁). get_loops n p₁ >>= λ (ls, p₂). ok (loop ∷ ls, p₂)) f)
          ∙ e in
        elim (Outcome-cases (get_loops n p₁)) [
          | inr (x, g) ↦
              absurd (fails x (sym (ap (λ o. o >>= λ (ls, p₂). ok (loop ∷ ls, p₂)) g) ∙ e₁))
          | inl ((ls, p₂), g) ↦
              let e₂ = sym (ap (λ o. o >>= λ (ls, p₂). ok (loop ∷ ls, p₂)) g) ∙ e₁ in
              (loop, p₁, f, ls, p₂, g, cc, cc)
        ]
  ]

  new_connection-ok :
      (fd : ℕ) (ip : Bytes) (s : TcpServer L) (loop : L) (pool : EventLoopThreadPool L)
      → get_next_loop s.loop_pool ≡ ok (loop, pool)
      → new_connection true fd ip s ≡ ok (add_connection fd ip loop pool s)
  unfolding new_connection
  new_connection-ok fd ip s loop pool e =
      ap (λ o. o >>= λ (l, p). ok (add_connection fd ip l p s)) e

  loop_pool-add :
      (fd : ℕ) (ip : Bytes) (loop : L) (pool : EventLoopThreadPool L) (s : TcpServer L)
      → ((add_connection fd ip loop pool s).1).loop_pool ≡ pool
  unfolding add_connection post
  loop_pool-add fd ip loop pool s = refl

  event_loop-add :
      (fd : ℕ) (ip : Bytes) (loop : L) (pool : EventLoopThreadPool L) (s : TcpServer L)
      → ((add_connection fd ip loop pool s).0).event_loop ≡ loop
  unfolding add_connection
  event_loop-add fd ip loop pool s = refl

  new_connections-Deals :
      (arrivals : List (ℕ × Bytes)) (s : TcpServer L) (loops : List L)
      (pool : EventLoopThreadPool L)
      → get_loops (length arrivals) s.loop_pool ≡ ok (loops, pool)
      → Deals (new_connections arrivals s) loops pool
  unfolding new_connections get_loops
  new_connections-Deals [] s loops pool e = ([], s, refl, cc, cc)
  new_connections-Deals ((fd, ip) ∷ arrivals) s loops pool e =
      let (loop, p₁, got, ls, p₂, rest, dealt, end) =
        get_loops-cons (length arrivals) s.loop_pool loops pool e in
      let (cs, s', runs, each, back) =
        new_connections-Deals arrivals ((add_connection fd ip loop p₁ s).1) ls p₂
          (ap (get_loops (length arrivals)) (loop_pool-add fd ip loop p₁ s) ∙ rest) in
      (
        (add_connection fd ip loop p₁ s).0 ∷ cs,
        s',
        rw (new_connection-ok fd ip s loop p₁ got) (rw runs refl),
        ap₂ (◌∷◌) (event_loop-add fd ip loop p₁ s) each ∙ dealt,
        back ∙ end,
      )

  -- As many new connections as the pool has loops, from the first loop on, all get a loop, each another
  -- one, in order, and the pool is then at its first loop again. The pool was started.
  pub new_connections_round :
      (arrivals : List (ℕ × Bytes)) (s : TcpServer L)
      → s.loop_pool.started ≡ true
      → s.loop_pool.next ≡ 0
      → length arrivals ≡ length s.loop_pool.loops
      → Deals (new_connections arrivals s) s.loop_pool.loops s.loop_pool
  new_connections_round arrivals s up first size =
      new_connections-Deals arrivals s s.loop_pool.loops s.loop_pool
        (ap (λ n. get_loops n s.loop_pool) size ∙ get_loops_round s.loop_pool up first)
