-- ===== src/Tcp/Server/Handlers.antt =====
-- The handlers of a connection pass their assertions when the server has them called.
use budd.Common.{
  ℕ, ◌≡◌, refl, ap, sym, subst, inl, inr, true, Bool-cases, ◌==◌, ==_iff, List, if◌then◌else◌,
}
use budd.Outcome.{Outcome, ok, ◌>>=◌, ◌>>◌, demand, assertion}
use budd.Tcp.Acceptor.{Acceptor}
use budd.Tcp.Connection.{
  TcpConnection, State, connected, disconnecting, disconnect, is_none, is_open, enable_read,
  disable_events, connect_established, handle_close, connect_destroyed,
}
use budd.Tcp.Channel.{empty_event}
use budd.Tcp.Selector.{put}
use budd.Tcp.Server.Steps.{
  Life, absent, due, opened, closing, removed, gone, System, accept, establish, shut, close,
  close_again, remove, destroy, Reach, begins, steps,
}

module _ {L : Type 0} where
  -- The states in which a connection may be, by how far it has come.
  abbrev Fits : Life L → State → Type 0
  Fits absent x = Unit
  Fits (due c) x = x ≡ State.none
  Fits (opened c) x = is_open x ≡ true
  Fits (closing c) x = is_open x ≡ true
  Fits (removed c) x = is_open x ≡ true
  Fits (gone c) x = x ≡ disconnect

  Fits-put :
      (life : ℕ → Life L) (state : ℕ → State) (k : ℕ) (y : Life L) (z : State)
      → ((j : ℕ) → Fits (life j) (state j))
      → Fits y z
      → (j : ℕ) → Fits (put k y life j) (put k z state j)
  Fits-put life state k y z v h j = elim (Bool-cases (j == k)) [
    | inl e ↦ subst (λ b. Fits (if b then y else life j) (if b then z else state j)) (sym e) h
    | inr e ↦ subst (λ b. Fits (if b then y else life j) (if b then z else state j)) (sym e) (v j)
  ]

  -- The life goes on with the state as it is, or the state with the life.
  Fits-life :
      (life : ℕ → Life L) (state : ℕ → State) (k : ℕ) (y : Life L)
      → ((j : ℕ) → Fits (life j) (state j))
      → Fits y (state k)
      → (j : ℕ) → Fits (put k y life j) (state j)
  Fits-life life state k y v h j = elim (Bool-cases (j == k)) [
    | inl e ↦
        subst (λ b. Fits (if b then y else life j) (state j)) (sym e)
          (subst (λ i. Fits y (state i)) (sym ((==_iff j k).0 e)) h)
    | inr e ↦ subst (λ b. Fits (if b then y else life j) (state j)) (sym e) (v j)
  ]

  Fits-state :
      (life : ℕ → Life L) (state : ℕ → State) (k : ℕ) (z : State)
      → ((j : ℕ) → Fits (life j) (state j))
      → Fits (life k) z
      → (j : ℕ) → Fits (life j) (put k z state j)
  Fits-state life state k z v h j = elim (Bool-cases (j == k)) [
    | inl e ↦
        subst (λ b. Fits (life j) (if b then z else state j)) (sym e)
          (subst (λ i. Fits (life i) z) (sym ((==_iff j k).0 e)) h)
    | inr e ↦ subst (λ b. Fits (life j) (if b then z else state j)) (sym e) (v j)
  ]

  -- Only a connection that is open can be shut.
  shut-Fits : (x : Life L) (z : State) → Fits x z → z ≡ connected → Fits x disconnecting
  shut-Fits absent z h e = tt
  shut-Fits (due c) z h e = cc
  shut-Fits (opened c) z h e = refl
  shut-Fits (closing c) z h e = refl
  shut-Fits (removed c) z h e = refl
  shut-Fits (gone c) z h e = cc

  Reach-Fits :
      (home : L) (a : Acceptor) (loops : List L) {s : System L}
      → Reach home a loops s
      → (k : ℕ) → Fits (s.life k) (s.state k)
  Reach-Fits home a loops begins = λ k. tt
  Reach-Fits home a loops (steps {s} r (accept fd ip c server e)) =
      Fits-put s.life s.state s.accepted (due c) State.none (Reach-Fits home a loops r) refl
  Reach-Fits home a loops (steps {s} r (establish k c at)) =
      Fits-put s.life s.state k (opened c) connected (Reach-Fits home a loops r) refl
  Reach-Fits home a loops (steps {s} r (shut k up)) =
      let v = Reach-Fits home a loops r in
      Fits-state s.life s.state k disconnecting v (shut-Fits (s.life k) (s.state k) (v k) up)
  Reach-Fits home a loops (steps {s} r (close k c at)) =
      let v = Reach-Fits home a loops r in
      Fits-life s.life s.state k (closing c) v (subst (λ x. Fits x (s.state k)) at (v k))
  Reach-Fits home a loops (steps {s} r (close_again k c half)) = Reach-Fits home a loops r
  Reach-Fits home a loops (steps {s} r (remove k c server at e)) =
      let v = Reach-Fits home a loops r in
      Fits-life s.life s.state k (removed c) v (subst (λ x. Fits x (s.state k)) at (v k))
  Reach-Fits home a loops (steps {s} r (destroy k c at)) =
      Fits-put s.life s.state k (gone c) disconnect (Reach-Fits home a loops r) refl

  module _ {X W : Type 0}
      (connection_callback : TcpConnection X → W → Outcome (TcpConnection X × W))
      (message_callback : TcpConnection X → ℕ → W → Outcome (TcpConnection X × W))
      (close_callback : TcpConnection X → W → Outcome (TcpConnection X × W)) (w : W) where
    -- The handler that is called next goes past its assertion.
    abbrev pub Passes : Life L → TcpConnection X → Type 0
    Passes (due conn) c =
        connect_established connection_callback message_callback close_callback c w ≡ (
          connection_callback (record c { state = connected }) w >>= λ (c', w').
          ok (enable_read c', w'))
    Passes (opened conn) c =
        handle_close connection_callback message_callback close_callback c w
        ≡ close_callback (disable_events c) w
    Passes (removed conn) c =
        connect_destroyed c
        ≡ ok (record c { state = disconnect; events = empty_event; closed = true })
    Passes _ c = Unit

    Fits-Passes : (x : Life L) (c : TcpConnection X) → Fits x c.state → Passes x c
    unfolding connect_established handle_close connect_destroyed
    Fits-Passes absent c h = tt
    Fits-Passes (due conn) c h =
        ap
          (λ st.
            demand (is_none st) assertion
            >> (connection_callback (record c { state = connected }) w >>= λ (c', w').
                ok (enable_read c', w')))
          h
    Fits-Passes (opened conn) c h =
        ap (λ b. demand b assertion >> close_callback (disable_events c) w) h
    Fits-Passes (closing conn) c h = tt
    Fits-Passes (removed conn) c h =
        ap
          (λ b.
            demand b assertion
            >> ok (record c { state = disconnect; events = empty_event; closed = true }))
          h
    Fits-Passes (gone conn) c h = tt

    -- In every state that a started server can reach, the assertions of the handlers that a connection is
    -- waiting for hold: connectEstablished behind newConnection, handleClose of an open connection, and
    -- connectDestroyed behind removeConnectionInLoop.
    pub handlers_pass :
        (home : L) (a : Acceptor) (loops : List L) (s : System L) (k : ℕ) (c : TcpConnection X)
        → Reach home a loops s
        → c.state ≡ s.state k
        → Passes (s.life k) c
    handlers_pass home a loops s k c r same =
        Fits-Passes (s.life k) c (subst (Fits (s.life k)) (sym same) (Reach-Fits home a loops r k))
