-- ===== src/Tcp/Server/Invariant.antt =====
-- The invariant of the connections of a running server, and that every step keeps it.
use budd.Common.{
  ℕ, suc, ◌^◌, ◌<◌, ◌≡◌, ◌≢◌, refl, ap, sym, ◌∙◌, subst, none, some, List, [], ◌∷◌, ◌++◌, arith,
  Bytes,
}
use budd.Tcp.Acceptor.{Acceptor}
use budd.Tcp.LoopPool.{EventLoopThreadPool}
use budd.Tcp.Selector.{put}
use budd.Tcp.Server.{
  Connection, Task, to_establish, to_remove, to_destroy, TcpServer, conn_name, post, add_connection,
  remove_connection,
}
use budd.Tcp.Server.Steps.{
  Life, absent, due, opened, closing, removed, gone, System, held, half_closed, running, Step,
  accept, establish, shut, close, close_again, remove, destroy, Reach, begins, steps,
}
use budd.Tcp.Server.Sound.{
  IsSound, held-lt, relabel-IsSound, accept-IsSound, remove-IsSound, some-injective,
}
use budd.Tcp.Server.Posts.{
  posts_about, tasks_of, IsPosted, post-IsPosted, relabel-IsPosted, repeat-IsPosted,
}
use budd.Tcp.Server.Halves.{IsNamed, AreNamed, put-AreNamed}
use budd.Tcp.Server.Calls.{new_connection-add, erased, remove-erased}

module _ {L : Type 0} where
  pub record IsWell (home : L) (server : TcpServer L) (accepted : ℕ) (life : ℕ → Life L)
      (repeats : ℕ → ℕ) : Type 0 where
    pub at_home : server.event_loop ≡ home
    pub sound :
        accepted < 2 ^ 64 → IsSound server.next_connection_id server.connection_maps accepted life
    pub posted : accepted < 2 ^ 64 → IsPosted home server.posted life repeats
    pub named : accepted < 2 ^ 64 → AreNamed life

  pub none_some : (c : Connection L) → none ≢ some c
  none_some c h = cc

  running-IsWell :
      (home : L) (a : Acceptor) (loops : List L)
      → IsWell home (running home a loops) 0 (λ k. absent) (λ k. 0)
  unfolding posts_about
  running-IsWell home a loops = record {
    at_home = refl;
    sound = λ few. record {
      ids = refl;
      fresh = λ k h. refl;
      named = λ k c h. absurd (none_some c h);
      exact = λ name c h. absurd (none_some c h);
    };
    posted = λ few k small once. refl;
    named = λ few k c e. absurd (none_some c e);
  }

  -- A connection goes on with no task: `establish` and `destroy`.
  relabel-IsWell :
      (home : L) (s : System L) (k : ℕ) (x y : Life L)
      → IsWell home s.server s.accepted s.life s.repeats
      → s.life k ≡ x
      → x ≢ absent
      → held y ≡ held x
      → tasks_of home y ≡ tasks_of home x
      → half_closed y ≡ none
      → IsWell home s.server s.accepted (put k y s.life) s.repeats
  relabel-IsWell home s k x y v at there same tasks open_or_gone = record {
    at_home = v.at_home;
    sound = λ few. relabel-IsSound (v.sound few) k x y at there same;
    posted = λ few.
        relabel-IsPosted home s.server.posted s.life s.repeats k y (v.posted few)
          (tasks ∙ ap (tasks_of home) (sym at));
    named = λ few.
        put-AreNamed s.life k y (v.named few) (λ c e. absurd (none_some c (sym open_or_gone ∙ e)));
  }

  accept-IsWell :
      (home : L) (s : System L) (fd : ℕ) (ip : Bytes) (loop : L) (pool : EventLoopThreadPool L)
      → IsWell home s.server s.accepted s.life s.repeats
      → let added = add_connection fd ip loop pool s.server in
        IsWell home (added.1) (suc s.accepted) (put s.accepted (due (added.0)) s.life) s.repeats
  unfolding add_connection post
  accept-IsWell home s fd ip loop pool v = record {
    at_home = v.at_home;
    sound = λ few. accept-IsSound (v.sound (omega arith)) _ few refl;
    posted = λ few.
        let sound = v.sound (omega arith) in
        let task : Task L = to_establish ((add_connection fd ip loop pool s.server).0) in
        post-IsPosted home s.server.posted s.life s.repeats s.accepted _ loop task
          (v.posted (omega arith)) (omega arith) (ap conn_name sound.ids)
          (ap (λ x. tasks_of home x ++ (loop, task) ∷ [])
            (sym (sound.fresh s.accepted (omega arith))));
    named = λ few.
        put-AreNamed s.life s.accepted _ (v.named (omega arith)) (λ c e. absurd (none_some c e));
  }

  close-IsWell :
      (home : L) (s : System L) (k : ℕ) (c : Connection L)
      → IsWell home s.server s.accepted s.life s.repeats
      → s.life k ≡ opened c
      → IsWell home (remove_connection c s.server) s.accepted (put k (closing c) s.life) s.repeats
  unfolding remove_connection post
  close-IsWell home s k c v at = record {
    at_home = v.at_home;
    sound = λ few. relabel-IsSound (v.sound few) k (opened c) (closing c) at (λ e. cc) refl;
    posted = λ few.
        let sound = v.sound few in
        let is_held = ap held at in
        subst
          (λ l.
            IsPosted home (s.server.posted ++ (l, to_remove c) ∷ []) (put k (closing c) s.life)
              s.repeats)
          (sym v.at_home)
          (post-IsPosted home s.server.posted s.life s.repeats k (closing c) home (to_remove c)
            (v.posted few) (omega (arith, held-lt sound k c is_held)) ((sound.named k c is_held).0)
            (ap (λ x. tasks_of home x ++ (home, to_remove c) ∷ []) (sym at)));
    named = λ few.
        let sound = v.sound few in
        let is_held = ap held at in
        put-AreNamed s.life k (closing c) (v.named few) (λ d e.
          subst (IsNamed k) (some-injective e)
            ((sound.named k c is_held).0, omega (arith, held-lt sound k c is_held)));
  }

  repeat-IsWell :
      (home : L) (s : System L) (k : ℕ) (c : Connection L)
      → IsWell home s.server s.accepted s.life s.repeats
      → half_closed (s.life k) ≡ some c
      → IsWell home
          (remove_connection c s.server)
          s.accepted
          s.life
          (put k (suc (s.repeats k)) s.repeats)
  unfolding remove_connection post
  repeat-IsWell home s k c v half = record {
    at_home = v.at_home;
    sound = v.sound;
    posted = λ few.
        let (name, small) = v.named few k c half in
        subst
          (λ l.
            IsPosted home (s.server.posted ++ (l, to_remove c) ∷ []) s.life
              (put k (suc (s.repeats k)) s.repeats))
          (sym v.at_home)
          (repeat-IsPosted home s.server.posted s.life s.repeats k home (to_remove c) (v.posted few)
            small name);
    named = v.named;
  }

  remove-IsWell :
      (home : L) (s : System L) (k : ℕ) (c : Connection L)
      → IsWell home s.server s.accepted s.life s.repeats
      → s.life k ≡ closing c
      → IsWell home (erased c s.server) s.accepted (put k (removed c) s.life) s.repeats
  unfolding post
  remove-IsWell home s k c v at = record {
    at_home = v.at_home;
    sound = λ few. remove-IsSound (v.sound few) k c few at;
    posted = λ few.
        let sound = v.sound few in
        let is_held = ap held at in
        post-IsPosted home s.server.posted s.life s.repeats k (removed c) c.event_loop
          (to_destroy c) (v.posted few) (omega (arith, held-lt sound k c is_held))
          ((sound.named k c is_held).0)
          (ap (λ x. tasks_of home x ++ (c.event_loop, to_destroy c) ∷ []) (sym at));
    named = λ few.
        put-AreNamed s.life k (removed c) (v.named few)
          (λ d e. v.named few k d (ap half_closed at ∙ e));
  }

  Step-IsWell :
      (home : L) {s s' : System L}
      → IsWell home s.server s.accepted s.life s.repeats
      → Step s s'
      → IsWell home s'.server s'.accepted s'.life s'.repeats
  Step-IsWell home {s} v (accept fd ip c server e) =
      let (loop, pool, got, same) = new_connection-add fd ip s.server server c e in
      subst (λ x. IsWell home (x.1) (suc s.accepted) (put s.accepted (due (x.0)) s.life) s.repeats)
        (sym same) (accept-IsWell home s fd ip loop pool v)
  Step-IsWell home {s} v (establish k c at) =
      relabel-IsWell home s k (due c) (opened c) v at (λ e. cc) refl refl refl
  Step-IsWell home v (shut k up) = v
  Step-IsWell home {s} v (close k c at) = close-IsWell home s k c v at
  Step-IsWell home {s} v (close_again k c half) = repeat-IsWell home s k c v half
  Step-IsWell home {s} v (remove k c server at e) =
      subst (λ x. IsWell home x s.accepted (put k (removed c) s.life) s.repeats)
        (sym (remove-erased c s.server server e)) (remove-IsWell home s k c v at)
  Step-IsWell home {s} v (destroy k c at) =
      relabel-IsWell home s k (removed c) (gone c) v at (λ e. cc) refl refl refl

  pub Reach-IsWell :
      (home : L) (a : Acceptor) (loops : List L) {s : System L}
      → Reach home a loops s
      → IsWell home s.server s.accepted s.life s.repeats
  Reach-IsWell home a loops begins = running-IsWell home a loops
  Reach-IsWell home a loops (steps r st) = Step-IsWell home (Reach-IsWell home a loops r) st
