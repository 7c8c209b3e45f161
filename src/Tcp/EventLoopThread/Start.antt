-- ===== src/Tcp/EventLoopThread/Start.antt =====
-- What `start` returns, and when it does not.
use budd.Common.{◌≡◌, refl, subst, false, Option, none, some}
use budd.Tcp.EventLoopThread.{
  Starter, before, spawned, waiting, woken, returned, Runner, absent, constructed, looping, System,
  check_start, finish_start, publish, notify, Step, spawn, wait, store, wake_up, finish, IsOwn,
  Reach, OwnReach,
}

module _ {L : Type 0} where
  -- Where the starter stands when no `wait` returns by itself.
  abbrev Fits : L → Starter L → Runner → Option L → Type 0
  Fits loop before r o = r ≡ absent
  Fits loop spawned r o = Unit
  Fits loop waiting r o = Unit
  Fits loop woken r o = o ≡ some loop
  Fits loop (returned p) r o = (p ≡ some loop) × (o ≡ some loop)

  abbrev IsSound : L → System L → Type 0
  IsSound loop s = Fits loop s.starter s.runner s.thread.event_loop

  notify-Fits :
      (loop : L) (st : Starter L) (o : Option L)
      → Fits loop st constructed o
      → Fits loop (notify st) looping (some loop)
  notify-Fits loop before o h = cc
  notify-Fits loop spawned o h = tt
  notify-Fits loop waiting o h = refl
  notify-Fits loop woken o h = refl
  notify-Fits loop (returned p) o h = (h.0, refl)

  Step-IsSound :
      {loop : L} {s s' : System L} (st : Step loop s s')
      → IsOwn st
      → IsSound loop s
      → IsSound loop s'
  unfolding publish finish_start
  Step-IsSound (spawn e f) own h = tt
  Step-IsSound (wait e) own h = tt
  Step-IsSound {loop} {s} (store e) own h =
      notify-Fits loop s.starter s.thread.event_loop
        (subst (λ r. Fits loop s.starter r s.thread.event_loop) e h)
  Step-IsSound (wake_up e) own h = absurd own
  Step-IsSound {loop} {s} (finish e) own h =
      let there : s.thread.event_loop ≡ some loop =
        subst (λ x. Fits loop x s.runner s.thread.event_loop) e h in
      (there, there)

  OwnReach-IsSound : {loop : L} {s : System L} → OwnReach loop s → IsSound loop s
  OwnReach-IsSound OwnReach.begins = refl
  OwnReach-IsSound (OwnReach.steps r st own) = Step-IsSound st own (OwnReach-IsSound r)

  -- If `wait` returns only after a notification, a `start` that has returned has returned the loop that
  -- the new thread constructed.
  pub start_returns_loop :
      (loop : L) (s : System L) (o : Option L)
      → OwnReach loop s
      → s.starter ≡ returned o
      → o ≡ some loop
  start_returns_loop loop s o r e =
      (subst (λ x. Fits loop x s.runner s.thread.event_loop) e (OwnReach-IsSound r)).0

  abbrev missed : L → System L
  missed loop = record {
    thread = record { started = false; event_loop = some loop };
    starter = waiting;
    runner = looping;
  }

  missed-Reach : (loop : L) → Reach loop (missed loop)
  unfolding check_start publish
  missed-Reach loop =
      Reach.steps (Reach.steps (Reach.steps Reach.begins (spawn refl refl)) (store refl))
        (wait refl)

  not-IsOwn :
      (loop : L) (s s' : System L) (st : Step loop s s')
      → s.starter ≡ waiting
      → s.runner ≡ looping
      → ¬ IsOwn st
  not-IsOwn loop s s' (spawn e f) w r own = cc
  not-IsOwn loop s s' (wait e) w r own = cc
  not-IsOwn loop s s' (store e) w r own = cc
  not-IsOwn loop s s' (wake_up e) w r own = own
  not-IsOwn loop s s' (finish e) w r own = cc

  -- A state can be reached in which the calling thread waits in `start` and every possible step is a
  -- return of `wait` with no notification: the new thread has notified before the wait began.
  pub start_may_hang :
      (loop : L)
      → (s : System L) × Reach loop s
        × (s.starter ≡ waiting)
        × ((s' : System L) (st : Step loop s s') → ¬ IsOwn st)
  start_may_hang loop =
      (missed loop, missed-Reach loop, refl, λ s' st. not-IsOwn loop (missed loop) s' st refl refl)

  -- A return of `wait` with no notification can make `start` return a null pointer.
  pub start_may_return_null :
      (loop : L) → (s : System L) × Reach loop s × (s.starter ≡ returned none)
  unfolding check_start finish_start
  start_may_return_null loop = (
    _,
    Reach.steps
        (Reach.steps (Reach.steps (Reach.steps Reach.begins (spawn refl refl)) (wait refl))
          (wake_up refl))
        (finish refl),
    refl,
  )
