-- ===== src/Tcp/EventLoopThread/Tests.antt =====
-- Runs of a starting event loop thread, and the theorems of Start on them. Loops are numbers.
use budd.Common.{◌≡◌, refl, ℕ, some}
use budd.Tcp.EventLoopThread.{
  System, waiting, returned, Step, spawn, wait, store, finish, IsOwn, Reach, OwnReach, check_start,
  finish_start, publish,
}
use budd.Tcp.EventLoopThread.Start.{start_may_hang}

started : (s : System ℕ) × OwnReach 7 s × (s.starter ≡ returned (some 7))
unfolding check_start finish_start publish
started = (
  _,
  OwnReach.steps
      (OwnReach.steps
        (OwnReach.steps (OwnReach.steps OwnReach.begins (spawn refl refl) tt) (wait refl) tt)
        (store refl) tt)
      (finish refl) tt,
  refl,
)

start_may_hang_example :
    (s : System ℕ) × Reach 7 s
    × (s.starter ≡ waiting)
    × ((s' : System ℕ) (st : Step 7 s s') → ¬ IsOwn st)
start_may_hang_example = start_may_hang 7
