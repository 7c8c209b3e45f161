-- ===== src/Tcp/Timer/Schedule.antt =====
-- What the operations of the queue do to the timers.
use mathlib.Core.Option.{none-ne-some}
use budd.Common.{
  ℕ, suc, ◌+◌, ◌-◌, ◌*◌, ◌<◌, ◌≡◌, ◌≢◌, refl, ap, sym, ◌∙◌, inl, inr, Bool, true, false, none, some,
  List, [], ◌∷◌, arith, ltb, ◌==◌, ==_iff, Bool-cases, lt→ltb, if◌then◌else◌,
}
use budd.Outcome.{ok, err, ◌>>=◌, out_of_bounds}
use budd.Tcp.Timer.{
  Timer, Entry, TimerQueue, long_max, insert, split_at, is_latest, find_expired, cancel, tick,
  set_time, enqueue, add_timer_in_loop, add_timer,
}
use budd.Tcp.Timer.Set.{
  Above, at, or_else, or_else-none, insert-Above, at-insert, Cuts, split_at-Cuts,
  begins_after-Above, HasIds, other_than, at-erase_id,
}

module _ {K : Type 0} where
  -- `findExpired` on a sorted set succeeds and takes out exactly the timers that are due: the set
  -- is cut into those up to `now`, which become the active ones in order, and the later ones, which
  -- stay, sorted. `now` is below the largest `long`.
  pub find_expired_lem :
      (nothing : K) (now low : ℕ) (q : TimerQueue K)
      → now < long_max
      → Above low q.timer_set
      → (q' : TimerQueue K) × (find_expired nothing now q ≡ ok q')
        × Cuts now q.timer_set q'.active_timers q'.timer_set
  unfolding find_expired
  find_expired_lem nothing now low q below above =
      let duumy : Timer K = record {
        timer_callback = nothing;
        when = long_max;
        interval_usec = 0;
        id = q.global_id;
      } in
      let cuts = split_at-Cuts now low duumy q.timer_set refl below above in
      (
        record q {
          active_timers = (split_at (now, duumy) q.timer_set).0;
          timer_set = (split_at (now, duumy) q.timer_set).1;
          global_id = suc q.global_id;
        },
        rw (begins_after-Above now (split_at (now, duumy) q.timer_set).1 cuts.due_later) refl,
        cuts,
      )

  is_latest-ok :
      (when : ℕ) (xs : List (Entry K)) → xs ≢ [] → (b : Bool) × (is_latest when xs ≡ ok b)
  unfolding is_latest
  is_latest-ok when [] some_left = absurd (some_left refl)
  is_latest-ok when (x ∷ []) some_left = (true, refl)
  is_latest-ok when (x ∷ y ∷ xs) some_left = (ltb when x.0, refl)

  module _ (time : ℕ → ℕ) (t : Timer K) (q : TimerQueue K) (later : time q.calls < t.when) where
    pub enqueue-ok :
        q.timer_set ≢ []
        → (b : Bool) × (enqueue time t q
            ≡ ok (b, record (tick time q) { timer_set = insert (t.when, t) q.timer_set }))
    unfolding enqueue
    enqueue-ok some_left =
        let (b, e) = is_latest-ok t.when q.timer_set some_left in
        (b, rw (lt→ltb _ _ later, e, ◌>>=◌) refl)

    -- `enqueue` of a timer that is yet to come, into a set that is sorted by time and not empty,
    -- succeeds, keeps the set sorted, and puts the timer in under its time, unless another timer
    -- has that time; it touches no other timer.
    pub enqueue_lem :
        Above 0 q.timer_set
        → q.timer_set ≢ []
        → (b : Bool) × (q' : TimerQueue K) × (enqueue time t q ≡ ok (b, q'))
          × Above 0 q'.timer_set
          × ((s : ℕ)
              → at s q'.timer_set
                ≡ or_else (at s q.timer_set) (if t.when == s then some t else none))
    enqueue_lem above some_left =
        let (b, e) = enqueue-ok some_left in
        (
          b,
          record (tick time q) { timer_set = insert (t.when, t) q.timer_set },
          e,
          insert-Above 0 t q.timer_set (omega arith) above,
          λ s. at-insert 0 s t q.timer_set above,
        )

    -- `enqueue` into an empty set reads past its end.
    pub enqueue_empty : q.timer_set ≡ [] → enqueue time t q ≡ err out_of_bounds
    unfolding enqueue is_latest
    enqueue_empty empty = rw (lt→ltb _ _ later, ap (is_latest t.when) empty, ◌>>=◌) refl

  -- `addTimer` at a time that another timer has returns a new id, and leaves every time its old
  -- timer: the new one is lost. The time is yet to come, and the set is sorted.
  pub add_timer_dropped :
      (time : ℕ → ℕ) (callback : K) (when interval : ℕ) (u : Timer K) (q : TimerQueue K)
      → time q.calls < when
      → Above 0 q.timer_set
      → at when q.timer_set ≡ some u
      → (q' : TimerQueue K) × (add_timer time callback when interval q ≡ ok (q.global_id, q'))
        × ((s : ℕ) → at s q'.timer_set ≡ at s q.timer_set)
  unfolding add_timer add_timer_in_loop set_time
  add_timer_dropped time callback when interval u q later above taken =
      let (b, q', e, above', looks) =
        enqueue_lem time t (record q { global_id = suc q.global_id }) later above some_left in
      (
        (if b then set_time time when q' else q'),
        rw (e, ◌>>=◌) refl,
        λ s. armed_at b q' s ∙ looks s ∙ stays s,
      )
    where
      t : Timer K
      t = record {
        timer_callback = callback;
        when = when;
        interval_usec = interval;
        id = q.global_id;
      }

      some_left : q.timer_set ≢ []
      some_left empty = none-ne-some u (ap (at when) (sym empty) ∙ taken)

      armed_at :
          (b : Bool) (q' : TimerQueue K) (s : ℕ)
          → at s (if b then set_time time when q' else q').timer_set ≡ at s q'.timer_set
      armed_at true q' s = refl
      armed_at false q' s = refl

      stays :
          (s : ℕ)
          → or_else (at s q.timer_set) (if when == s then some t else none) ≡ at s q.timer_set
      stays s = elim (Bool-cases (when == s)) [
        | inl same ↦
            let there : at s q.timer_set ≡ some u =
              ap (λ x. at x q.timer_set) (sym ((==_iff when s).0 same)) ∙ taken in
            rw there refl
        | inr other ↦ rw other (or_else-none (at s q.timer_set))
      ]

  -- `setTime` arms the timer for the time that is left, or for 100 microseconds if less is left or
  -- the time is past: seconds and nanoseconds add up to it, and there are less than 10 ^ 9
  -- nanoseconds.
  pub set_time_lem :
      (time : ℕ → ℕ) (when : ℕ) (q : TimerQueue K)
      → (seconds : ℕ) × (nanoseconds : ℕ) × ((set_time time when q).armed
          ≡ some (seconds, nanoseconds))
        × (seconds * 1000000000 + nanoseconds
            ≡ 1000 * (if ltb (when - time q.calls) 100 then 100 else when - time q.calls))
        × (nanoseconds < 1000000000)
  unfolding set_time
  set_time_lem time when q = (_, _, refl, omega arith, omega arith)

  -- `cancel` of an id takes the timer with that id out of a sorted set with distinct ids, if there
  -- is one, and touches no other timer.
  pub at-cancel :
      (i s low : ℕ) (q : TimerQueue K)
      → Above low q.timer_set
      → HasIds q.timer_set
      → at s (cancel i q).timer_set ≡ other_than i (at s q.timer_set)
  unfolding cancel
  at-cancel i s low q above ids = at-erase_id i s low q.timer_set above ids
