-- ===== src/Tcp/Timer/Read.antt =====
-- `TimerQueue::handleRead` as a whole.
use budd.Common.{
  ℕ, suc, ◌+◌, ◌≤◌, ◌<◌, ◌≡◌, ◌≢◌, refl, ap, ◌∙◌, subst, inl, inr, false, Option, none, some, List,
  [], ◌∷◌, ◌++◌, arith, length, ◌==◌, Bool-cases, if◌then◌else◌,
}
use budd.Outcome.{Outcome, ok}
use budd.Tcp.Timer.{
  Timer, Entry, TimerQueue, create_timer, split_at, long_max, is_repeat, restart, insert, next_when,
  tick, set_time, requeue, reset_time, read_timerfd, find_expired, start_all, handle_read,
}
use budd.Tcp.Timer.Set.{
  Above, at, or_else, UpTo, insert-Above, at-insert, split_at-append, begins_after-Above,
}
use budd.Tcp.Timer.Schedule.{enqueue-ok}

-- The callbacks of the timers, one after another.
abbrev pub act_all : {K W : Type 0} → (K → W → W) → List (Entry K) → W → W
act_all act [] w = w
act_all act ((when, t) ∷ xs) w = act_all act xs (act t.timer_callback w)

module _ {K : Type 0} where
  -- The timers by their times, once the repeating ones of the list are back, each under its next time
  -- if no timer has it.
  abbrev pub again : List (Entry K) → (ℕ → Option (Timer K)) → ℕ → Option (Timer K)
  again [] timers s = timers s
  again ((w, t) ∷ xs) timers s =
      if is_repeat t
      then again xs
          (λ r.
            or_else (timers r) (if t.when + t.interval_usec == r then some (restart t) else none))
          s
      else again xs timers s

  -- The next times of the repeating timers of the list are later than `top`.
  abbrev pub NextAfter : ℕ → List (Entry K) → Type 0
  NextAfter top [] = Unit {0}
  NextAfter top ((w, t) ∷ xs) =
      (0 < t.interval_usec → top < t.when + t.interval_usec) × NextAfter top xs

  again-ap :
      (xs : List (Entry K)) (f g : ℕ → Option (Timer K))
      → ((s : ℕ) → f s ≡ g s)
      → (s : ℕ) → again xs f s ≡ again xs g s
  again-ap [] f g same s = same s
  again-ap ((w, t) ∷ xs) f g same s = elim (Bool-cases (is_repeat t)) [
    | inl repeats ↦ rw repeats (
        again-ap xs _ _
          (λ r.
            ap (λ o. or_else o (if t.when + t.interval_usec == r then some (restart t) else none))
              (same r))
          s)
    | inr once ↦ rw once (again-ap xs f g same s)
  ]

  insert-some_left : (e : Entry K) (xs : List (Entry K)) → insert e xs ≢ []
  unfolding insert
  insert-some_left e [] = λ x. cc
  insert-some_left e (x ∷ xs) = ground arith

  next_positive :
      (now : ℕ) (xs : List (Entry K)) → Above (suc now) xs → xs ≢ [] → next_when xs == 0 ≡ false
  next_positive now [] above some_left = absurd (some_left refl)
  next_positive now ((w, t) ∷ xs) ((k, e), above) some_left = ground arith

  pub find_expired-append :
      (nothing : K) (now : ℕ) (due later : List (Entry K)) (q : TimerQueue K)
      → q.timer_set ≡ due ++ later
      → Above 0 q.timer_set
      → UpTo now due
      → Above (suc now) later
      → now < long_max
      → find_expired nothing now q
        ≡ ok (record q { active_timers = due; timer_set = later; global_id = suc q.global_id })
  unfolding find_expired
  find_expired-append nothing now due later q cut all upto above below =
      let d = create_timer long_max 0 nothing q.global_id in
      let e : split_at (now, d) q.timer_set ≡ (due, later) =
        ap (split_at (now, d)) cut
        ∙ split_at-append now 0 d due later refl below upto (subst (Above 0) cut all) above in
      rw (e, begins_after-Above now later above) refl

  module _ (time : ℕ → ℕ) where
    requeue_lem :
        (now top : ℕ) (xs : List (Entry K)) (q : TimerQueue K)
        → now ≤ top
        → ((i : ℕ) → i < q.calls + length xs → time i ≤ top)
        → NextAfter top xs
        → Above (suc now) q.timer_set
        → q.timer_set ≢ []
        → (q' : TimerQueue K) × (requeue time xs q ≡ ok q')
          × Above (suc now) q'.timer_set
          × (q'.timer_set ≢ [])
          × ((s : ℕ) → at s q'.timer_set ≡ again xs (λ r. at r q.timer_set) s)
    unfolding requeue restart
    requeue_lem now top [] q h clock next above some_left = (q, refl, above, some_left, λ s. refl)
    requeue_lem now top ((w, t) ∷ xs) q h clock (first, next) above some_left =
        elim (Bool-cases (is_repeat t)) [
          | inl repeats ↦
              let u : Timer K = record t { when = t.when + t.interval_usec } in
              let later : top < u.when = first (ground (arith, repeats)) in
              let soon : time q.calls ≤ top = clock q.calls (omega arith) in
              let (b, e) = enqueue-ok time u q (omega arith) some_left in
              let q₁ : TimerQueue K = record (tick time q) {
                timer_set = insert (u.when, u) q.timer_set;
              } in
              let (q', e', above', left', looks) =
                requeue_lem now top xs q₁ h (λ i k. clock i (omega arith)) next
                  (insert-Above (suc now) u q.timer_set (omega arith) above)
                  (insert-some_left (u.when, u) q.timer_set) in
              (
                q',
                rw (repeats, e) e',
                above',
                left',
                λ s.
                    looks s
                    ∙ rw repeats
                        (again-ap xs _ _ (λ r. at-insert (suc now) r u q.timer_set above) s),
              )
          | inr once ↦
              let (q', e', above', left', looks) =
                requeue_lem now top xs q h (λ i k. clock i (omega arith)) next above some_left in
              (q', rw once e', above', left', λ s. looks s ∙ rw once refl)
        ]

    reset_time_lem :
        (now top : ℕ) (q : TimerQueue K)
        → now ≤ top
        → ((i : ℕ) → i < q.calls + length q.active_timers → time i ≤ top)
        → NextAfter top q.active_timers
        → Above (suc now) q.timer_set
        → q.timer_set ≢ []
        → (q' : TimerQueue K) × (reset_time time q ≡ ok (set_time time (next_when q'.timer_set) q'))
          × Above (suc now) q'.timer_set
          × ((s : ℕ) → at s q'.timer_set ≡ again q.active_timers (λ r. at r q.timer_set) s)
    unfolding reset_time
    reset_time_lem now top q h clock next above some_left =
        let (q', e, above', left', looks) =
          requeue_lem now top q.active_timers q h clock next above some_left in
        (q', rw (e, next_positive now q'.timer_set above' left') refl, above', looks)

    module _ {W : Type 0} (call : K → W → TimerQueue K → Outcome (W × TimerQueue K))
        (act : K → W → W)
        (ends : (k : K) (w : W) (q : TimerQueue K) → call k w q ≡ ok (act k w, q)) where
      pub start_all-act_all :
          (xs : List (Entry K)) (w : W) (q : TimerQueue K)
          → start_all time call xs w q ≡ ok (act_all act xs w, q)
      unfolding start_all
      start_all-act_all [] w q = refl
      start_all-act_all ((when, t) ∷ xs) w q =
          rw (ends t.timer_callback w q) (start_all-act_all xs (act t.timer_callback w) q)

      -- Let the callbacks end, each with an effect on the rest of the program and none on the queue,
      -- let the set be sorted and some timer in it not be due, and let the clock not have reached the
      -- next time of any repeating timer that is due. Then handleRead succeeds and runs the callbacks
      -- of the timers that are due, each once and in order. Afterwards the set is sorted and holds no
      -- timer that was due: it has the later timers and, under their next times, the repeating ones
      -- that were due, unless another timer has that time. The timerfd is set for the first of them.
      pub handle_read_lem :
          (nothing : K) (top : ℕ) (due later : List (Entry K)) (w : W) (q : TimerQueue K)
          → q.timer_set ≡ due ++ later
          → Above 0 q.timer_set
          → UpTo (time q.calls) due
          → Above (suc (time q.calls)) later
          → later ≢ []
          → time q.calls < long_max
          → ((i : ℕ) → i ≤ q.calls + length due → time i ≤ top)
          → NextAfter top due
          → (q' : TimerQueue K) × (handle_read time call nothing w q
              ≡ ok (act_all act due w, set_time time (next_when q'.timer_set) q'))
            × Above (suc (time q.calls)) q'.timer_set
            × ((s : ℕ) → at s q'.timer_set ≡ again due (λ r. at r later) s)
      unfolding handle_read read_timerfd
      handle_read_lem nothing top due later w q cut all upto above some_left below clock next =
          let now = time q.calls in
          let taken : TimerQueue K = record (tick time q) {
            active_timers = due;
            timer_set = later;
            global_id = suc q.global_id;
            expirations = 0;
          } in
          let (q', e, above', looks) =
            reset_time_lem now top taken (clock q.calls (omega arith))
              (λ i k. clock i (omega arith)) next above some_left in
          (
            q',
            rw
                (
                  find_expired-append nothing now due later
                      (record (tick time q) { active_timers = []; expirations = 0 }) cut all upto
                      above below,
                  start_all-act_all due w taken,
                  e,
                )
                refl,
            above',
            looks,
          )
