-- ===== src/Tcp/Timer/Late.antt =====
-- Timers whose time has come before they are in the set.
use budd.Common.{
  ℕ, suc, ◌+◌, ◌≤◌, ◌<◌, ◌≡◌, ◌≢◌, refl, ap, ◌∙◌, ◌⊎◌, inl, inr, lt→ltb, le→ltb, leb, leb→le,
  leb→lt, Bool-cases, ◌==◌, if◌then◌else◌, some, none, List, [], ◌∷◌, arith,
}
use budd.Outcome.{Outcome, ok, err, assertion}
use budd.Tcp.EventLoop.Timers.{run_at, run_after, run_evey}
use budd.Tcp.Timer.{
  Timer, Entry, TimerQueue, tick, restart, enqueue, add_timer, add_timer_in_loop, requeue,
  reset_time, long_max, handle_read, read_timerfd, set_time, next_when,
}
use budd.Tcp.Timer.Set.{Above, at, or_else, UpTo}
use budd.Tcp.Timer.Read.{find_expired-append, start_all-act_all, handle_read_lem}

module _ {K : Type 0} (time : ℕ → ℕ) where
  enqueue_late :
      (t : Timer K) (q : TimerQueue K) → t.when ≤ time q.calls → enqueue time t q ≡ err assertion
  unfolding enqueue
  enqueue_late t q late = rw (le→ltb (time q.calls) t.when late) refl

  add_timer_late :
      (callback : K) (when interval : ℕ) (q : TimerQueue K)
      → when ≤ time q.calls
      → add_timer time callback when interval q ≡ err assertion
  unfolding add_timer add_timer_in_loop
  add_timer_late callback when interval q late =
      let t : Timer K = record {
        timer_callback = callback;
        when = when;
        interval_usec = interval;
        id = q.global_id;
      } in
      let q₁ : TimerQueue K = record q { global_id = suc q.global_id } in
      rw (enqueue_late t q₁ late) refl

  -- runAt with a time that is not in the future fails an assertion, and so do runAfter and runEvey if
  -- the clock, read once more, has gone on by the delay or the interval; that is so for 0.
  pub run_late :
      (callback : K) (when delay : ℕ) (q : TimerQueue K)
      → when ≤ time q.calls
      → time q.calls + delay ≤ time (suc q.calls)
      → (run_at time when callback q ≡ err assertion)
        × (run_after time delay callback q ≡ err assertion)
        × (run_evey time delay callback q ≡ err assertion)
  unfolding run_at run_after run_evey
  run_late callback when delay q past late = (
    add_timer_late callback when 0 q past,
    add_timer_late callback (time q.calls + delay) 0 (tick time q) late,
    add_timer_late callback (time q.calls + delay) delay (tick time q) late,
  )

  requeue_late :
      (w : ℕ) (t : Timer K) (others : List (Entry K)) (q : TimerQueue K)
      → 0 < t.interval_usec
      → t.when + t.interval_usec ≤ time q.calls
      → requeue time ((w, t) ∷ others) q ≡ err assertion
  unfolding requeue restart
  requeue_late w t others q repeats late =
      let again : Timer K = record t { when = t.when + t.interval_usec } in
      rw (lt→ltb 0 t.interval_usec repeats, enqueue_late again q late) refl

  reset_time_late :
      (w : ℕ) (t : Timer K) (others : List (Entry K)) (q : TimerQueue K)
      → q.active_timers ≡ (w, t) ∷ others
      → 0 < t.interval_usec
      → t.when + t.interval_usec ≤ time q.calls
      → reset_time time q ≡ err assertion
  unfolding reset_time
  reset_time_late w t others q all repeats late =
      rw (ap (λ ts. requeue time ts q) all ∙ requeue_late w t others q repeats late) refl

  module _ {W : Type 0} (call : K → W → TimerQueue K → Outcome (W × TimerQueue K)) (act : K → W → W)
      (ends : (k : K) (w : W) (q : TimerQueue K) → call k w q ≡ ok (act k w, q)) where
    handle_read_late :
        (nothing : K) (key : ℕ) (t : Timer K) (later : List (Entry K)) (w : W) (q : TimerQueue K)
        → q.timer_set ≡ (key, t) ∷ later
        → Above 0 q.timer_set
        → UpTo (time q.calls) ((key, t) ∷ [])
        → Above (suc (time q.calls)) later
        → time q.calls < long_max
        → 0 < t.interval_usec
        → t.when + t.interval_usec ≤ time (suc q.calls)
        → handle_read time call nothing w q ≡ err assertion
    unfolding handle_read read_timerfd
    handle_read_late nothing key t later w q cut all upto above below repeats late =
        let due : List (Entry K) = (key, t) ∷ [] in
        let taken : TimerQueue K = record (tick time q) {
          active_timers = due;
          timer_set = later;
          global_id = suc q.global_id;
          expirations = 0;
        } in
        rw
          (
            find_expired-append nothing (time q.calls) due later
                (record (tick time q) { active_timers = []; expirations = 0 }) cut all upto above
                below,
            start_all-act_all time call act ends due w taken,
            reset_time_late key t [] taken refl repeats late,
          )
          refl

    -- Let a repeating timer be the only one that is due, let the set be sorted with a later timer in it,
    -- let the callback end with no effect on the queue, and let the clock, which is below 2 ^ 63 - 1,
    -- not run backwards up to the call of `now` behind the callback. If the time of the timer plus its
    -- interval has come at that call, handleRead fails an assertion. If not, it runs the callback, and
    -- the queue has the later timers and the timer under its next time, if none of them has it.
    pub handle_read_repeating :
        (nothing : K) (key : ℕ) (t : Timer K) (later : List (Entry K)) (w : W) (q : TimerQueue K)
        → q.timer_set ≡ (key, t) ∷ later
        → Above 0 q.timer_set
        → UpTo (time q.calls) ((key, t) ∷ [])
        → Above (suc (time q.calls)) later
        → later ≢ []
        → time q.calls < long_max
        → 0 < t.interval_usec
        → ((i : ℕ) → i ≤ suc q.calls → time i ≤ time (suc q.calls))
        → (t.when + t.interval_usec ≤ time (suc q.calls))
            × (handle_read time call nothing w q ≡ err assertion)
          ⊎ (time (suc q.calls) < t.when + t.interval_usec)
            × ((q' : TimerQueue K) × (handle_read time call nothing w q
                  ≡ ok (act t.timer_callback w, set_time time (next_when q'.timer_set) q'))
                × ((s : ℕ)
                    → at s q'.timer_set
                      ≡ or_else
                          (at s later)
                          (if t.when + t.interval_usec == s then some (restart t) else none)))
    handle_read_repeating nothing key t later w q cut all upto above left below repeats clock =
        elim (Bool-cases (leb (t.when + t.interval_usec) (time (suc q.calls)))) [
          | inl past ↦
              let late = leb→le _ _ past in
              inl (
                late,
                handle_read_late nothing key t later w q cut all upto above below repeats late,
              )
          | inr in_time ↦
              let soon = leb→lt _ _ in_time in
              let (q', e, sorted, looks) =
                handle_read_lem time call act ends nothing (time (suc q.calls)) ((key, t) ∷ [])
                  later w q cut all upto above left below (λ i h. clock i (omega arith))
                  (λ r. soon, tt) in
              inr (soon, (q', e, λ s. rw (lt→ltb 0 t.interval_usec repeats) at (looks s)))
        ]
