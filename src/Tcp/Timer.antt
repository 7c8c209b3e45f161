-- ===== src/Tcp/Timer.antt =====
-- tcp/timer.h and tcp/timer.cpp: `class Timer` and `class TimerQueue`, as the thread of the loop
-- runs them. Times are microseconds, which are not negative. The callbacks are keys of a type `K`;
-- what they do to the rest of the program, a type `W`, and to the queue is a parameter, and so is the
-- clock: `time i` is the result of call `i` of `now`.
pub mod Set
pub mod Schedule
pub mod Late
pub mod Read
mod Tests
use budd.Common.{
  ℕ, suc, ◌+◌, ◌-◌, ◌*◌, ◌/◌, ◌%◌, ◌^◌, Bool, true, false, not, ◌&&◌, ◌||◌, Option, none, some,
  List, [], ◌∷◌, ltb, ◌==◌, if◌then◌else◌,
}
use budd.Outcome.{Outcome, ok, err, ◌>>=◌, ◌>>◌, demand, assertion, out_of_bounds, fatal}

-- `m_repeat` is `interval_usec > 0`, from the constructor on.
pub record Timer (K : Type 0) : Type 0 where
  pub timer_callback : K
  pub when : ℕ
  pub interval_usec : ℕ
  pub id : ℕ

-- An element of `m_timerSet`.
abbrev pub Entry : Type 0 → Type 0
Entry K = ℕ × Timer K

-- `armed` is what `timerfd_settime` was last told, in seconds and nanoseconds; `expirations` is the
-- counter of the `timerfd`; `calls` counts the calls of `now`. `global_id` is `Timer::globalId`.
pub record TimerQueue (K : Type 0) : Type 0 where
  pub timer_set : List (Entry K)
  pub active_timers : List (Entry K)
  pub global_id : ℕ
  pub armed : Option (ℕ × ℕ)
  pub expirations : ℕ
  pub calls : ℕ

abbrev pub microsecond_persecond : ℕ
microsecond_persecond = 1000 * 1000

abbrev pub long_max : ℕ
long_max = 2 ^ 63 - 1

module _ {K : Type 0} where
  abbrev pub is_repeat : Timer K → Bool
  is_repeat t = ltb 0 t.interval_usec

  -- the constructor, with the id that `generateId` gives
  abbrev pub create_timer : ℕ → ℕ → K → ℕ → Timer K
  create_timer when interval_usec callback id = record {
    timer_callback = callback;
    when = when;
    interval_usec = interval_usec;
    id = id;
  }

  -- `generateId`
  abbrev pub generate_id : TimerQueue K → ℕ × TimerQueue K
  generate_id q = (q.global_id, record q { global_id = suc q.global_id })

  -- What the constructor of `TimerQueue` sets, but for its channel.
  abbrev pub create : TimerQueue K
  create = record {
    timer_set = [];
    active_timers = [];
    global_id = 0;
    armed = none;
    expirations = 0;
    calls = 0;
  }

  -- A read of a `timerfd` sets its counter to 0.
  unfoldable pub read_timerfd : TimerQueue K → TimerQueue K
  read_timerfd q = record q { expirations = 0 }

  unfoldable pub restart : Timer K → Timer K
  restart t = record t { when = t.when + t.interval_usec }

  -- `operator<` of the pairs, with that of the timers
  abbrev pub entry_less : Entry K → Entry K → Bool
  entry_less (a, s) (b, t) = ltb a b || (not (ltb b a) && ltb s.when t.when)

  -- `std::set::insert`: an element that is equivalent to one of the set is not inserted.
  unfoldable pub insert : Entry K → List (Entry K) → List (Entry K)
  insert e [] = e ∷ []
  insert e (x ∷ xs) =
      let rest = insert e xs in
      if entry_less e x then e ∷ x ∷ xs else if entry_less x e then x ∷ rest else x ∷ xs

  -- The elements up to `lower_bound`, and those from there on.
  unfoldable pub split_at : Entry K → List (Entry K) → List (Entry K) × List (Entry K)
  split_at e [] = ([], [])
  split_at e (x ∷ xs) =
      let (less, others) = split_at e xs in
      if entry_less x e then (x ∷ less, others) else ([], x ∷ xs)

  -- `m_timerSet.size() == 1 || timer.getExpiration() < m_timerSet.begin()->first`
  unfoldable pub is_latest : ℕ → List (Entry K) → Outcome Bool
  is_latest when [] = err out_of_bounds
  is_latest when (x ∷ []) = ok true
  is_latest when (x ∷ y ∷ xs) = ok (ltb when x.0)

  -- The assertion of `findExpired`.
  abbrev pub begins_after : ℕ → List (Entry K) → Bool
  begins_after now_time_stamp [] = true
  begins_after now_time_stamp (x ∷ xs) = ltb now_time_stamp x.0

  -- The timer of `duumy` takes an id.
  unfoldable pub find_expired : K → ℕ → TimerQueue K → Outcome (TimerQueue K)
  find_expired nothing now_time_stamp q = do
    let (id, q') = generate_id q
    let duumy = create_timer long_max 0 nothing id
    let (expired, others) = split_at (now_time_stamp, duumy) q.timer_set
    demand (begins_after now_time_stamp others) assertion
    ok (record q' { active_timers = expired; timer_set = others })

  -- `find_if` and `erase`
  unfoldable pub erase_id : ℕ → List (Entry K) → List (Entry K)
  erase_id timer_id [] = []
  erase_id timer_id ((w, t) ∷ xs) = if t.id == timer_id then xs else (w, t) ∷ erase_id timer_id xs

  unfoldable pub cancel : ℕ → TimerQueue K → TimerQueue K
  cancel timer_id q = record q { timer_set = erase_id timer_id q.timer_set }

  -- The first timer of the set is armed next; 0 stands for an empty set.
  abbrev pub next_when : List (Entry K) → ℕ
  next_when [] = 0
  next_when (x ∷ xs) = x.1.when

  module _ (time : ℕ → ℕ) where
    -- Counts a call of `now`.
    abbrev pub tick : TimerQueue K → TimerQueue K
    tick q = record q { calls = suc q.calls }

    unfoldable pub set_time : ℕ → TimerQueue K → TimerQueue K
    set_time when q =
        let left = when - time q.calls in
        let timer_micro_second = if ltb left 100 then 100 else left in
        record (tick q) {
          armed = some (
            timer_micro_second / microsecond_persecond,
            timer_micro_second % microsecond_persecond * 1000,
          );
          expirations = 0;
        }

    unfoldable pub enqueue : Timer K → TimerQueue K → Outcome (Bool × TimerQueue K)
    enqueue t q = do
      demand (ltb (time q.calls) t.when) assertion
      reset_latest_time ← is_latest t.when q.timer_set
      ok (reset_latest_time, record (tick q) { timer_set = insert (t.when, t) q.timer_set })

    unfoldable pub add_timer_in_loop : Timer K → TimerQueue K → Outcome (TimerQueue K)
    add_timer_in_loop t q = do
      (reset_time_flag, q') ← enqueue t q
      ok (if reset_time_flag then set_time t.when q' else q')

    -- `addTimer` on the thread of the loop: the timer is made, and its id returned.
    unfoldable pub add_timer : K → ℕ → ℕ → TimerQueue K → Outcome (ℕ × TimerQueue K)
    add_timer callback when interval q = do
      let (id, q₁) = generate_id q
      let t = create_timer when interval callback id
      q₂ ← add_timer_in_loop t q₁
      ok (t.id, q₂)

    -- The loop of `resetTime` over `m_activeTimers`.
    unfoldable pub requeue : List (Entry K) → TimerQueue K → Outcome (TimerQueue K)
    requeue [] q = ok q
    requeue ((w, t) ∷ xs) q =
        if is_repeat t
        then (enqueue (restart t) q >>= λ (flag, q'). requeue xs q')
        else requeue xs q

    unfoldable pub reset_time : TimerQueue K → Outcome (TimerQueue K)
    reset_time q = do
      q' ← requeue q.active_timers q
      ok (if next_when q'.timer_set == 0 then q' else set_time (next_when q'.timer_set) q')

    module _ {W : Type 0} (call : K → W → TimerQueue K → Outcome (W × TimerQueue K)) where
      -- `Timer::start`
      abbrev pub start : Timer K → W → TimerQueue K → Outcome (W × TimerQueue K)
      start t w q = call t.timer_callback w q

      -- The loop of `handleRead` over the timers that expired.
      unfoldable pub start_all : List (Entry K) → W → TimerQueue K → Outcome (W × TimerQueue K)
      start_all [] w q = ok (w, q)
      start_all ((when, t) ∷ xs) w q = start t w q >>= λ (w', q'). start_all xs w' q'

      -- `nothing` is the callback of `duumy`, which is never called.
      unfoldable pub handle_read : K → W → TimerQueue K → Outcome (W × TimerQueue K)
      handle_read nothing w q = do
        let now_time_stamp = time q.calls
        let q₁ = read_timerfd (record (tick q) { active_timers = [] })
        q₂ ← find_expired nothing now_time_stamp q₁
        (w', q₃) ← start_all q₂.active_timers w q₂
        q₄ ← reset_time q₃
        ok (w', q₄)

-- `cancelTimerInLoop`, on the thread of the loop or another one
unfoldable pub cancel_timer_in_loop :
    {K : Type 0} → Bool → ℕ → TimerQueue K → Outcome (TimerQueue K)
cancel_timer_in_loop in_thread timer_id q = demand in_thread fatal >> ok (cancel timer_id q)
