-- ===== src/Tcp/Timer/Tests.antt =====
-- A queue of two timers, and its theorems at concrete inputs.
use budd.Common.{
  ℕ, suc, ◌+◌, ◌-◌, ◌≤◌, ◌⊎◌, ◌==◌, none, ◌*◌, ◌<◌, ◌≡◌, refl, some, [], ◌∷◌, List, arith, ltb,
  if◌then◌else◌,
}
use budd.Outcome.{ok, err, assertion}
use budd.Tcp.Timer.{Timer, Entry, TimerQueue, create, set_time, restart, next_when, handle_read}
use budd.Tcp.Timer.Set.{at, or_else}
use budd.Tcp.Timer.Schedule.{set_time_lem}
use budd.Tcp.Timer.Late.{handle_read_repeating}

abbrev timer : ℕ → ℕ → Timer ℕ
timer id when = record { timer_callback = 0; when = when; interval_usec = 0; id = id }

abbrev two : List (Entry ℕ)
two = (500, timer 0 500) ∷ (900, timer 1 900) ∷ []

abbrev queue : List (Entry ℕ) → TimerQueue ℕ
queue set = record create { timer_set = set; global_id = 2 }

-- The clock shows 400 at first.
abbrev clock : ℕ → ℕ
clock i = 400 + i

set_time_lem_example :
    (seconds : ℕ) × (nanoseconds : ℕ) × ((set_time clock 1000450 (queue two)).armed
      ≡ some (seconds, nanoseconds))
    × (seconds * 1000000000 + nanoseconds
        ≡ 1000 * (if ltb (1000450 - 400) 100 then 100 else 1000450 - 400))
    × (nanoseconds < 1000000000)
set_time_lem_example = set_time_lem clock 1000450 (queue two)

-- A timer of every 50 microseconds that expired at 300.
abbrev often : Timer ℕ
often = record (timer 3 300) { interval_usec = 50 }

abbrev busy : TimerQueue ℕ
busy = queue ((300, often) ∷ two)

-- The callbacks count their calls.
handle_read_repeating_example :
    (350 ≤ clock 1) × (handle_read clock (λ k w q. ok (suc w, q)) 0 5 busy ≡ err assertion)
    ⊎ (clock 1 < 350)
      × ((q' : TimerQueue ℕ) × (handle_read clock (λ k w q. ok (suc w, q)) 0 5 busy
            ≡ ok (6, set_time clock (next_when q'.timer_set) q'))
          × ((s : ℕ)
              → at s q'.timer_set
                ≡ or_else (at s two) (if 350 == s then some (restart often) else none)))
handle_read_repeating_example =
    handle_read_repeating clock (λ k w q. ok (suc w, q)) (λ k w. suc w) (λ k w q. refl) 0 300 often
      two 5 busy refl (ground arith) (ground arith) (ground arith) (λ e. cc) (omega arith)
      (omega arith) (λ i h. omega arith)
