-- ===== src/Tcp/LoopPool.antt =====
-- tcp/eventLoopThreadPool.h and tcp/eventLoopThreadPool.cpp: `class EventLoopThreadPool`. `L`
-- stands for pointers to event loops; a thread hands its loop to `start`.
pub mod Round
use budd.Common.{
  ℕ, zero, suc, ◌+◌, ◌-◌, ◌≤◌, ◌<◌, ◌≡◌, refl, ap, sym, ◌∙◌, subst, Bool, true, false, not, ◌==◌,
  leb, le→leb, lt→leb, Option, none, some, List, [], ◌∷◌, ◌++◌, append-nil, append_assoc, length,
  length-append, arith, if◌then◌else◌,
}
use budd.Outcome.{Outcome, ok, err, ◌>>=◌, ◌>>◌, demand, assertion, out_of_bounds}

pub record EventLoopThreadPool (L : Type 0) : Type 0 where
  pub bootstrap_event_loop : L
  pub loops : List L
  pub started : Bool
  pub next : ℕ

module _ {L : Type 0} where
  -- The constructor; the null pointers that `m_loops` starts with are left out, since nothing reads them.
  abbrev pub create : L → EventLoopThreadPool L
  create bootstrap_event_loop = record {
    bootstrap_event_loop = bootstrap_event_loop;
    loops = [];
    started = false;
    next = 0;
  }

  -- `start`, of a pool with as many threads as loops are given.
  unfoldable pub start : List L → EventLoopThreadPool L → Outcome (EventLoopThreadPool L)
  start loops p = do
    demand (not p.started) assertion
    ok (record p { loops = loops; started = true })

  -- `m_loops[i]`
  abbrev pub element : ℕ → List L → Outcome L
  element i [] = err out_of_bounds
  element zero (l ∷ ls) = ok l
  element (suc i) (l ∷ ls) = element i ls

  -- The end of `getNextLoop`: `m_next` goes on, and back to 0 at the end.
  unfoldable pub advance : EventLoopThreadPool L → EventLoopThreadPool L
  advance p = record p { next = if leb (length p.loops) (suc p.next) then 0 else suc p.next }

  unfoldable pub pick : List L → EventLoopThreadPool L → Outcome (L × EventLoopThreadPool L)
  pick [] p = ok (p.bootstrap_event_loop, p)
  pick (l ∷ ls) p = element p.next (l ∷ ls) >>= λ loop. ok (loop, advance p)

  unfoldable pub get_next_loop : EventLoopThreadPool L → Outcome (L × EventLoopThreadPool L)
  get_next_loop p = demand p.started assertion >> pick p.loops p

  -- The loops of so many calls, in order.
  unfoldable pub get_loops : ℕ → EventLoopThreadPool L → Outcome (List L × EventLoopThreadPool L)
  get_loops zero p = ok ([], p)
  get_loops (suc n) p = do
    (loop, p') ← get_next_loop p
    (loops, p'') ← get_loops n p'
    ok (loop ∷ loops, p'')
