-- ===== src/Tcp/Timer/Set.antt =====
-- The set of timers as a map from times to timers.
use budd.Common.{
  ℕ, suc, ◌≤◌, ◌<◌, ◌≡◌, ◌≢◌, refl, ap, subst, inl, inr, true, Option, none, some, List, [], ◌∷◌,
  ◌++◌, arith, ◌==◌, ==_iff, Bool-cases, lt→ltb, if◌then◌else◌,
}
use budd.Tcp.Timer.{Timer, Entry, long_max, entry_less, insert, split_at, begins_after, erase_id}

module _ {K : Type 0} where
  -- Every entry stands under the time of its timer, the times grow, and none is below `low`.
  abbrev pub Above : ℕ → List (Entry K) → Type 0
  Above low [] = Unit {0}
  Above low ((w, t) ∷ xs) = (low ≤ w × w ≡ t.when) × Above (suc w) xs

  -- The timer of a time.
  abbrev pub at : ℕ → List (Entry K) → Option (Timer K)
  at time [] = none
  at time ((w, t) ∷ xs) = if w == time then some t else at time xs

  pub insert-Above :
      (low : ℕ) (t : Timer K) (xs : List (Entry K))
      → low ≤ t.when
      → Above low xs
      → Above low (insert (t.when, t) xs)
  unfolding insert
  insert-Above low t [] h above = ((h, refl), tt)
  insert-Above low t ((w, u) ∷ xs) h ((k, e), above) =
      ground (arith, insert-Above (suc w) t xs, h, k, e)

  at-Above : (low time : ℕ) (xs : List (Entry K)) → Above low xs → time < low → at time xs ≡ none
  at-Above low time [] above h = refl
  at-Above low time ((w, u) ∷ xs) ((k, e), above) h = ground (arith, at-Above (suc w) time xs above)

  -- The timer that is there, or else the new one.
  abbrev pub or_else : Option (Timer K) → Option (Timer K) → Option (Timer K)
  or_else (some u) o = some u
  or_else none o = o

  pub or_else-none : (o : Option (Timer K)) → or_else o none ≡ o
  or_else-none none = refl
  or_else-none (some u) = refl

  -- A time that is taken keeps its timer.
  pub at-insert :
      (low time : ℕ) (t : Timer K) (xs : List (Entry K))
      → Above low xs
      → at time (insert (t.when, t) xs)
        ≡ or_else (at time xs) (if t.when == time then some t else none)
  unfolding insert
  at-insert low time t [] above = refl
  at-insert low time t ((w, u) ∷ xs) ((k, e), above) = ground (
    arith,
    at-insert (suc w) time t xs above,
    at-Above (suc w) time xs above,
    at-Above (suc w) t.when xs above,
    e,
  )

  -- All times are up to `now`.
  abbrev pub UpTo : ℕ → List (Entry K) → Type 0
  UpTo now [] = Unit {0}
  UpTo now ((w, t) ∷ xs) = (w ≤ now) × UpTo now xs

  -- The search for `duumy` cuts the set behind the last timer that is due.
  pub record Cuts (now : ℕ) (xs due later : List (Entry K)) : Type 0 where
    pub whole : due ++ later ≡ xs
    pub due_now : UpTo now due
    pub due_later : Above (suc now) later

  pub split_at-Cuts :
      (now low : ℕ) (d : Timer K) (xs : List (Entry K))
      → d.when ≡ long_max
      → now < long_max
      → Above low xs
      → Cuts now xs (split_at (now, d) xs).0 (split_at (now, d) xs).1
  unfolding split_at
  split_at-Cuts now low d [] top below above = record { whole = refl; due_now = tt; due_later = tt }
  split_at-Cuts now low d ((w, t) ∷ xs) top below ((k, e), above) =
      let rest = split_at-Cuts now (suc w) d xs top below above in
      elim (Bool-cases (entry_less (w, t) (now, d))) [
        | inl less ↦ rw less (record {
          whole = ap (◌∷◌ (w, t)) rest.whole;
          due_now = (ground (arith, less, e, top, below), rest.due_now);
          due_later = rest.due_later;
        })
        | inr past ↦ rw past (record {
          whole = refl;
          due_now = tt;
          due_later = ((ground (arith, past, e, top, below), e), above);
        })
      ]

  -- A set that is cut behind the last timer that is due.
  pub split_at-append :
      (now low : ℕ) (d : Timer K) (due later : List (Entry K))
      → d.when ≡ long_max
      → now < long_max
      → UpTo now due
      → Above low (due ++ later)
      → Above (suc now) later
      → split_at (now, d) (due ++ later) ≡ (due, later)
  unfolding split_at
  split_at-append now low d [] [] top below upto all above = refl
  split_at-append now low d [] ((w, t) ∷ xs) top below upto all ((k, e), above) = ground arith
  split_at-append now low d ((w, t) ∷ due) later top below (h, upto) ((k, e), all) above =
      ground (arith, split_at-append now (suc w) d due later top below upto all above)

  pub begins_after-Above :
      (now : ℕ) (xs : List (Entry K)) → Above (suc now) xs → begins_after now xs ≡ true
  begins_after-Above now [] above = refl
  begins_after-Above now ((w, t) ∷ xs) ((k, e), above) = lt→ltb now w (omega arith)

  -- No timer of the list has the id.
  abbrev pub LacksId : ℕ → List (Entry K) → Type 0
  LacksId i [] = Unit {0}
  LacksId i ((w, t) ∷ xs) = (t.id ≢ i) × LacksId i xs

  -- No two timers of the list have the same id.
  abbrev pub HasIds : List (Entry K) → Type 0
  HasIds [] = Unit {0}
  HasIds ((w, t) ∷ xs) = LacksId t.id xs × HasIds xs

  -- The timer, unless it has the id.
  abbrev pub other_than : ℕ → Option (Timer K) → Option (Timer K)
  other_than i none = none
  other_than i (some t) = if t.id == i then none else some t

  at-LacksId : (i s : ℕ) (xs : List (Entry K)) → LacksId i xs → other_than i (at s xs) ≡ at s xs
  at-LacksId i s [] lacks = refl
  at-LacksId i s ((w, t) ∷ xs) (other, lacks) = ground (arith, at-LacksId i s xs lacks)

  pub at-erase_id :
      (i s low : ℕ) (xs : List (Entry K))
      → Above low xs
      → HasIds xs
      → at s (erase_id i xs) ≡ other_than i (at s xs)
  unfolding erase_id
  at-erase_id i s low [] above ids = refl
  at-erase_id i s low ((w, t) ∷ xs) ((k, e), above) (lacks, ids) = elim (Bool-cases (t.id == i)) [
    | inl same ↦
        let lacks' : LacksId i xs = subst (λ j. LacksId j xs) ((==_iff t.id i).0 same) lacks in
        ground (arith, same, at-LacksId i s xs lacks', at-Above (suc w) s xs above)
    | inr other ↦ ground (arith, other, at-erase_id i s (suc w) xs above ids)
  ]
