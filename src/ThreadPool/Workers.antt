-- ===== src/ThreadPool/Workers.antt =====
-- Lists of workers, what `notify_all` does to them, and what the operations of the pool require.
use mathlib.Core.List as L
use mathlib.Core.List.{Perm, perm_append_singleton, perm_middle}
use budd.Common.{
  ℕ, ◌+◌, ◌≡◌, refl, ap, sym, ◌∙◌, subst, Bool, true, false, not, List, [], ◌∷◌, ◌++◌, append_assoc,
  arith, length, length-append,
}
use budd.Outcome.{ok, ◌>>◌, demand, logic_error}
use budd.ThreadPool.{ThreadPool, waits, leaves, takes, enqueue, turn_on, turn}
use budd.ThreadPool.Steps.{Worker, ready, waiting, exited, running, wake_all, total, is_waiting}

module _ {T : Type 0} where
  abbrev pub is_ready : Worker T → ℕ
  is_ready ready = 1
  is_ready _ = 0

  abbrev pub is_exited : Worker T → ℕ
  is_exited exited = 1
  is_exited _ = 0

  -- The tasks that are being run.
  abbrev pub running_tasks : List (Worker T) → List T
  running_tasks [] = []
  running_tasks (running t ∷ ws) = t ∷ running_tasks ws
  running_tasks (_ ∷ ws) = running_tasks ws

  pub total-append :
      (f : Worker T → ℕ) (front : List (Worker T)) (w : Worker T) (back : List (Worker T))
      → total f (front ++ w ∷ back) ≡ total f front + (f w + total f back)
  total-append f [] w back = omega arith
  total-append f (x ∷ front) w back = omega (arith, total-append f front w back)

  pub running_tasks-append :
      (front back : List (Worker T))
      → running_tasks (front ++ back) ≡ running_tasks front ++ running_tasks back
  running_tasks-append [] back = refl
  running_tasks-append (ready ∷ front) back = running_tasks-append front back
  running_tasks-append (waiting ∷ front) back = running_tasks-append front back
  running_tasks-append (exited ∷ front) back = running_tasks-append front back
  running_tasks-append (running t ∷ front) back = ap (◌∷◌ t) (running_tasks-append front back)

  pub total_waiting-wake_all : (ws : List (Worker T)) → total is_waiting (wake_all ws) ≡ 0
  total_waiting-wake_all [] = refl
  total_waiting-wake_all (ready ∷ ws) = omega (arith, total_waiting-wake_all ws)
  total_waiting-wake_all (waiting ∷ ws) = omega (arith, total_waiting-wake_all ws)
  total_waiting-wake_all (exited ∷ ws) = omega (arith, total_waiting-wake_all ws)
  total_waiting-wake_all (running t ∷ ws) = omega (arith, total_waiting-wake_all ws)

  pub total_exited-wake_all :
      (ws : List (Worker T)) → total is_exited (wake_all ws) ≡ total is_exited ws
  total_exited-wake_all [] = refl
  total_exited-wake_all (ready ∷ ws) = omega (arith, total_exited-wake_all ws)
  total_exited-wake_all (waiting ∷ ws) = omega (arith, total_exited-wake_all ws)
  total_exited-wake_all (exited ∷ ws) = omega (arith, total_exited-wake_all ws)
  total_exited-wake_all (running t ∷ ws) = omega (arith, total_exited-wake_all ws)

  pub running_tasks-wake_all :
      (ws : List (Worker T)) → running_tasks (wake_all ws) ≡ running_tasks ws
  running_tasks-wake_all [] = refl
  running_tasks-wake_all (ready ∷ ws) = running_tasks-wake_all ws
  running_tasks-wake_all (waiting ∷ ws) = running_tasks-wake_all ws
  running_tasks-wake_all (exited ∷ ws) = running_tasks-wake_all ws
  running_tasks-wake_all (running t ∷ ws) = ap (◌∷◌ t) (running_tasks-wake_all ws)

  pub length-wake_all : (ws : List (Worker T)) → length (wake_all ws) ≡ length ws
  length-wake_all [] = refl
  length-wake_all (w ∷ ws) = omega (arith, length-wake_all ws)

  pub turn-waits : (p : ThreadPool T) → turn p ≡ waits → (p.stop ≡ false) × (p.tasks ≡ [])
  unfolding turn
  turn-waits p e = go p.tasks p.stop e
    where
      go : (ts : List T) (b : Bool) → turn_on ts b ≡ waits → (b ≡ false) × (ts ≡ [])
      go [] true e = cc
      go [] false e = (refl, refl)
      go (t ∷ ts) b e = cc

  pub turn-leaves : (p : ThreadPool T) → turn p ≡ leaves → (p.stop ≡ true) × (p.tasks ≡ [])
  unfolding turn
  turn-leaves p e = go p.tasks p.stop e
    where
      go : (ts : List T) (b : Bool) → turn_on ts b ≡ leaves → (b ≡ true) × (ts ≡ [])
      go [] true e = (refl, refl)
      go [] false e = cc
      go (t ∷ ts) b e = cc

  pub turn-takes : (p : ThreadPool T) (t : T) (ts : List T) → turn p ≡ takes t ts → p.tasks ≡ t ∷ ts
  unfolding turn
  turn-takes p t ts e = go p.tasks p.stop e
    where
      go : (us : List T) (b : Bool) → turn_on us b ≡ takes t ts → us ≡ t ∷ ts
      go [] true e = cc
      go [] false e = cc
      go (u ∷ us) b e = cc

  pub enqueue-ok :
      (t : T) (p p' : ThreadPool T)
      → enqueue t p ≡ ok p'
      → (p.stop ≡ false) × (p' ≡ record p { tasks = p.tasks ++ t ∷ [] })
  unfolding enqueue
  enqueue-ok t p p' e = go p.stop e
    where
      go :
          (b : Bool)
          → (demand (not b) logic_error >> ok (record p { tasks = p.tasks ++ t ∷ [] })) ≡ ok p'
          → (b ≡ false) × (p' ≡ record p { tasks = p.tasks ++ t ∷ [] })
      go true e = cc
      go false e = (refl, cc)

  -- A worker between `front` and `back` goes from `w` to `w'`.
  module _ (front back : List (Worker T)) (w w' : Worker T) (ws : List (Worker T))
      (e : ws ≡ front ++ w ∷ back) where
    pub counted : (f : Worker T → ℕ) → total f (front ++ w' ∷ back) + f w ≡ total f ws + f w'
    counted f =
        omega (arith, total-append f front w back, total-append f front w' back, ap (total f) e)

    pub same_length : length (front ++ w' ∷ back) ≡ length ws
    same_length =
        omega (arith, length-append front (w ∷ back), length-append front (w' ∷ back), ap length e)

    pub same_running :
        running_tasks (w' ∷ back) ≡ running_tasks (w ∷ back)
        → running_tasks (front ++ w' ∷ back) ≡ running_tasks ws
    same_running h =
        running_tasks-append front (w' ∷ back)
        ∙ ap (λ x. running_tasks front ++ x) h
        ∙ sym (running_tasks-append front (w ∷ back))
        ∙ ap running_tasks (sym e)

  -- A task that starts or ends moves within the tasks that are accounted for.
  perm_out :
      (ended front back : List T) (t : T)
      → Perm (ended ++ (front ++ t ∷ back)) (t ∷ (ended ++ (front ++ back)))
  perm_out ended front back t =
      subst (λ x. Perm x (t ∷ (ended ++ (front ++ back)))) (append_assoc ended front (t ∷ back))
        (subst (λ x. Perm ((ended ++ front) ++ t ∷ back) (t ∷ x)) (append_assoc ended front back)
          (perm_middle (ended ++ front) back))

  pub perm_starts :
      (ended front back : List T) (t : T) (taken : List T)
      → Perm taken (ended ++ (front ++ back))
      → Perm (taken ++ t ∷ []) (ended ++ (front ++ t ∷ back))
  perm_starts ended front back t taken p =
      L.Perm.trans (perm_append_singleton t taken)
        (L.Perm.trans (L.Perm.cons t p) (L.Perm.symm (perm_out ended front back t)))

  pub perm_ends :
      (ended front back : List T) (t : T) (taken : List T)
      → Perm taken (ended ++ (front ++ t ∷ back))
      → Perm taken ((ended ++ t ∷ []) ++ (front ++ back))
  perm_ends ended front back t taken p = L.Perm.trans p (
      L.Perm.trans (perm_out ended front back t) (
        subst (λ x. Perm (t ∷ (ended ++ (front ++ back))) x)
          (sym (append_assoc ended (t ∷ []) (front ++ back)))
          (L.Perm.symm (perm_middle ended (front ++ back)))))
