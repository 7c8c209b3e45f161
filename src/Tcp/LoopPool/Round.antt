-- ===== src/Tcp/LoopPool/Round.antt =====
-- `getNextLoop` goes round the loops.
use budd.Common.{
  suc, ◌≡◌, refl, ap, ap₂, sym, ◌∙◌, true, le→leb, lt→leb, List, [], ◌∷◌, ◌++◌, append_assoc,
  length, length-append, arith, if◌then◌else◌,
}
use budd.Outcome.{ok, ◌>>=◌, ◌>>◌, demand, assertion}
use budd.Tcp.LoopPool.{EventLoopThreadPool, element, advance, pick, get_next_loop, get_loops}

module _ {L : Type 0} where
  element-length :
      (front : List L) (l : L) (back : List L) → element (length front) (front ++ l ∷ back) ≡ ok l
  element-length [] l back = refl
  element-length (x ∷ front) l back = element-length front l back

  pick-element :
      (ls : List L) (p : EventLoopThreadPool L) (l : L)
      → element p.next ls ≡ ok l
      → pick ls p ≡ ok (l, advance p)
  unfolding pick
  pick-element [] p l e = cc
  pick-element (x ∷ ls) p l e = rw e refl

  get_next_loop-element :
      (p : EventLoopThreadPool L) (front : List L) (l : L) (back : List L)
      → p.started ≡ true
      → p.loops ≡ front ++ l ∷ back
      → p.next ≡ length front
      → get_next_loop p ≡ ok (l, advance p)
  unfolding get_next_loop
  get_next_loop-element p front l back up all at =
      ap (λ b. demand b assertion >> pick p.loops p) up
      ∙ pick-element p.loops p l (ap₂ element at all ∙ element-length front l back)

  -- From the front on, the calls return the rest of the loops in order.
  get_loops-rest :
      (p : EventLoopThreadPool L) (front : List L) (l : L) (back : List L)
      → p.started ≡ true
      → p.loops ≡ front ++ l ∷ back
      → p.next ≡ length front
      → get_loops (suc (length back)) p ≡ ok (l ∷ back, record p { next = 0 })
  unfolding get_loops advance
  get_loops-rest p front l [] up all at =
      let size = length-append front (l ∷ []) in
      rw (get_next_loop-element p front l [] up all at, ◌>>=◌)
        (ap (λ b. ok (l ∷ [], record p { next = if b then 0 else suc p.next }))
          (le→leb (length p.loops) (suc p.next) (omega (arith, ap length all, at, size))))
  get_loops-rest p front l (b ∷ bs) up all at =
      let size = length-append front (l ∷ []) in
      let sizes = length-append front (l ∷ b ∷ bs) in
      let p' : EventLoopThreadPool L = record p { next = suc p.next } in
      let goes_on : advance p ≡ p' =
        ap (λ b. record p { next = if b then 0 else suc p.next })
          (lt→leb (length p.loops) (suc p.next) (omega (arith, ap length all, at, sizes))) in
      rw (get_next_loop-element p front l (b ∷ bs) up all at ∙ ap (λ x. ok (l, x)) goes_on, ◌>>=◌)
        (rw
          (get_loops-rest p' (front ++ l ∷ []) b bs up
            (all ∙ sym (append_assoc front (l ∷ []) (b ∷ bs))) (omega (arith, at, size)))
          refl)

  -- As many calls of `getNextLoop` as there are loops, from the first on, return every loop once,
  -- in order, and the pool is as it was. The pool was started.
  pub get_loops_round :
      (p : EventLoopThreadPool L)
      → p.started ≡ true
      → p.next ≡ 0
      → get_loops (length p.loops) p ≡ ok (p.loops, p)
  unfolding get_loops
  get_loops_round p up first = go p.loops refl
    where
      go : (ls : List L) → p.loops ≡ ls → get_loops (length ls) p ≡ ok (ls, p)
      go [] e = refl
      go (l ∷ ls) e =
          get_loops-rest p [] l ls up e first
          ∙ ap (λ n. ok (l ∷ ls, record p { next = n })) (sym first)
