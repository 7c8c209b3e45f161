-- ===== src/Tcp/EventLoop/Quit.antt =====
-- When `loop` ends.
use budd.Common.{
  ℕ, ◌≡◌, ◌≢◌, refl, ap, sym, ◌∙◌, inl, inr, true, false, true≢false, Bool-cases, List, [], ◌∷◌,
  ◌++◌, if◌then◌else◌,
}
use budd.Outcome.{Outcome, Fault, ok, err, Outcome-cases, ◌>>=◌}
use budd.Tcp.Channel.{Channel}
use budd.Tcp.EventLoop.Loop.{Loop, round, rounds, loop}
use budd.Tcp.Selector.{Wait}

ok-injective : {A : Type 0} {a b : A} → ok a ≡ ok b → a ≡ b
ok-injective e = cc

fails : {A : Type 0} {a : A} (x : Fault) → err x ≢ ok a
fails x h = cc

module _ {E K W : Type 0} (call : K → Loop E K W → Outcome (Loop E K W))
    (callbacks : ℕ → Channel (Loop E K W)) where
  abbrev stopped : Loop E K W → Loop E K W
  stopped s = record s { looping = false }

  rounds-quit :
      (ws : List Wait) (s : Loop E K W)
      → s.quit ≡ true
      → rounds call callbacks ws s ≡ ok (stopped s)
  unfolding rounds
  rounds-quit [] s e = ap (λ b. ok (if b then stopped s else s)) e
  rounds-quit (w ∷ ws) s e = rw e refl

  rounds-nil : (s : Loop E K W) → s.quit ≡ false → rounds call callbacks [] s ≡ ok s
  unfolding rounds
  rounds-nil s e = ap (λ b. ok (if b then stopped s else s)) e

  rounds-go :
      (w : Wait) (ws : List Wait) (s : Loop E K W)
      → s.quit ≡ false
      → rounds call callbacks (w ∷ ws) s
        ≡ (round call callbacks w s >>= λ s'. rounds call callbacks ws s')
  unfolding rounds
  rounds-go w ws s e = rw e refl

  rounds-cons :
      (w : Wait) (ws : List Wait) (s s' : Loop E K W)
      → s.quit ≡ false
      → rounds call callbacks (w ∷ ws) s ≡ ok s'
      → (s₁ : Loop E K W) × (round call callbacks w s ≡ ok s₁)
        × (rounds call callbacks ws s₁ ≡ ok s')
  rounds-cons w ws s s' q e = elim (Outcome-cases (round call callbacks w s)) [
    | inr (x, f) ↦ absurd (fails x (sym (behind f) ∙ e))
    | inl (s₁, f) ↦ (s₁, f, sym (behind f) ∙ e)
  ]
    where
      behind :
          {o : Outcome (Loop E K W)}
          → round call callbacks w s ≡ o
          → rounds call callbacks (w ∷ ws) s ≡ (o >>= λ r. rounds call callbacks ws r)
      behind f =
          rounds-go w ws s q
          ∙ ap (λ (o : Outcome (Loop E K W)). o >>= λ r. rounds call callbacks ws r) f

  -- The loop has not ended if quit is not set.
  rounds-goes :
      (ws : List Wait) (s s' : Loop E K W)
      → rounds call callbacks ws s ≡ ok s'
      → s'.quit ≡ false
      → s.quit ≡ false
  rounds-goes ws s s' e down = elim (Bool-cases s.quit) [
    | inl q ↦
        absurd
          (true≢false (sym q ∙ (ap Loop.quit (ok-injective (sym (rounds-quit ws s q) ∙ e)) ∙ down)))
    | inr q ↦ q
  ]

  -- Rounds behind which quit is not set are followed by the others.
  rounds-append :
      (ws more : List Wait) (s s' : Loop E K W)
      → rounds call callbacks ws s ≡ ok s'
      → s'.quit ≡ false
      → rounds call callbacks (ws ++ more) s ≡ rounds call callbacks more s'
  rounds-append [] more s s' e down =
      ap (rounds call callbacks more)
        (ok-injective (sym (rounds-nil s (rounds-goes [] s s' e down)) ∙ e))
  rounds-append (w ∷ ws) more s s' e down =
      let q = rounds-goes (w ∷ ws) s s' e down in
      let (s₁, f, rest) = rounds-cons w ws s s' q e in
      rounds-go w (ws ++ more) s q
      ∙ (ap (λ (o : Outcome (Loop E K W)). o >>= λ r. rounds call callbacks (ws ++ more) r) f
          ∙ rounds-append ws more s₁ s' rest down)

  -- Whatever rounds came before, in none of which quit was set: when it is set in a round, loop ends
  -- behind that round, with its handlers and tasks done, and waits for no more events.
  pub loop_ends :
      (before : List Wait) (w : Wait) (more : List Wait) (s s₁ s₂ : Loop E K W)
      → loop call callbacks before s ≡ ok s₁
      → s₁.quit ≡ false
      → round call callbacks w s₁ ≡ ok s₂
      → s₂.quit ≡ true
      → loop call callbacks (before ++ w ∷ more) s ≡ ok (record s₂ { looping = false })
  unfolding loop
  loop_ends before w more s s₁ s₂ e down r up =
      rounds-append before (w ∷ more) (record s { looping = true }) s₁ e down
      ∙ (rounds-go w more s₁ down
          ∙ (ap (λ (o : Outcome (Loop E K W)). o >>= λ x. rounds call callbacks more x) r
              ∙ rounds-quit more s₂ up))
