-- ===== src/Tcp/Selector/Active.antt =====
-- What `select` makes of the events that the kernel reports.
use budd.Common.{
  ℕ, ◌≡◌, refl, ap, sym, ◌∙◌, subst, ◌≢◌, inl, inr, Bool-cases, ◌==◌, ==_iff, if◌then◌else◌, Option,
  none, some, List, [], ◌∷◌,
}
use budd.Outcome.{ok}
use budd.Tcp.Selector.{Handle, put, Epoll, Selector, set_revents, activate, reported, select}
use budd.Tcp.Selector.Interest.{put_same, put_other, AgreesAt, Agrees}

abbrev pub LacksFd : ℕ → List (ℕ × ℕ) → Type 0
LacksFd fd [] = Unit {0}
LacksFd fd ((k, events) ∷ reports) = (fd ≢ k) × LacksFd fd reports

-- Each descriptor is reported once.
abbrev pub Once : List (ℕ × ℕ) → Type 0
Once [] = Unit {0}
Once ((fd, events) ∷ reports) = LacksFd fd reports × Once reports

-- The active channels are those of the reported descriptors, in order, with the reported events.
abbrev pub Activated : (ℕ → Option ℕ) → (ℕ → Handle) → List (ℕ × ℕ) → List ℕ → Type 0
Activated maps channels [] [] = Unit {0}
Activated maps channels [] (p ∷ ps) = ⊥
Activated maps channels (r ∷ reports) [] = ⊥
Activated maps channels ((fd, events) ∷ reports) (p ∷ ps) =
    (maps fd ≡ some p) × ((channels p).revents ≡ events) × Activated maps channels reports ps

pub put_keeps :
    {V W : Type 0} (f : V → W) (k : ℕ) (v : V) (m : ℕ → V) (j : ℕ)
    → f v ≡ f (m k)
    → f (put k v m j) ≡ f (m j)
put_keeps f k v m j same = elim (Bool-cases (j == k)) [
  | inl e ↦
      ap (λ b. f (if b then v else m j)) e ∙ (same ∙ ap (λ x. f (m x)) (sym ((==_iff j k).0 e)))
  | inr e ↦ ap (λ b. f (if b then v else m j)) e
]

module _ {E : Type 0} (ep : Epoll E) where
  -- The kernel reports only descriptors that it was asked for.
  abbrev pub Asked : E → List (ℕ × ℕ) → Type 0
  Asked e [] = Unit {0}
  Asked e ((fd, events) ∷ reports) = (ep.interest e fd ≢ none) × Asked e reports

  registered :
      (channels : ℕ → Handle) (fd : ℕ) (o i : Option ℕ)
      → AgreesAt channels fd o i
      → i ≢ none
      → (p : ℕ) × (o ≡ some p) × ((channels p).fd ≡ fd)
  registered channels fd none i h asked = absurd (asked h)
  registered channels fd (some p) i h asked = (p, refl, h.0)

  pub AgreesAt-set_revents :
      (s : Selector E) (p revents k : ℕ) (o i : Option ℕ)
      → AgreesAt s.channels k o i
      → AgreesAt (set_revents p revents s).channels k o i
  AgreesAt-set_revents s p revents k none i h = h
  AgreesAt-set_revents s p revents k (some q) i h =
      let ch : Handle = record (s.channels p) { revents = revents } in
      let keeps : ((set_revents p revents s).channels q).fd ≡ (s.channels q).fd =
        put_keeps Handle.fd p ch s.channels q refl in
      let keeps_events : ((set_revents p revents s).channels q).events ≡ (s.channels q).events =
        put_keeps Handle.events p ch s.channels q refl in
      (keeps ∙ h.0, h.1 ∙ ap some (sym keeps_events))

  abbrev Result : List (ℕ × ℕ) → Selector E → Type 0
  Result reports s =
      (ps : List ℕ) × (s' : Selector E) × (activate reports s ≡ ok (ps, s'))
      × (s'.channel_maps ≡ s.channel_maps)
      × Agrees ep s'
      × ((q : ℕ) → LacksFd (s.channels q).fd reports → s'.channels q ≡ s.channels q)
      × Activated s.channel_maps s'.channels reports ps

  activate-Activated :
      (reports : List (ℕ × ℕ)) (s : Selector E)
      → Agrees ep s
      → Asked s.epoll reports
      → Once reports
      → Result reports s
  unfolding activate
  activate-Activated [] s a asked once = ([], s, refl, refl, a, λ q h. refl, tt)
  activate-Activated ((fd, events) ∷ reports) s a asked once =
      let (p, at, own_fd) =
        registered s.channels fd (s.channel_maps fd) (ep.interest s.epoll fd) (a fd) asked.0 in
      let ch : Handle = record (s.channels p) { revents = events } in
      let s₁ = set_revents p events s in
      let fd_kept : (q : ℕ) → (s₁.channels q).fd ≡ (s.channels q).fd =
        λ q. put_keeps Handle.fd p ch s.channels q refl in
      let lacks : (q : ℕ) → LacksFd (s.channels q).fd reports → LacksFd (s₁.channels q).fd reports =
        λ q h. subst (λ k. LacksFd k reports) (sym (fd_kept q)) h in
      let (ps, s', runs, maps, agrees, frame, active) =
        activate-Activated reports s₁
          (λ k. AgreesAt-set_revents s p events k (s.channel_maps k) (ep.interest s.epoll k) (a k))
          asked.1 once.1 in
      let head : s'.channels p ≡ ch =
        frame p (lacks p (subst (λ k. LacksFd k reports) (sym own_fd) once.0))
        ∙ put_same p ch s.channels in
      (
        p ∷ ps,
        s',
        rw (at, runs) refl,
        maps,
        agrees,
        λ q h.
            frame q (lacks q h.1)
            ∙ put_other p q ch s.channels (λ e. h.0 (ap (λ x. (s.channels x).fd) e ∙ own_fd)),
        (at, ap Handle.revents head, active),
      )

  -- If the map of channels and the kernel agree, and the kernel reports events of descriptors that it
  -- was asked for, each once, then select ends with no failed assertion, the active channels are those
  -- of the reported descriptors, in order, each with the reported events, and the two still agree.
  pub select_lem :
      (reports : List (ℕ × ℕ)) (s : Selector E)
      → Agrees ep s
      → Asked s.epoll reports
      → Once reports
      → (ps : List ℕ) × (s' : Selector E) × (select (reported reports) s ≡ ok (ps, s'))
        × Activated s.channel_maps s'.channels reports ps
        × Agrees ep s'
  unfolding select
  select_lem reports s a asked once =
      let (ps, s', runs, maps, agrees, frame, active) = activate-Activated reports s a asked once in
      (ps, s', runs, active, agrees)
