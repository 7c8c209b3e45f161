-- ===== src/Tcp/Selector/Interest.antt =====
-- The map of channels and the events that the kernel is asked for agree, whatever a channel does.
use budd.Common.{
  ℕ, ◌≡◌, refl, ap, sym, ◌∙◌, subst, ◌≢◌, ◌⊎◌, inl, inr, true≢false, Bool-cases, Option, none, some,
  ◌==◌, ==_iff, if◌then◌else◌,
}
use budd.Tcp.Selector.{Handle, put, Epoll, Selector, set_events, register, update_channel}

pub put_same {ℓ} : {V : Type ℓ} (k : ℕ) (v : V) (m : ℕ → V) → put k v m k ≡ v
put_same k v m = ap (λ b. if b then v else m k) ((==_iff k k).1 refl)

pub put_other {ℓ} : {V : Type ℓ} (k j : ℕ) (v : V) (m : ℕ → V) → j ≢ k → put k v m j ≡ m j
put_other k j v m ne = elim (Bool-cases (j == k)) [
  | inl e ↦ absurd (ne ((==_iff j k).0 e))
  | inr e ↦ ap (λ b. if b then v else m j) e
]

-- What is known of the descriptor `fd`: it has no channel and no events, or a channel and its events.
abbrev pub AgreesAt : (ℕ → Handle) → ℕ → Option ℕ → Option ℕ → Type 0
AgreesAt channels fd none i = i ≡ none
AgreesAt channels fd (some p) i = ((channels p).fd ≡ fd) × (i ≡ some ((channels p).events))

module _ {E : Type 0} (ep : Epoll E) where
  abbrev pub Agrees : Selector E → Type 0
  Agrees s = (fd : ℕ) → AgreesAt s.channels fd (s.channel_maps fd) (ep.interest s.epoll fd)

  -- The channel is the one of its descriptor, if that has one.
  abbrev pub Owns : ℕ → Selector E → Type 0
  Owns p s = (s.channel_maps (s.channels p).fd ≡ none) ⊎ (s.channel_maps (s.channels p).fd ≡ some p)

  -- The descriptors other than one are as they were.
  AgreesAt-other :
      (s : Selector E) (p events fd : ℕ)
      → Agrees s
      → fd ≢ (s.channels p).fd
      → AgreesAt (set_events p events s).channels fd (s.channel_maps fd) (ep.interest s.epoll fd)
  AgreesAt-other s p events fd a ne = go (s.channel_maps fd) (a fd)
    where
      go :
          (o : Option ℕ)
          → AgreesAt s.channels fd o (ep.interest s.epoll fd)
          → AgreesAt (set_events p events s).channels fd o (ep.interest s.epoll fd)
      go none h = h
      go (some q) h =
          let differ : q ≢ p = λ e. ne (sym h.0 ∙ ap (λ x. (s.channels x).fd) e) in
          let new : put p (record (s.channels p) { events = events }) s.channels q ≡ s.channels q =
            put_other p q (record (s.channels p) { events = events }) s.channels differ in
          (ap Handle.fd new ∙ h.0, h.1 ∙ ap (λ c. some (c.events)) (sym new))

  pub AgreesAt-by :
      (channels : ℕ → Handle) (fd : ℕ) {o o' i i' : Option ℕ}
      → o ≡ o'
      → i ≡ i'
      → AgreesAt channels fd o' i'
      → AgreesAt channels fd o i
  AgreesAt-by channels fd {o} {o'} {i} {i'} e f h =
      subst (λ x. AgreesAt channels fd x i) (sym e)
        (subst (λ x. AgreesAt channels fd o' x) (sym f) h)

  pub AgreesAt-all :
      (channels : ℕ → Handle) (fd : ℕ) (o i : ℕ → Option ℕ)
      → AgreesAt channels fd (o fd) (i fd)
      → ((k : ℕ) → k ≢ fd → AgreesAt channels k (o k) (i k))
      → (k : ℕ) → AgreesAt channels k (o k) (i k)
  AgreesAt-all channels fd o i at others k = elim (Bool-cases (k == fd)) [
    | inl e ↦ subst (λ j. AgreesAt channels j (o j) (i j)) (sym ((==_iff k fd).0 e)) at
    | inr e ↦ others k (λ h. true≢false (sym ((==_iff k fd).1 h) ∙ e))
  ]

  update_channel-by :
      (p : ℕ) (s : Selector E) (o : Option ℕ)
      → s.channel_maps (s.channels p).fd ≡ o
      → update_channel ep p s ≡ register ep o p (s.channels p) s
  unfolding update_channel
  update_channel-by p s o e = ap (λ x. register ep x p (s.channels p) s) e

  -- The descriptor of a channel that may be out of date: free, or the channel's own.
  abbrev Stale : ℕ → Option ℕ → Option ℕ → Type 0
  Stale p o i = ((o ≡ none) × (i ≡ none)) ⊎ ((o ≡ some p) × ((old : ℕ) × (i ≡ some old)))

  update_channel-Agrees :
      (p : ℕ) (s : Selector E)
      → ((fd : ℕ)
          → fd ≢ (s.channels p).fd
          → AgreesAt s.channels fd (s.channel_maps fd) (ep.interest s.epoll fd))
      → Stale p (s.channel_maps (s.channels p).fd) (ep.interest s.epoll (s.channels p).fd)
      → Agrees (update_channel ep p s)
        × ((update_channel ep p s).channel_maps (s.channels p).fd ≡ some p)
        × (ep.interest (update_channel ep p s).epoll (s.channels p).fd
            ≡ some ((s.channels p).events))
  unfolding register
  update_channel-Agrees p s others (inl (free, unasked)) =
      subst
        (λ x.
          Agrees x
          × (x.channel_maps (s.channels p).fd ≡ some p)
          × (ep.interest x.epoll (s.channels p).fd ≡ some ((s.channels p).events)))
        (sym (update_channel-by p s none free))
        (
          AgreesAt-all s.channels fd (put fd (some p) s.channel_maps)
              (ep.interest (ep.ctl_add fd events s.epoll))
              (AgreesAt-by s.channels fd (put_same fd (some p) s.channel_maps) asks (refl, refl))
              (λ k away.
                AgreesAt-by s.channels k (put_other fd k (some p) s.channel_maps away)
                  (added k ∙ put_other fd k (some events) (ep.interest s.epoll) away)
                  (others k away)),
          put_same fd (some p) s.channel_maps,
          asks,
        )
    where
      fd : ℕ
      fd = (s.channels p).fd

      events : ℕ
      events = (s.channels p).events

      added :
          (k : ℕ)
          → ep.interest (ep.ctl_add fd events s.epoll) k
            ≡ put fd (some events) (ep.interest s.epoll) k
      added = ep.interest-ctl_add fd events s.epoll unasked

      asks : ep.interest (ep.ctl_add fd events s.epoll) fd ≡ some events
      asks = added fd ∙ put_same fd (some events) (ep.interest s.epoll)
  update_channel-Agrees p s others (inr (own, (old, asked))) =
      subst
        (λ x.
          Agrees x
          × (x.channel_maps (s.channels p).fd ≡ some p)
          × (ep.interest x.epoll (s.channels p).fd ≡ some ((s.channels p).events)))
        (sym (update_channel-by p s (some p) own))
        (
          AgreesAt-all s.channels fd s.channel_maps (ep.interest (ep.ctl_mod fd events s.epoll))
              (AgreesAt-by s.channels fd own asks (refl, refl))
              (λ k away.
                AgreesAt-by s.channels k refl
                  (changed k ∙ put_other fd k (some events) (ep.interest s.epoll) away)
                  (others k away)),
          own,
          asks,
        )
    where
      fd : ℕ
      fd = (s.channels p).fd

      events : ℕ
      events = (s.channels p).events

      changed :
          (k : ℕ)
          → ep.interest (ep.ctl_mod fd events s.epoll) k
            ≡ put fd (some events) (ep.interest s.epoll) k
      changed = ep.interest-ctl_mod fd events old s.epoll asked

      asks : ep.interest (ep.ctl_mod fd events s.epoll) fd ≡ some events
      asks = changed fd ∙ put_same fd (some events) (ep.interest s.epoll)

  -- What an `enable` call does with the events `events`.
  abbrev pub Asks : ℕ → ℕ → Selector E → Selector E → Type 0
  Asks p events s s' =
      Agrees s'
      × (s'.channel_maps (s.channels p).fd ≡ some p)
      × (ep.interest s'.epoll (s.channels p).fd ≡ some events)

  stale :
      (p : ℕ) (s : Selector E)
      → Agrees s
      → Owns p s
      → Stale p (s.channel_maps (s.channels p).fd) (ep.interest s.epoll (s.channels p).fd)
  stale p s a (inl free) = inl (
    free,
    subst (λ o. AgreesAt s.channels (s.channels p).fd o (ep.interest s.epoll (s.channels p).fd))
        free (a (s.channels p).fd),
  )
  stale p s a (inr own) =
      let there =
        subst (λ o. AgreesAt s.channels (s.channels p).fd o (ep.interest s.epoll (s.channels p).fd))
          own (a (s.channels p).fd) in
      inr (own, ((s.channels p).events, there.1))

  pub set_events-Asks :
      (p events : ℕ) (s : Selector E)
      → Agrees s
      → Owns p s
      → Asks p events s (update_channel ep p (set_events p events s))
  set_events-Asks p events s a own =
      let ch : Handle = record (s.channels p) { events = events } in
      let t = set_events p events s in
      let now : t.channels p ≡ ch = put_same p ch s.channels in
      let same_fd : (t.channels p).fd ≡ (s.channels p).fd = ap Handle.fd now in
      let done =
        update_channel-Agrees p t
          (λ fd away. AgreesAt-other s p events fd a (λ e. away (e ∙ sym same_fd)))
          (subst (λ fd. Stale p (s.channel_maps fd) (ep.interest s.epoll fd)) (sym same_fd)
            (stale p s a own)) in
      (
        done.0,
        ap (update_channel ep p t).channel_maps (sym same_fd) ∙ done.1,
        ap (ep.interest (update_channel ep p t).epoll) (sym same_fd)
            ∙ (done.2 ∙ ap (λ c. some (c.events)) now),
      )
