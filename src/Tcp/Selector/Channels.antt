-- ===== src/Tcp/Selector/Channels.antt =====
-- What the calls of a channel do to the selector: `enableRead` and its like, and `remove`.
use budd.Common.{
  ℕ, ◌≡◌, refl, ap, sym, ◌∙◌, subst, ◌≢◌, ◌⊎◌, inl, inr, true, Bool-cases, Option, none, some, ◌==◌,
  ==_iff,
}
use budd.Outcome.{Outcome, ok, err, ◌>>◌, ◌>>=◌, demand, assertion}
use budd.Tcp.Channel.{read_event, write_event, error_event, empty_event}
use budd.Tcp.Selector.{
  put, Epoll, Selector, is_registered, points_to, set_events, update_channel, remove_channel,
  loop_update_channel, loop_remove_channel, update, remove, enable_read, enable_write, enable_error,
  disable_events,
}
use budd.Tcp.Selector.Interest.{
  put_same, put_other, AgreesAt, AgreesAt-all, AgreesAt-by, Agrees, Owns, Asks, set_events-Asks,
}

pub some-injective : {a b : ℕ} → some a ≡ some b → a ≡ b
some-injective e = cc

module _ {E : Type 0} (ep : Epoll E) where
  -- A call on the loop's thread ends, and then the kernel is asked for the events.
  abbrev Answers : ℕ → ℕ → Selector E → Outcome (Selector E) → Type 0
  Answers p events s o = (s' : Selector E) × (o ≡ ok s') × Asks ep p events s s'

  pub update_in_thread : (p : ℕ) (s : Selector E) → update ep true p s ≡ ok (update_channel ep p s)
  unfolding update loop_update_channel
  update_in_thread p s =
      ap (λ b. demand b assertion >> ok (update_channel ep p s))
        ((==_iff (s.channels p).event_loop (s.channels p).event_loop).1 refl)

  set_events-Answers :
      (p events : ℕ) (s : Selector E)
      → Agrees ep s
      → Owns ep p s
      → Answers p events s (update ep true p (set_events p events s))
  set_events-Answers p events s a own =
      let t = set_events p events s in
      (update_channel ep p t, update_in_thread p t, set_events-Asks ep p events s a own)

  -- If the map of channels and the kernel agree and the descriptor of a channel has no other channel,
  -- then enableRead, enableWrite, enableError and disableEvents on the loop's thread end, the channel is
  -- registered, the kernel is asked for exactly the events of the last call, and the two still agree.
  pub enable_lem :
      (p : ℕ) (s : Selector E)
      → Agrees ep s
      → Owns ep p s
      → Answers p read_event s (enable_read ep true p s)
        × Answers p write_event s (enable_write ep true p s)
        × Answers p error_event s (enable_error ep true p s)
        × Answers p empty_event s (disable_events ep true p s)
  unfolding enable_read enable_write enable_error disable_events
  enable_lem p s a own = (
    set_events-Answers p read_event s a own,
    set_events-Answers p write_event s a own,
    set_events-Answers p error_event s a own,
    set_events-Answers p empty_event s a own,
  )

  -- The state behind a `removeChannel` that passes its assertions.
  abbrev without : ℕ → Selector E → Selector E
  without p s = record s {
    channel_maps = put (s.channels p).fd none s.channel_maps;
    epoll = ep.ctl_del (s.channels p).fd s.epoll;
  }

  remove-without :
      (p : ℕ) (s : Selector E)
      → s.channel_maps (s.channels p).fd ≡ some p
      → (s.channels p).events ≡ empty_event
      → remove ep true p s ≡ ok (without p s)
  unfolding remove loop_remove_channel remove_channel
  remove-without p s own idle =
      rw
        (
          (==_iff (s.channels p).event_loop (s.channels p).event_loop).1 refl,
          own,
          (==_iff p p).1 refl,
          (==_iff (s.channels p).events empty_event).1 idle,
        )
        refl

  -- If the map of channels and the kernel agree, remove of a registered channel with no events on the
  -- loop's thread ends, its descriptor has no channel and no events any more, the other descriptors are as
  -- they were, and the two still agree.
  pub remove_lem :
      (p : ℕ) (s : Selector E)
      → Agrees ep s
      → s.channel_maps (s.channels p).fd ≡ some p
      → (s.channels p).events ≡ empty_event
      → (s' : Selector E) × (remove ep true p s ≡ ok s')
        × Agrees ep s'
        × (s'.channel_maps (s.channels p).fd ≡ none)
        × (ep.interest s'.epoll (s.channels p).fd ≡ none)
        × ((k : ℕ) → k ≢ (s.channels p).fd → s'.channel_maps k ≡ s.channel_maps k)
  remove_lem p s a own idle = (
    without p s,
    remove-without p s own idle,
    AgreesAt-all ep s.channels fd (without p s).channel_maps (ep.interest (without p s).epoll)
        (AgreesAt-by ep s.channels fd free unasked refl)
        (λ k away.
          AgreesAt-by ep s.channels k (put_other fd k none s.channel_maps away)
            (gone k ∙ put_other fd k none (ep.interest s.epoll) away) (a k)),
    free,
    unasked,
    λ k away. put_other fd k none s.channel_maps away,
  )
    where
      fd : ℕ
      fd = (s.channels p).fd

      asked : ep.interest s.epoll fd ≡ some ((s.channels p).events)
      asked = (subst (λ o. AgreesAt s.channels fd o (ep.interest s.epoll fd)) own (a fd)).1

      gone : (k : ℕ) → ep.interest (ep.ctl_del fd s.epoll) k ≡ put fd none (ep.interest s.epoll) k
      gone = ep.interest-ctl_del fd ((s.channels p).events) s.epoll asked

      free : put fd none s.channel_maps fd ≡ none
      free = put_same fd none s.channel_maps

      unasked : ep.interest (ep.ctl_del fd s.epoll) fd ≡ none
      unasked = gone fd ∙ put_same fd none (ep.interest s.epoll)

  -- remove of a channel that still has events fails an assertion, and so does one of a channel that its
  -- descriptor does not stand for in the map.
  pub remove_refused :
      (p : ℕ) (s : Selector E)
      → ((s.channels p).events ≢ empty_event) ⊎ (s.channel_maps (s.channels p).fd ≢ some p)
      → remove ep true p s ≡ err assertion
  unfolding remove loop_remove_channel remove_channel
  remove_refused p s bad =
      rw ((==_iff (s.channels p).event_loop (s.channels p).event_loop).1 refl)
        (go (s.channel_maps (s.channels p).fd) ((s.channels p).events) bad)
    where
      go :
          (o : Option ℕ) (events : ℕ)
          → (events ≢ empty_event) ⊎ (o ≢ some p)
          → (demand (is_registered o) assertion
              >> (demand (points_to o p) assertion
                  >> (demand (events == empty_event) assertion >> ok (without p s))))
            ≡ err assertion
      go none events h = refl
      go (some q) events h = elim (Bool-cases (q == p)) [
        | inr e ↦ rw e refl
        | inl e ↦ rw e (elim (Bool-cases (events == empty_event)) [
          | inr f ↦ rw f refl
          | inl f ↦ absurd (elim h [
            | inl busy ↦ busy ((==_iff events empty_event).0 f)
            | inr other ↦ other (ap some ((==_iff q p).0 e))
          ])
        ])
      ]

  -- If the map of channels and the kernel agree, disableEvents and then remove of a registered channel, as
  -- connectDestroyed calls them on the loop's thread, end, whatever events the channel had; its descriptor
  -- has no channel and no events any more, and the two still agree.
  pub disable-remove :
      (p : ℕ) (s : Selector E)
      → Agrees ep s
      → s.channel_maps (s.channels p).fd ≡ some p
      → (s' : Selector E) × ((disable_events ep true p s >>= λ t. remove ep true p t) ≡ ok s')
        × Agrees ep s'
        × (s'.channel_maps (s.channels p).fd ≡ none)
        × (ep.interest s'.epoll (s.channels p).fd ≡ none)
  disable-remove p s a own =
      let fd = (s.channels p).fd in
      let (r, w, e, (t, disabled, (agrees, mine, asked))) = enable_lem p s a (inr own) in
      let there : AgreesAt t.channels fd (some p) (ep.interest t.epoll fd) =
        subst (λ o. AgreesAt t.channels fd o (ep.interest t.epoll fd)) mine (agrees fd) in
      let (s', removed, agrees', free, unasked, others) =
        remove_lem p t agrees (ap t.channel_maps there.0 ∙ mine)
          (some-injective (sym there.1 ∙ asked)) in
      (
        s',
        ap (λ o. o >>= λ x. remove ep true p x) disabled ∙ removed,
        agrees',
        ap s'.channel_maps (sym there.0) ∙ free,
        ap (ep.interest s'.epoll) (sym there.0) ∙ unasked,
      )
