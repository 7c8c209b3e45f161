-- ===== src/Tcp/Selector/Frame.antt =====
-- What the calls of one channel leave alone.
use budd.Common.{ℕ, ◌≡◌, refl, ap, sym, ◌∙◌, subst, ◌≢◌, true, Option, none, some}
use budd.Outcome.{ok}
use budd.Tcp.Channel.{read_event}
use budd.Tcp.Selector.{Handle, Epoll, Selector, set_events, register, update_channel, enable_read}
use budd.Tcp.Selector.Interest.{put_same, put_other}
use budd.Tcp.Selector.Channels.{update_in_thread}

ok-injective : {A : Type 0} {a b : A} → ok a ≡ ok b → a ≡ b
ok-injective e = cc

module _ {E : Type 0} (ep : Epoll E) where
  -- What a call of one channel leaves alone: the descriptors and the channels of others.
  abbrev pub Spares : ℕ → Selector E → Selector E → Type 0
  Spares p s s' =
      ((k : ℕ) → k ≢ (s.channels p).fd → s'.channel_maps k ≡ s.channel_maps k)
      × ((q : ℕ) → q ≢ p → s'.channels q ≡ s.channels q)

  update_channel-Spares :
      (p : ℕ) (s : Selector E)
      → ((k : ℕ)
          → k ≢ (s.channels p).fd
          → (update_channel ep p s).channel_maps k ≡ s.channel_maps k)
        × ((update_channel ep p s).channels ≡ s.channels)
  unfolding update_channel register
  update_channel-Spares p s = go (s.channel_maps (s.channels p).fd)
    where
      go :
          (o : Option ℕ)
          → ((k : ℕ)
              → k ≢ (s.channels p).fd
              → (register ep o p (s.channels p) s).channel_maps k ≡ s.channel_maps k)
            × ((register ep o p (s.channels p) s).channels ≡ s.channels)
      go none = (λ k away. put_other (s.channels p).fd k (some p) s.channel_maps away, refl)
      go (some q) = (λ k away. refl, refl)

  pub set_events-Spares :
      (p events : ℕ) (s : Selector E) → Spares p s (update_channel ep p (set_events p events s))
  set_events-Spares p events s =
      let ch : Handle = record (s.channels p) { events = events } in
      let (maps, channels) = update_channel-Spares p (set_events p events s) in
      let same_fd : ((set_events p events s).channels p).fd ≡ (s.channels p).fd =
        ap Handle.fd (put_same p ch s.channels) in
      (
        λ k away. maps k (λ x. away (x ∙ same_fd)),
        λ q away. ap (λ c. c q) channels ∙ put_other p q ch s.channels away,
      )

  pub enable_read-Spares :
      (p : ℕ) (s s' : Selector E) → enable_read ep true p s ≡ ok s' → Spares p s s'
  unfolding enable_read
  enable_read-Spares p s s' e =
      subst (Spares p s)
        (ok-injective (sym (update_in_thread ep p (set_events p read_event s)) ∙ e))
        (set_events-Spares p read_event s)
