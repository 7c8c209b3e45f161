-- ===== src/Tcp/EventLoop/Create.antt =====
-- The constructor and the destructor of `EventLoop`, with the part of the constructor of `TimerQueue`
-- that registers its channel.
use budd.Common.{
  ℕ, ◌≡◌, ◌≢◌, refl, ap, sym, ◌∙◌, subst, inl, Bool, true, false, Option, none, some, [],
}
use budd.Outcome.{Outcome, ok, err, ◌>>=◌, ◌>>◌, demand, fatal}
use budd.Tcp.Channel.{read_event}
use budd.Tcp.EventLoop.Loop.{Loop}
use budd.Tcp.Selector.{Epoll, Handle, Selector, enable_read}
use budd.Tcp.Selector.Channels.{enable_lem}
use budd.Tcp.Selector.Frame.{enable_read-Spares}
use budd.Tcp.Selector.Interest.{AgreesAt, Agrees}

abbrev is_null : Option ℕ → Bool
is_null none = true
is_null (some p) = false

module _ {E : Type 0} (ep : Epoll E) where
  -- What the constructor sets, but for the selector.
  abbrev pub new_loop : {K W : Type 0} → W → Selector E → Loop E K W
  new_loop w s = record {
    event_loop = record { task_q = []; calling_task = false; wakeup_count = 0 };
    selector = s;
    active_channel_list = [];
    looping = false;
    quit = false;
    world = w;
  }

  -- `thread_local` is what `threadLocalEventLoop` holds: the loop, and what it holds then. The channels
  -- are made by then, and the selector is new.
  unfoldable pub create :
      {K W : Type 0} → ℕ → Option ℕ → ℕ → ℕ → W → Selector E → Outcome (Loop E K W × Option ℕ)
  create this thread_local timer_channel wakeup_channel world selector = do
    s₁ ← enable_read ep true timer_channel selector
    demand (is_null thread_local) fatal
    s₂ ← enable_read ep true wakeup_channel s₁
    ok (new_loop world s₂, some this)

  -- A channel is registered, and the kernel is asked for its read events.
  abbrev pub Reads : ℕ → Selector E → Type 0
  Reads p s =
      (s.channel_maps (s.channels p).fd ≡ some p)
      × (ep.interest s.epoll (s.channels p).fd ≡ some read_event)

  known :
      (s : Selector E) (fd p : ℕ)
      → Agrees ep s
      → s.channel_maps fd ≡ some p
      → ((s.channels p).fd ≡ fd) × (ep.interest s.epoll fd ≡ some ((s.channels p).events))
  known s fd p a e = subst (λ o. AgreesAt s.channels fd o (ep.interest s.epoll fd)) e (a fd)

  -- `enableRead` of a channel whose descriptor is free, and then what the channel and another one ask for.
  enable_read-Reads :
      (p : ℕ) (s : Selector E)
      → Agrees ep s
      → s.channel_maps (s.channels p).fd ≡ none
      → (s' : Selector E) × (enable_read ep true p s ≡ ok s')
        × Agrees ep s'
        × Reads p s'
        × ((s'.channels p).fd ≡ (s.channels p).fd)
        × ((q : ℕ)
            → (s.channels q).fd ≢ (s.channels p).fd
            → (s'.channels q ≡ s.channels q)
              × (s'.channel_maps (s.channels q).fd ≡ s.channel_maps (s.channels q).fd))
  enable_read-Reads p s a free =
      let ((s', e, (agrees, mine, asked)), w, x, d) = enable_lem ep p s a (inl free) in
      let (maps, channels) = enable_read-Spares ep p s s' e in
      let same = (known s' (s.channels p).fd p agrees mine).0 in
      (
        s',
        e,
        agrees,
        (ap s'.channel_maps same ∙ mine, ap (ep.interest s'.epoll) same ∙ asked),
        same,
        λ q away.
            (channels q (λ x. away (ap (λ y. (s.channels y).fd) x)), maps (s.channels q).fd away),
      )

  Reads-kept :
      (q : ℕ) (s s' : Selector E)
      → Agrees ep s
      → Agrees ep s'
      → Reads q s
      → s'.channels q ≡ s.channels q
      → s'.channel_maps (s.channels q).fd ≡ s.channel_maps (s.channels q).fd
      → Reads q s'
  Reads-kept q s s' a a' reads same maps =
      let fd = (s.channels q).fd in
      let mine : s'.channel_maps fd ≡ some q = maps ∙ reads.0 in
      let asks = (known s fd q a reads.0).1 in
      let asks' = (known s' fd q a' mine).1 in
      let key : (s'.channels q).fd ≡ fd = ap Handle.fd same in
      (
        ap s'.channel_maps key ∙ mine,
        ap (ep.interest s'.epoll) key
            ∙ (asks' ∙ (ap (λ c. some (c.events)) same ∙ (sym asks ∙ reads.1))),
      )

  enable_both :
      (timer wakeup : ℕ) (s : Selector E)
      → Agrees ep s
      → ((fd : ℕ) → s.channel_maps fd ≡ none)
      → (s.channels timer).fd ≢ (s.channels wakeup).fd
      → (s₁ : Selector E) × (s₂ : Selector E) × (enable_read ep true timer s ≡ ok s₁)
        × (enable_read ep true wakeup s₁ ≡ ok s₂)
        × Agrees ep s₂
        × Reads timer s₂
        × Reads wakeup s₂
  enable_both timer wakeup s a empty differ =
      let (s₁, e₁, a₁, reads₁, fd₁, spared₁) = enable_read-Reads timer s a (empty _) in
      let (same₁, maps₁) = spared₁ wakeup (λ x. differ (sym x)) in
      let fd_w = ap Handle.fd same₁ in
      let (s₂, e₂, a₂, reads₂, fd₂, spared₂) =
        enable_read-Reads wakeup s₁ a₁ (ap s₁.channel_maps fd_w ∙ (maps₁ ∙ empty _)) in
      let (same₂, maps₂) = spared₂ timer (λ x. differ (sym fd₁ ∙ (x ∙ fd_w))) in
      (s₁, s₂, e₁, e₂, a₂, Reads-kept timer s₁ s₂ a₁ a₂ reads₁ same₂ maps₂, reads₂)

  -- A new loop on a thread that has none is made with its two channels, of different descriptors,
  -- registered for reads, and the map of channels and the kernel agree; on a thread that has one the
  -- process ends.
  pub create_lem :
      {K W : Type 0} (this other timer_channel wakeup_channel : ℕ) (w : W) (s : Selector E)
      → Agrees ep s
      → ((fd : ℕ) → s.channel_maps fd ≡ none)
      → (s.channels timer_channel).fd ≢ (s.channels wakeup_channel).fd
      → ((l : Loop E K W) × (create this none timer_channel wakeup_channel w s ≡ ok (l, some this))
          × Agrees ep l.selector
          × Reads timer_channel l.selector
          × Reads wakeup_channel l.selector)
        × (create {K = K} {W = W} this (some other) timer_channel wakeup_channel w s ≡ err fatal)
  unfolding create
  create_lem this other timer wakeup w s a empty differ =
      let (s₁, s₂, e₁, e₂, agrees, reads_timer, reads_wakeup) =
        enable_both timer wakeup s a empty differ in
      ((new_loop w s₂, rw (e₁, e₂) refl, agrees, reads_timer, reads_wakeup), rw e₁ refl)
