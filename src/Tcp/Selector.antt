-- ===== src/Tcp/Selector.antt =====
-- tcp/selector.h and tcp/selector.cpp, `class Selector`, and what reaches it from a channel:
-- `Channel::update` and `remove` of tcp/channel.cpp, and `updateChannel` and `removeChannel` of
-- tcp/eventLoop.cpp. Pointers to channels are numbers, `channels` is the store behind them.
pub mod Interest
pub mod Channels
pub mod Frame
pub mod Active
pub mod Sample
mod Tests
use budd.Common.{ℕ, ◌≡◌, Bool, true, false, Option, none, some, List, [], ◌∷◌, ◌==◌, if◌then◌else◌}
use budd.Outcome.{Outcome, ok, err, ◌>>=◌, ◌>>◌, demand, assertion, fatal}
use budd.Tcp.Channel.{read_event, write_event, error_event, empty_event}

-- A channel, but for its callbacks.
pub record Handle : Type 0 where
  pub event_loop : ℕ
  pub fd : ℕ
  pub events : ℕ
  pub revents : ℕ

-- A map with one key set, or without one.
abbrev pub put {ℓ} : {V : Type ℓ} → ℕ → V → (ℕ → V) → ℕ → V
put k v m j = if j == k then v else m j

-- The kernel's side, with what its manual promises: the events that an epoll instance is asked for,
-- by file descriptor, and `epoll_ctl`.
pub record Epoll (E : Type 0) : Type 0 where
  pub interest : E → ℕ → Option ℕ
  pub ctl_add : ℕ → ℕ → E → E
  pub ctl_mod : ℕ → ℕ → E → E
  pub ctl_del : ℕ → E → E
  pub interest-ctl_add :
      (fd events : ℕ) (e : E)
      → interest e fd ≡ none
      → (k : ℕ) → interest (ctl_add fd events e) k ≡ put fd (some events) (interest e) k
  pub interest-ctl_mod :
      (fd events old : ℕ) (e : E)
      → interest e fd ≡ some old
      → (k : ℕ) → interest (ctl_mod fd events e) k ≡ put fd (some events) (interest e) k
  pub interest-ctl_del :
      (fd old : ℕ) (e : E)
      → interest e fd ≡ some old
      → (k : ℕ) → interest (ctl_del fd e) k ≡ put fd none (interest e) k

-- `channel_maps` is `m_channelMaps`, `epoll` what stands behind `m_epollfd`.
pub record Selector (E : Type 0) : Type 0 where
  pub epoll : E
  pub channel_maps : ℕ → Option ℕ
  pub channels : ℕ → Handle

-- What `epoll_wait` returns: -1, or the descriptors with their events.
pub data Wait : Type 0 where
  failed : Wait
  reported : List (ℕ × ℕ) → Wait

abbrev pub is_registered : Option ℕ → Bool
is_registered none = false
is_registered (some p) = true

abbrev pub points_to : Option ℕ → ℕ → Bool
points_to none p = false
points_to (some q) p = q == p

-- `find`, and the assertion that it finds
abbrev pub found : Option ℕ → Outcome ℕ
found none = err assertion
found (some p) = ok p

module _ {E : Type 0} where
  -- The constructor, with what `epoll_create` makes, and the store of the channels.
  abbrev pub create : E → (ℕ → Handle) → Selector E
  create epoll channels = record { epoll = epoll; channel_maps = λ fd. none; channels = channels }

  abbrev pub set_events : ℕ → ℕ → Selector E → Selector E
  set_events p events s = record s {
    channels = put p (record (s.channels p) { events = events }) s.channels;
  }

  abbrev pub set_revents : ℕ → ℕ → Selector E → Selector E
  set_revents p revents s = record s {
    channels = put p (record (s.channels p) { revents = revents }) s.channels;
  }

  -- The loop of `select`: the active channels, and the selector.
  unfoldable pub activate : List (ℕ × ℕ) → Selector E → Outcome (List ℕ × Selector E)
  activate [] s = ok ([], s)
  activate ((fd, events) ∷ reports) s = do
    p ← found (s.channel_maps fd)
    (ps, s') ← activate reports (set_revents p events s)
    ok (p ∷ ps, s')

  unfoldable pub select : Wait → Selector E → Outcome (List ℕ × Selector E)
  select failed s = ok ([], s)
  select (reported reports) s = activate reports s

  module _ (ep : Epoll E) where
    -- The two branches of `updateChannel`.
    unfoldable pub register : Option ℕ → ℕ → Handle → Selector E → Selector E
    register none p ch s = record s {
      epoll = ep.ctl_add ch.fd ch.events s.epoll;
      channel_maps = put ch.fd (some p) s.channel_maps;
    }
    register (some q) p ch s = record s { epoll = ep.ctl_mod ch.fd ch.events s.epoll }

    unfoldable pub update_channel : ℕ → Selector E → Selector E
    update_channel p s = let ch = s.channels p in register (s.channel_maps ch.fd) p ch s

    unfoldable pub remove_channel : ℕ → Selector E → Outcome (Selector E)
    remove_channel p s = do
      let ch = s.channels p
      demand (is_registered (s.channel_maps ch.fd)) assertion
      demand (points_to (s.channel_maps ch.fd) p) assertion
      demand (ch.events == empty_event) assertion
      ok (record s {
        channel_maps = put ch.fd none s.channel_maps;
        epoll = ep.ctl_del ch.fd s.epoll;
      })

    -- `EventLoop::updateChannel` and `removeChannel` of the loop `this`; `in_thread` tells whether
    -- the calling thread is the loop's.
    unfoldable pub loop_update_channel : ℕ → Bool → ℕ → Selector E → Outcome (Selector E)
    loop_update_channel this in_thread p s = do
      demand ((s.channels p).event_loop == this) assertion
      demand in_thread fatal
      ok (update_channel p s)

    unfoldable pub loop_remove_channel : ℕ → Bool → ℕ → Selector E → Outcome (Selector E)
    loop_remove_channel this in_thread p s = do
      demand ((s.channels p).event_loop == this) assertion
      demand in_thread fatal
      remove_channel p s

    -- `Channel::update` and `remove`, on the loop of the channel
    unfoldable pub update : Bool → ℕ → Selector E → Outcome (Selector E)
    update in_thread p s = loop_update_channel (s.channels p).event_loop in_thread p s

    unfoldable pub remove : Bool → ℕ → Selector E → Outcome (Selector E)
    remove in_thread p s =
        demand in_thread fatal >> loop_remove_channel (s.channels p).event_loop in_thread p s

    unfoldable pub enable_read : Bool → ℕ → Selector E → Outcome (Selector E)
    enable_read in_thread p s = update in_thread p (set_events p read_event s)

    unfoldable pub enable_write : Bool → ℕ → Selector E → Outcome (Selector E)
    enable_write in_thread p s = update in_thread p (set_events p write_event s)

    unfoldable pub enable_error : Bool → ℕ → Selector E → Outcome (Selector E)
    enable_error in_thread p s = update in_thread p (set_events p error_event s)

    unfoldable pub disable_events : Bool → ℕ → Selector E → Outcome (Selector E)
    disable_events in_thread p s = update in_thread p (set_events p empty_event s)
