-- ===== src/Tcp/Channel.antt =====
-- tcp/channel.h, tcp/channel.cpp and the event sets of tcp/selector.h. A channel calls what was
-- registered with it; its callbacks act on a state `S`.
use Prim.Native.Nat.{bit_and, bit_or}
use budd.Common.{ℕ, Bool, not, Option, none, some, ◌==◌, if◌then◌else◌}
use budd.Outcome.{Outcome, ok, ◌>>=◌}

-- The bits of `sys/epoll.h`: EPOLLIN, EPOLLPRI, EPOLLOUT and EPOLLERR.
abbrev pub read_event : ℕ
read_event = bit_or 0x1 0x2

abbrev pub write_event : ℕ
write_event = 0x4

abbrev pub error_event : ℕ
error_event = 0x8

abbrev pub empty_event : ℕ
empty_event = 0

pub record Channel (S : Type 0) : Type 0 where
  pub fd : ℕ
  pub events : ℕ
  pub revents : ℕ
  pub read_callback : Option (S → Outcome S)
  pub write_callback : Option (S → Outcome S)
  pub error_callback : Option (S → Outcome S)
  pub close_callback : Option (S → Outcome S)

-- `events & set`, as a condition
abbrev pub has_event : ℕ → ℕ → Bool
has_event events set = not (bit_and events set == 0)

module _ {S : Type 0} where
  -- the constructor
  abbrev pub create : ℕ → Channel S
  create fd = record {
    fd = fd;
    events = 0;
    revents = 0;
    read_callback = none;
    write_callback = none;
    error_callback = none;
    close_callback = none;
  }

  -- The callback that is registered last is the one that is called.
  abbrev pub registe_read_callback : (S → Outcome S) → Channel S → Channel S
  registe_read_callback callback c = record c { read_callback = some callback }

  abbrev pub registe_write_callback : (S → Outcome S) → Channel S → Channel S
  registe_write_callback callback c = record c { write_callback = some callback }

  abbrev pub registe_error_callback : (S → Outcome S) → Channel S → Channel S
  registe_error_callback callback c = record c { error_callback = some callback }

  abbrev pub registe_close_callback : (S → Outcome S) → Channel S → Channel S
  registe_close_callback callback c = record c { close_callback = some callback }

  unfoldable pub is_writing : Channel S → Bool
  is_writing c = has_event c.events write_event

  -- `m_callback != nullptr`, and the call
  unfoldable pub call_if : Bool → Option (S → Outcome S) → S → Outcome S
  call_if test none s = ok s
  call_if test (some f) s = if test then f s else ok s

  -- The close callback is registered and never called.
  unfoldable pub handle_events : Channel S → S → Outcome S
  handle_events c s = do
    s₁ ← call_if (has_event c.revents error_event) c.error_callback s
    s₂ ← call_if (has_event c.revents read_event) c.read_callback s₁
    call_if (has_event c.revents write_event) c.write_callback s₂
