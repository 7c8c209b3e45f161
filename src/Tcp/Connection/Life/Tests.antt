-- ===== src/Tcp/Connection/Life/Tests.antt =====
-- A loop with one connection that was just made.
use budd.Common.{ℕ, suc, false, ◌≡◌, refl, Option, none, some, [], codes}
use budd.Outcome.{ok}
use budd.Buffer.{Buffer}
use budd.Tcp.Channel.{read_event}
use budd.Tcp.Connection.{TcpConnection, State, connected}
use budd.Tcp.Connection.Hosted.{Hosted, on_established, on_destroyed}
use budd.Tcp.Connection.Life.{destroyed, on_established-on_destroyed}
use budd.Tcp.EventLoop.Loop.{Loop}
use budd.Tcp.Selector.Interest.{Agrees}
use budd.Tcp.Selector.Sample.{kernel}

abbrev empty : Buffer
empty = record { reader_index = 8; writer_index = 8; buffer = codes "............" }

abbrev made : TcpConnection ℕ
made = record {
  state = State.none;
  events = 0;
  input_buffer = empty;
  output_buffer = empty;
  context = Option.none;
  sent = [];
  write_shut = false;
  closed = false;
}

-- The channel 0 of the connection has the descriptor 5; what the callbacks work on besides is a count.
abbrev alone : Loop (ℕ → Option ℕ) ℕ (Hosted ℕ ℕ)
alone = record {
  event_loop = record { task_q = []; calling_task = false; wakeup_count = 0 };
  selector = record {
    epoll = λ fd. none;
    channel_maps = λ fd. none;
    channels = λ p. record { event_loop = 9; fd = 5; events = 0; revents = 0 };
  };
  active_channel_list = [];
  looping = false;
  quit = false;
  world = record { connections = λ p. made; rest = 0 };
}

abbrev greeted : TcpConnection ℕ
greeted = record made { state = connected; context = some 7 }

on_established-on_destroyed_example :
    (s₁ : Loop (ℕ → Option ℕ) ℕ (Hosted ℕ ℕ)) × (s₂ : Loop (ℕ → Option ℕ) ℕ (Hosted ℕ ℕ))
    × (on_established kernel
          (λ c n. ok (record c { context = some 7 }, suc n))
          (λ c bytes n. ok (c, n))
          (λ c n. ok (c, n))
          0
          alone
        ≡ ok s₁)
    × (on_destroyed kernel 0 s₁ ≡ ok s₂)
    × (s₁.selector.epoll 5 ≡ some read_event)
    × (s₂.selector.epoll 5 ≡ none)
    × ((k : ℕ) → s₂.selector.channel_maps k ≡ none)
    × Agrees kernel s₂.selector
    × (s₂.world.connections 0 ≡ destroyed greeted)
on_established-on_destroyed_example =
    on_established-on_destroyed kernel (λ c n. ok (record c { context = some 7 }, suc n))
      (λ c bytes n. ok (c, n)) (λ c n. ok (c, n)) 0 greeted 1 alone (λ fd. refl) refl refl refl refl
      refl
