-- ===== src/Http/Server/Rounds/Tests.antt =====
-- A loop with one connection of the server, to which the request of the tests of the server comes.
use budd.Common.{
  ℕ, ◌≡◌, refl, false, Option, none, some, [], ◌∷◌, arith, codes, equal, digits, length-replicate,
}
use budd.Outcome.{ok}
use budd.Buffer.{extra_size, received}
use budd.Http.Dict.{lookup, assign}
use budd.Http.Parameter.{get_status_message_by_code, message_in}
use budd.Http.Request.{content_length, get_header, clear}
use budd.Http.Parser.{expect_start_line}
use budd.Http.Parser.Message.{print, received_as}
use budd.Http.Context.{HttpContext}
use budd.Http.Response.{set_header, set_keep_alive_limit}
use budd.Http.Server.{
  Connection, HttpServer, default_response, select_func, index, on_connection_of, on_message_of,
}
use budd.Http.Server.Requests.{Served}
use budd.Http.Server.Rounds.{IsWaiting, round-Served}
use budd.Http.Server.Tests.{
  holding, question, question-IsPrintable, new, idle, idle-IsReady, answer, server, answered,
  answered-IsSmall, stack,
}
use budd.Tcp.Channel.{Channel, read_event}
use budd.Tcp.Connection.{failed, wrote}
use budd.Tcp.Connection.Hosted.{Hosted, channel_of}
use budd.Tcp.Connection.Rounds.{Returned}
use budd.Tcp.EventLoop.Loop.{Loop, round}
use budd.Tcp.Selector.{put, reported}
use budd.Tcp.Selector.Sample.{kernel}
use budd.Tcp.Selector.Interest.{AgreesAt-all, AgreesAt-by, put_other, Agrees}

abbrev silent : Connection
silent = record idle { input_buffer = holding [] }

abbrev Serving : Type 0
Serving = Loop (ℕ → Option ℕ) ℕ (Hosted HttpContext HttpServer)

-- The channel 0 of the connection has the descriptor 5.
abbrev serving : Serving
serving = record {
  event_loop = record { task_q = []; calling_task = false; wakeup_count = 0 };
  selector = record {
    epoll = put 5 (some read_event) (λ fd. none);
    channel_maps = put 5 (some 0) (λ fd. none);
    channels = λ p. record { event_loop = 9; fd = 5; events = read_event; revents = 0 };
  };
  active_channel_list = [];
  looping = false;
  quit = false;
  world = record { connections = λ p. silent; rest = server };
}

serving-Agrees : Agrees kernel serving.selector
serving-Agrees =
    AgreesAt-all kernel serving.selector.channels 5 (put 5 (some 0) (λ fd. none))
      (put 5 (some read_event) (λ fd. none)) (refl, refl)
      (λ k away.
        AgreesAt-by kernel serving.selector.channels k (put_other 5 k (some 0) (λ fd. none) away)
          (put_other 5 k (some read_event) (λ fd. none) away) refl)

silent-IsWaiting : IsWaiting silent new
silent-IsWaiting = record {
  ready = record { valid = idle-IsReady.valid; up = refl; asked = idle-IsReady.asked };
  held = refl;
  starts = refl;
  no_body = refl;
  input_valid = omega arith;
  input_empty = refl;
  input_room = omega arith;
  output_room = omega arith;
}

abbrev registered_as : Channel Serving
registered_as =
    channel_of kernel (on_connection_of new.request false)
      (on_message_of (λ d. d) (codes "::1") failed (wrote 3)) (λ d s. ok (d, s)) 0 5 stack
      (received (print question [])) failed

round-Served_example :
    (c : Connection) × (s' : Serving) × (round
        (λ t s. ok s)
        (λ p. registered_as)
        (reported ((5, 1) ∷ []))
        serving
      ≡ ok s')
    × Returned kernel 0 5 c server serving s'
    × Served
        (λ d. d)
        silent
        (record {
          request = clear (received_as question new.request);
          parse_finished = false;
          parser = expect_start_line;
        })
        answered
        3
        c
unfolding select_func index lookup equal default_response set_keep_alive_limit set_header assign
    get_header digits get_status_message_by_code message_in content_length
round-Served_example =
    round-Served kernel (λ d. d) new.request false (λ d s. ok (d, s)) (λ t s. ok s)
      (λ p. registered_as) 5 0 (codes "::1") stack 3 failed failed question new answer answered
      server serving serving-Agrees refl refl refl silent-IsWaiting (length-replicate extra_size 0)
      (omega arith) question-IsPrintable refl refl refl answered-IsSmall (omega arith)
