-- ===== src/Http/Server/Tests.antt =====
-- A server with one handler, and its theorems at concrete inputs.
use budd.Common.{
  ℕ, Option, replicate, length-replicate, digits, ◌+◌, ◌≡◌, refl, inr, false, some, [], ◌∷◌, ◌++◌,
  arith, length, Bytes, codes, equal,
}
use budd.Outcome.{Outcome, ok}
use budd.Buffer.{Buffer, extra_size, received}
use budd.Buffer.Append.{Appends}
use budd.Http.Dict.{lookup, assign}
use budd.Http.Parameter.{HttpMethod, get, not_found, get_status_message_by_code, message_in}
use budd.Http.Request.{HttpRequest, content_length, get_header, clear}
use budd.Http.Request as Request
use budd.Http.Parser.{expect_start_line}
use budd.Http.Parser.Message.{Message, print, IsPrintable, received_as}
use budd.Http.Context.{HttpContext}
use budd.Http.Context as Context
use budd.Http.Response.{HttpResponse, fill_buffer, set_header, set_keep_alive_limit}
use budd.Http.Response.Fill.{text, fill_buffer_lem}
use budd.Http.Server.{
  Connection, HttpServer, no_handlers, HttpHandleFunc, default_response, select_func, index,
  on_connection_of, on_message_of,
}
use budd.Http.Server.Serve.{IsSmall}
use budd.Http.Server.Requests.{Served}
use budd.Tcp.Channel.{read_event}
use budd.Tcp.Connection.{State, connected, failed, wrote, connect_established, handle_read}
use budd.Http.Server.Session.{IsNew, first_request-Served}
use budd.Tcp.Connection.Drain.{IsReady}

abbrev pub holding : Bytes → Buffer
holding s = record { reader_index = 8; writer_index = 8 + length s; buffer = codes "........" ++ s }

-- GET /a HTTP/1.0
abbrev pub question : Message
question = record { method = get; path = codes "/a"; query = []; newer = false; headers = [] }

pub question-IsPrintable : IsPrintable question
question-IsPrintable = record {
  known = λ e. cc;
  path_plain = ground arith;
  query_plain = tt;
  target_one_word = ground arith;
  target_one_line = ground arith;
  header_lines = tt;
}

abbrev pub new : HttpContext
new = Context.create (Request.initial HttpMethod.none false) false

abbrev pub idle : Connection
idle = record {
  state = connected;
  events = read_event;
  input_buffer = holding (print question []);
  output_buffer = holding [];
  context = some new;
  sent = [];
  write_shut = false;
  closed = false;
}

pub idle-IsReady : IsReady idle
idle-IsReady = record { valid = omega arith; up = refl; asked = inr refl }

abbrev pub answer : HttpHandleFunc
answer request response =
    ok (record response { status_code = not_found; body = codes "no"; headers = [] })

abbrev pub server : HttpServer
server = record no_handlers { handle_get_func_maps = (codes "/a", some answer) ∷ [] }

abbrev pub asked : HttpRequest
asked = received_as question (Request.initial HttpMethod.none false)

abbrev pub answered : HttpResponse
answered = record {
  status_code = not_found;
  status_message = [];
  headers = [];
  close = false;
  body = codes "no";
}

pub answered-IsSmall : IsSmall (λ d. d) answered
unfolding get_status_message_by_code message_in digits
answered-IsSmall = record {
  body_small = omega arith;
  headers_small = omega arith;
  text_small = omega arith;
  message_small = omega arith;
}

fill_buffer_lem_example :
    Appends (holding []) (text answered []) (fill_buffer (λ d. d) answered (holding []))
fill_buffer_lem_example =
    fill_buffer_lem answered (λ d. d) (holding []) (omega arith) (omega arith) (omega arith)
      (omega arith)

abbrev pub unborn : Connection
unborn = record idle {
  state = State.none;
  events = 0;
  input_buffer = holding [];
  context = Option.none;
}

unborn-IsNew : IsNew unborn
unborn-IsNew = record {
  unset = refl;
  input_valid = omega arith;
  input_empty = refl;
  input_room = omega arith;
  output_valid = omega arith;
  output_empty = refl;
  output_room = omega arith;
}

abbrev pub stack : Bytes
stack = replicate extra_size 0

abbrev callback : Connection → ℕ → HttpServer → Outcome (Connection × HttpServer)
callback = on_message_of (λ d. d) (codes "::1") failed (wrote 3)

first_request-Served_example :
    (c₁ : Connection) × (c₂ : Connection) × (connect_established
        (on_connection_of new.request false)
        callback
        (λ d s. ok (d, s))
        unborn
        server
      ≡ ok (c₁, server))
    × (handle_read
          (on_connection_of new.request false)
          callback
          (λ d s. ok (d, s))
          c₁
          stack
          (received (print question []))
          server
        ≡ ok (c₂, server))
    × Served
        (λ d. d)
        c₁
        (record {
          request = clear (received_as question new.request);
          parse_finished = false;
          parser = expect_start_line;
        })
        answered
        3
        c₂
unfolding select_func index lookup equal default_response set_keep_alive_limit set_header assign
    get_header digits get_status_message_by_code message_in content_length
first_request-Served_example =
    first_request-Served (λ d. d) new.request false (λ d s. ok (d, s)) unborn question server server
      answer answered (codes "::1") stack 3 failed unborn-IsNew refl (length-replicate extra_size 0)
      (omega arith) question-IsPrintable refl refl refl answered-IsSmall (omega arith)
