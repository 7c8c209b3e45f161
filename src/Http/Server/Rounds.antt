-- ===== src/Http/Server/Rounds.antt =====
-- A round of the loop of a connection in which a whole request comes.
mod Tests
use budd.Common.{ℕ, ◌^◌, ◌≤◌, ◌≡◌, ◌∙◌, Bool, false, some, List, [], ◌∷◌, arith, length, Bytes}
use budd.Outcome.{Outcome, ok}
use budd.Buffer.{extra_size, received}
use budd.Buffer.Contents.{IsValid, contents}
use budd.Http.Dict.{Dict}
use budd.Http.Request.{HttpRequest, content_length, clear}
use budd.Http.Parser.{expect_start_line}
use budd.Http.Parser.Message.{Message, print, IsPrintable, received_as}
use budd.Http.Context.{HttpContext}
use budd.Http.Response.{HttpResponse}
use budd.Http.Server.{
  Connection, HttpServer, HttpHandleFunc, default_response, select_func, on_connection_of,
  on_message_of,
}
use budd.Http.Server.Requests.{Served, on_message-Served}
use budd.Http.Server.Serve.{response_text, IsSmall}
use budd.Http.Server.Session.{length-print, read_fd-new, handle_read-message}
use budd.Tcp.Channel.{Channel}
use budd.Tcp.Connection.{Write, wrote}
use budd.Tcp.Connection.Drain.{IsReady}
use budd.Tcp.Connection.Hosted.{Hosted, channel_of}
use budd.Tcp.Connection.Rounds.{Returned, round-on_read}
use budd.Tcp.EventLoop.Loop.{Loop, round}
use budd.Tcp.Selector.{Epoll, reported}
use budd.Tcp.Selector.Interest.{Agrees}

-- A connection between two requests: open, with an empty input buffer, and with the context for the next
-- request, which has no body yet.
pub record IsWaiting (c : Connection) (context : HttpContext) : Type 0 where
  pub ready : IsReady c
  pub held : c.context ≡ some context
  pub starts : context.parser ≡ expect_start_line
  pub no_body : context.request.has_body ≡ false
  pub input_valid : IsValid c.input_buffer
  pub input_empty : contents c.input_buffer ≡ []
  pub input_room : c.input_buffer.writer_index ≤ 2 ^ 61
  pub output_room : c.output_buffer.writer_index ≤ 2 ^ 61

-- A round of a loop with connections of an HTTP server: the kernel reports that the channel `p` of one of
-- them, registered with the callbacks of the constructor, is readable, a whole request with no body is
-- read at once, at most 128 KiB, and no task waits. If the connection was between two requests and the
-- method and path have a handler that returns a response, the round ends; the socket is told the text of
-- the response as far as `write` takes it, the rest waits, the context is cleared, and the connection is
-- shut down exactly if the response asks for it. The other connections are as they were, and the kernel
-- is asked for the events that the connection wants. The sizes are below those of `IsSmall`.
pub round-Served :
    {E K : Type 0} (ep : Epoll E) (listing : Dict Bytes → List (Bytes × Bytes))
    (memory : HttpRequest) (finished : Bool)
    (close_callback : Connection → HttpServer → Outcome (Connection × HttpServer))
    (call : K
      → Loop E K (Hosted HttpContext HttpServer)
      → Outcome (Loop E K (Hosted HttpContext HttpServer)))
    (callbacks : ℕ → Channel (Loop E K (Hosted HttpContext HttpServer))) (fd p : ℕ)
    (client_ip extra : Bytes) (n : ℕ) (w v : Write) (m : Message) (context : HttpContext)
    (f : HttpHandleFunc) (r : HttpResponse) (h : HttpServer)
    (s : Loop E K (Hosted HttpContext HttpServer))
    → Agrees ep s.selector
    → s.selector.channel_maps fd ≡ some p
    → s.event_loop.task_q ≡ []
    → callbacks p
      ≡ channel_of ep
          (on_connection_of memory finished)
          (on_message_of listing client_ip w (wrote n))
          close_callback
          p
          fd
          extra
          (received (print m []))
          v
    → IsWaiting (s.world.connections p) context
    → length extra ≡ extra_size
    → length (print m []) ≤ extra_size
    → IsPrintable m
    → content_length (received_as m context.request) ≡ ok 0
    → select_func m.method m.path s.world.rest ≡ (some f, h)
    → f (received_as m context.request) (default_response (received_as m context.request)) ≡ ok r
    → IsSmall listing r
    → n ≤ length (response_text listing r)
    → (c : Connection) × (s' : Loop E K (Hosted HttpContext HttpServer)) × (round call callbacks
          (reported ((fd, 1) ∷ []))
          s
        ≡ ok s')
      × Returned ep p fd c h s s'
      × Served listing
          (s.world.connections p)
          (record {
            request = clear (received_as m context.request);
            parse_finished = false;
            parser = expect_start_line;
          })
          r
          n
          c
round-Served ep listing memory finished close call callbacks fd p client_ip extra n w v m context f
      r h s agrees own none_wait registers waiting size small printable no_length found handled
      short inside =
    let c = s.world.connections p in
    let on_connection = on_connection_of memory finished in
    let on_message = on_message_of listing client_ip w (wrote n) in
    let (b, got, valid, held) =
      read_fd-new c.input_buffer extra (print m []) waiting.input_valid waiting.input_empty
        waiting.input_room size small in
    let ready : IsReady (record c { input_buffer = b }) = record {
      valid = waiting.ready.valid;
      up = waiting.ready.up;
      asked = waiting.ready.asked;
    } in
    let (c', answered, served) =
      on_message-Served listing (record c { input_buffer = b }) context m s.world.rest h f r
        client_ip n w ready waiting.held valid held printable waiting.starts waiting.no_body
        no_length found handled short inside waiting.output_room in
    let (s', ended, returned) =
      round-on_read ep on_connection on_message close call callbacks fd p extra
        (received (print m [])) v c' h s agrees own none_wait registers
        (handle_read-message memory finished on_message close c s.world.rest extra (print m []) b
            got (length-print m) (omega arith)
          ∙ answered) in
    (
      c',
      s',
      ended,
      returned,
      record {
        told = served.told;
        kept = served.kept;
        input_taken = served.input_taken;
        cleared = served.cleared;
        state_after = served.state_after;
      },
    )
