-- ===== src/Http/Server/Session.antt =====
-- The first request of a new connection, from `connectEstablished` to the response.
use budd.Common.{
  ℕ, ◌^◌, ◌≤◌, ◌<◌, ◌≡◌, refl, ap, ◌∙◌, inl, inr, Bool, false, Option, some, List, [], ◌++◌, arith,
  length, length-append, ◌==◌, leb, lt→leb, ◌%◌, Bytes,
}
use budd.Outcome.{Outcome, ok, ◌>>=◌, ◌>>◌, demand, assertion}
use budd.Buffer.{Buffer, initial_size, crlf, extra_size, received, read_fd}
use budd.Buffer.Contents.{IsValid, contents}
use budd.Buffer.Read.{read_fd-Reads}
use budd.Http.Dict.{Dict}
use budd.Http.Request.{HttpRequest, content_length, clear}
use budd.Http.Parser.{expect_start_line}
use budd.Http.Parser.Message.{Message, print, print_headers, start_line, IsPrintable, received_as}
use budd.Http.Context.{HttpContext}
use budd.Http.Context as Context
use budd.Http.Response.{HttpResponse}
use budd.Http.Server.{
  Connection, HttpServer, HttpHandleFunc, default_response, select_func, on_connection,
  on_connection_of, on_message_of,
}
use budd.Http.Server.Requests.{Served, on_message-Served}
use budd.Http.Server.Serve.{response_text, IsSmall, create-empty}
use budd.Tcp.Channel.{read_event, empty_event}
use budd.Tcp.Connection.{
  create, State, Write, wrote, connected, is_none, connect_established, handle_read,
}
use budd.Tcp.Connection.Drain.{IsReady}

-- A connection that was just made: not yet established, and with empty buffers.
pub record IsNew (c : Connection) : Type 0 where
  pub unset : c.state ≡ State.none
  pub input_valid : IsValid c.input_buffer
  pub input_empty : contents c.input_buffer ≡ []
  pub input_room : c.input_buffer.writer_index ≤ 2 ^ 61
  pub output_valid : IsValid c.output_buffer
  pub output_empty : contents c.output_buffer ≡ []
  pub output_room : c.output_buffer.writer_index ≤ 2 ^ 61

-- The constructor makes such a connection.
pub create-IsNew : (c : Connection) × (create ≡ ok c) × IsNew c
unfolding create
create-IsNew =
    let (b, made, v, empty, at_start) = create-empty initial_size (omega arith) (omega arith) in
    let c : Connection = record {
      state = State.none;
      events = empty_event;
      input_buffer = b;
      output_buffer = b;
      context = Option.none;
      sent = [];
      write_shut = false;
      closed = false;
    } in
    (
      c,
      rw (made, ◌>>=◌) refl,
      record {
        unset = refl;
        input_valid = v;
        input_empty = empty;
        input_room = omega (arith, at_start);
        output_valid = v;
        output_empty = empty;
        output_room = omega (arith, at_start);
      },
    )

-- The connection behind `connectEstablished` with the callback of the HTTP server.
abbrev pub established : HttpRequest → Bool → Connection → Connection
established memory finished c = record c {
  state = connected;
  events = read_event;
  context = some (Context.create memory finished);
}

pub length-print : (m : Message) → 0 < length (print m [])
length-print m = omega (arith, length-append (start_line m) (crlf ++ print_headers m.headers []))

pub read_fd-new :
    (b : Buffer) (extra bytes : Bytes)
    → IsValid b
    → contents b ≡ []
    → b.writer_index ≤ 2 ^ 61
    → length extra ≡ extra_size
    → length bytes ≤ extra_size
    → (b' : Buffer) × (read_fd b 0 extra (received bytes) ≡ ok (length bytes, 0, b'))
      × IsValid b'
      × (contents b' ≡ bytes)
read_fd-new b extra bytes v empty room size small =
    elim (read_fd-Reads b 0 extra bytes v size (omega arith)) [
      | inl (b', e, v', held) ↦ (b', e, v', held ∙ ap (λ x. x ++ bytes) empty)
      | inr (e, over) ↦ absurd (omega arith)
    ]

module _ (memory : HttpRequest) (finished : Bool)
    (message_callback : Connection → ℕ → HttpServer → Outcome (Connection × HttpServer))
    (close_callback : Connection → HttpServer → Outcome (Connection × HttpServer)) where
  pub connect_established-new :
      (c : Connection) (s : HttpServer)
      → c.state ≡ State.none
      → connect_established (on_connection_of memory finished) message_callback close_callback c s
        ≡ ok (established memory finished c, s)
  unfolding connect_established on_connection
  connect_established-new c s new =
      ap (λ st. demand (is_none st) assertion >> ok (established memory finished c, s)) new

  pub handle_read-message :
      (c : Connection) (s : HttpServer) (extra bytes : Bytes) (b : Buffer)
      → read_fd c.input_buffer 0 extra (received bytes) ≡ ok (length bytes, 0, b)
      → 0 < length bytes
      → length bytes < 2 ^ 32
      → handle_read
          (on_connection_of memory finished)
          message_callback
          close_callback
          c
          extra
          (received bytes)
          s
        ≡ message_callback (record c { input_buffer = b }) (length bytes) s
  unfolding handle_read
  handle_read-message c s extra bytes b e some_bytes few =
      let n = length bytes in
      let not_over : (n == 0) ≡ false = ground arith in
      let not_negative : leb (2 ^ 63) n ≡ false = lt→leb (2 ^ 63) n (omega arith) in
      let fits : n % 2 ^ 32 ≡ n = omega arith in rw (e, not_over, not_negative, fits) refl

-- A new connection is established with the callback of the HTTP server, and then a request with no body
-- arrives whole in one read of at most 128 KiB. If its method and path have a handler that returns a
-- response, both calls end; the socket is told the text of the response as far as `write` takes it, the
-- rest waits, the input buffer is empty, the context is cleared, and the connection is shut down exactly
-- if the response asks for it. The memory of the new request is to say that there is no body, and the
-- sizes are below those of `IsSmall`.
pub first_request-Served :
    (listing : Dict Bytes → List (Bytes × Bytes)) (memory : HttpRequest) (finished : Bool)
    (close_callback : Connection → HttpServer → Outcome (Connection × HttpServer)) (c : Connection)
    (m : Message) (s s' : HttpServer) (f : HttpHandleFunc) (r : HttpResponse)
    (client_ip extra : Bytes) (n : ℕ) (w : Write)
    → IsNew c
    → memory.has_body ≡ false
    → length extra ≡ extra_size
    → length (print m []) ≤ extra_size
    → IsPrintable m
    → content_length (received_as m memory) ≡ ok 0
    → select_func m.method m.path s ≡ (some f, s')
    → f (received_as m memory) (default_response (received_as m memory)) ≡ ok r
    → IsSmall listing r
    → n ≤ length (response_text listing r)
    → (c₁ : Connection) × (c₂ : Connection) × (connect_established
          (on_connection_of memory finished)
          (on_message_of listing client_ip w (wrote n))
          close_callback
          c
          s
        ≡ ok (c₁, s))
      × (handle_read
            (on_connection_of memory finished)
            (on_message_of listing client_ip w (wrote n))
            close_callback
            c₁
            extra
            (received (print m []))
            s
          ≡ ok (c₂, s'))
      × Served listing c₁
          (record {
            request = clear (received_as m memory);
            parse_finished = false;
            parser = expect_start_line;
          })
          r
          n
          c₂
first_request-Served listing memory finished close c m s s' f r client_ip extra n w new no_body size
      small p no_length found handled short inside =
    let answer = on_message_of listing client_ip w (wrote n) in
    let c₁ = established memory finished c in
    let (b, got, v, held) =
      read_fd-new c.input_buffer extra (print m []) new.input_valid new.input_empty new.input_room
        size small in
    let ready : IsReady (record c₁ { input_buffer = b }) = record {
      valid = new.output_valid;
      up = refl;
      asked = inr new.output_empty;
    } in
    let (c₂, served, is_served) =
      on_message-Served listing (record c₁ { input_buffer = b }) (Context.create memory finished) m
        s s' f r client_ip n w ready refl v held p refl no_body no_length found handled short inside
        new.output_room in
    (
      c₁,
      c₂,
      connect_established-new memory finished answer close c s new.unset,
      handle_read-message memory finished answer close c₁ s extra (print m []) b got
            (length-print m) (omega arith)
          ∙ served,
      record {
        told = is_served.told;
        kept = is_served.kept;
        input_taken = is_served.input_taken;
        cleared = is_served.cleared;
        state_after = is_served.state_after;
      },
    )
