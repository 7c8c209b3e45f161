-- ===== src/Http/Server/Requests.antt =====
-- Whole requests: what a client gets from `onRequest` and `onMessage`.
use budd.Common.{
  ℕ, ◌≤◌, ◌^◌, ◌≡◌, refl, ap, ◌∙◌, Bool, true, false, none, some, List, [], ◌++◌, arith, length,
  take, drop, Bytes, if◌then◌else◌,
}
use budd.Outcome.{ok, ◌>>=◌}
use budd.Buffer.{Buffer}
use budd.Buffer.Contents.{IsValid, contents}
use budd.Http.Dict.{Dict}
use budd.Http.Request.{HttpRequest, content_length, clear}
use budd.Http.Parser.{HttpParseState, expect_start_line}
use budd.Http.Parser.Message.{Message, print, IsPrintable, received_as}
use budd.Http.Context.{HttpContext, prase_request, clear_context}
use budd.Http.Context.Receive.{prase_request-print}
use budd.Http.Response.{HttpResponse}
use budd.Http.Server.{
  Connection, HttpServer, HttpHandleFunc, reply_not_found, default_response, select_func,
  process_request, call_func, on_request, after_parse, in_context, on_message, set_request_info,
}
use budd.Http.Server.Serve.{response_text, IsSmall, not_found_text, reply-Splits, reply-closed}
use budd.Tcp.Connection.{
  Write, wrote, connected, is_connected, disconnecting, shutdown, shutdown_in_loop,
}
use budd.Tcp.Connection.Send.{Splits}
use budd.Tcp.Connection.Drain.{IsReady}
use budd.Tcp.Connection.Stream.{send_data-Splits}

module _ (listing : Dict Bytes → List (Bytes × Bytes)) where
  -- For a request whose method and path have a handler that returns a response, `onRequest`
  -- sends the text of that response on a ready connection, as `write` takes it, shuts the
  -- connection down exactly if the response asks for it, and does not throw. Texts and buffers
  -- are to be below the sizes of `IsSmall`.
  pub on_request-found :
      (c : Connection) (request : HttpRequest) (s s' : HttpServer) (f : HttpHandleFunc)
      (r : HttpResponse) (n : ℕ) (w : Write)
      → IsReady c
      → select_func request.method request.path s ≡ (some f, s')
      → f request (default_response request) ≡ ok r
      → IsSmall listing r
      → n ≤ length (response_text listing r)
      → c.output_buffer.writer_index ≤ 2 ^ 61
      → (c' : Connection) × (on_request listing c request s w (wrote n)
          ≡ ok ((if r.close then shutdown c' else c'), s'))
        × Splits c (response_text listing r) n c'
        × IsReady c'
  unfolding on_request process_request call_func reply_not_found
  on_request-found c request s s' f r n w ready found handled small inside room =
      let (c', e, splits, ready') = reply-Splits listing c r n ready small inside room in
      (c', rw (found, handled, ◌>>=◌) (rw (e, ◌>>=◌) refl), splits, ready')

  -- For a request with no handler `onRequest` sends the 404 text, if `write` takes it whole, shuts
  -- the connection down and sends nothing more: the response that it prints all the same stays
  -- behind. The connection was ready, and the sizes are below those of `IsSmall`.
  pub on_request-missing :
      (c : Connection) (request : HttpRequest) (s s' : HttpServer) (w : Write)
      → IsReady c
      → select_func request.method request.path s ≡ (none, s')
      → IsSmall listing (default_response request)
      → c.output_buffer.writer_index ≤ 2 ^ 61
      → (c' : Connection) × (on_request listing c request s (wrote (length not_found_text)) w
          ≡ ok (shutdown c', s'))
        × Splits c not_found_text (length not_found_text) c'
  unfolding on_request process_request call_func reply_not_found shutdown shutdown_in_loop
  on_request-missing c request s s' w ready missing small room =
      let (c', e, splits, ready') =
        send_data-Splits c not_found_text (length not_found_text) ready (omega arith) (omega arith)
          (omega arith) in
      (
        c',
        rw (missing, e, ◌>>=◌)
            (rw
              (reply-closed listing (shutdown c') (default_response request) w (down c' ready')
                small)
              refl),
        splits,
      )
    where
      down : (c' : Connection) → IsReady c' → (shutdown c').state ≡ disconnecting
      down c' r = rw r.up refl

  -- What the client and the connection have after a request that was served.
  pub record Served (c : Connection) (context : HttpContext) (r : HttpResponse) (n : ℕ)
      (c' : Connection) : Type 0 where
    pub told : c'.sent ≡ c.sent ++ take n (response_text listing r)
    pub kept :
        contents c'.output_buffer ≡ contents c.output_buffer ++ drop n (response_text listing r)
    pub input_taken : contents c'.input_buffer ≡ []
    pub cleared : c'.context ≡ some context
    pub state_after : c'.state ≡ (if r.close then disconnecting else connected)

  -- The end of `onRequest` and of `onMessage` changes only the state and the context.
  finish-Served :
      (c c₀ c' : Connection) (context : HttpContext) (r : HttpResponse) (n : ℕ)
      → c₀.sent ≡ c.sent
      → c₀.output_buffer ≡ c.output_buffer
      → contents c₀.input_buffer ≡ []
      → Splits c₀ (response_text listing r) n c'
      → IsReady c'
      → Served c context r n
          (record (if r.close then shutdown c' else c') { context = some context })
  unfolding shutdown shutdown_in_loop
  finish-Served c c₀ c' context r n same_sent same_output empty s ready = record {
    told = ended_sent r.close ∙ s.told ∙ ap (λ x. x ++ take n (response_text listing r)) same_sent;
    kept =
        ap contents (ended_output r.close)
        ∙ s.kept
        ∙ ap (λ b. contents b ++ drop n (response_text listing r)) same_output;
    input_taken = ap contents (ended_input r.close ∙ s.same_input) ∙ empty;
    cleared = refl;
    state_after = ended_state r.close;
  }
    where
      up : is_connected c'.state ≡ true
      up = ap is_connected ready.up

      ended : Bool → Connection
      ended t = if t then shutdown c' else c'

      ended_sent : (t : Bool) → (ended t).sent ≡ c'.sent
      ended_sent true = rw up refl
      ended_sent false = refl

      ended_output : (t : Bool) → (ended t).output_buffer ≡ c'.output_buffer
      ended_output true = rw up refl
      ended_output false = refl

      ended_input : (t : Bool) → (ended t).input_buffer ≡ c'.input_buffer
      ended_input true = rw up refl
      ended_input false = refl

      ended_state : (t : Bool) → (ended t).state ≡ (if t then disconnecting else connected)
      ended_state true = rw up refl
      ended_state false = ready.up

  -- A request that is complete for the parser is answered, and the input buffer is empty.
  pub on_message-finished :
      (c : Connection) (context : HttpContext) (request : HttpRequest) (parser : HttpParseState)
      (b : Buffer) (s s' : HttpServer) (f : HttpHandleFunc) (r : HttpResponse) (client_ip : Bytes)
      (n : ℕ) (w : Write)
      → IsReady c
      → c.context ≡ some context
      → prase_request context c.input_buffer
        ≡ ok (true, record { request = request; parse_finished = true; parser = parser }, b)
      → contents b ≡ []
      → select_func request.method request.path s ≡ (some f, s')
      → f request (default_response request) ≡ ok r
      → IsSmall listing r
      → n ≤ length (response_text listing r)
      → c.output_buffer.writer_index ≤ 2 ^ 61
      → (c' : Connection) × (on_message listing client_ip c s w (wrote n) ≡ ok (c', s'))
        × Served c
            (record { request = clear request; parse_finished = false; parser = parser })
            r
            n
            c'
  unfolding on_message in_context after_parse set_request_info clear_context
  on_message-finished c context request parser b s s' f r client_ip n w ready held parsed empty
        found handled small inside room =
      let received : HttpContext = record {
        request = request;
        parse_finished = true;
        parser = parser;
      } in
      let c₀ : Connection = record c { context = some received; input_buffer = b } in
      let (c', e, splits, ready') =
        on_request-found c₀ request s s' f r n w
          (record { valid = ready.valid; up = ready.up; asked = ready.asked }) found handled small
          inside room in
      (
        record (if r.close then shutdown c' else c') { context = some (clear_context received) },
        rw held (rw (parsed, ◌>>=◌) (rw (e, ◌>>=◌) refl)),
        finish-Served c c₀ c' (clear_context received) r n refl refl empty splits ready',
      )

  -- A request with no body, sent whole to a ready connection whose context expects it, is
  -- answered: if its method and path have a handler that returns a response, `onMessage` sends
  -- the text of that response, as `write` takes it, empties the input buffer, clears the context
  -- for the next request and shuts the connection down exactly if the response asks for it. The
  -- sizes are below those of `IsSmall`.
  pub on_message-Served :
      (c : Connection) (context : HttpContext) (m : Message) (s s' : HttpServer)
      (f : HttpHandleFunc) (r : HttpResponse) (client_ip : Bytes) (n : ℕ) (w : Write)
      → IsReady c
      → c.context ≡ some context
      → IsValid c.input_buffer
      → contents c.input_buffer ≡ print m []
      → IsPrintable m
      → context.parser ≡ expect_start_line
      → context.request.has_body ≡ false
      → content_length (received_as m context.request) ≡ ok 0
      → select_func m.method m.path s ≡ (some f, s')
      → f (received_as m context.request) (default_response (received_as m context.request)) ≡ ok r
      → IsSmall listing r
      → n ≤ length (response_text listing r)
      → c.output_buffer.writer_index ≤ 2 ^ 61
      → (c' : Connection) × (on_message listing client_ip c s w (wrote n) ≡ ok (c', s'))
        × Served c
            (record {
              request = clear (received_as m context.request);
              parse_finished = false;
              parser = expect_start_line;
            })
            r
            n
            c'
  on_message-Served c context m s s' f r client_ip n w ready held v text p start no_body no_length
        found handled small inside room =
      let (b, parsed, valid, empty) =
        prase_request-print context c.input_buffer m v text p start no_body no_length in
      on_message-finished c context (received_as m context.request) expect_start_line b s s' f r
        client_ip n w ready held parsed empty found handled small inside room
