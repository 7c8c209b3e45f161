-- ===== src/Http/Server/Forms.antt =====
-- A POST of a form of which the headers come with one read and the pairs with the next one.
mod Tests
use budd.Common.{
  ℕ, suc, ◌+◌, ◌^◌, ◌≤◌, ◌≡◌, refl, ap, ◌∙◌, true, false, some, List, [], ◌∷◌, ◌++◌, arith, length,
  take, drop, Bytes, codes,
}
use budd.Outcome.{Outcome, ok, ◌>>=◌}
use budd.Buffer.{Buffer}
use budd.Buffer.Contents.{IsValid, contents}
use budd.Http.Dict.{Dict}
use budd.Http.Parameter.{post, application_form}
use budd.Http.Request.{HttpRequest, content_type, content_length, clear, set_has_body}
use budd.Http.Parser.{HttpParseState, expect_start_line, expect_body}
use budd.Http.Parser.Message.{Message, print, IsPrintable, received_as}
use budd.Http.Parser.Pairs.{encode, IsPlain, ArePlain, assign_all}
use budd.Http.Context.{HttpContext, prase_request}
use budd.Http.Context.Split.{waiting, prase_request-headers, prase_request-pairs}
use budd.Http.Response.{HttpResponse}
use budd.Http.Server.{
  Connection, HttpServer, HttpHandleFunc, default_response, select_func, after_parse, in_context,
  on_message, set_request_info,
}
use budd.Http.Server.Requests.{Served, on_message-finished}
use budd.Http.Server.Serve.{response_text, IsSmall}
use budd.Tcp.Connection.{Write, wrote, send_data}
use budd.Tcp.Connection.Drain.{IsReady}
use budd.Tcp.Connection.Send.{Splits}
use budd.Tcp.Connection.Stream.{send_data-Splits}

abbrev pub continue_text : Bytes
continue_text = codes "HTTP/1.1 100 Continue\r\n\r\n"

-- The request of a form.
abbrev pub posted_as : Message → List (Bytes × Bytes) → HttpRequest → HttpRequest
posted_as m pairs r = record (received_as m r) {
  form_body = assign_all r.form_body pairs;
  has_body = false;
}

module _ (listing : Dict Bytes → List (Bytes × Bytes)) where
  -- A request that is not finished, and not refused, is answered by the text that asks for the rest.
  on_message-continues :
      (c : Connection) (context : HttpContext) (request : HttpRequest) (parser : HttpParseState)
      (b : Buffer) (s : HttpServer) (client_ip : Bytes) (k : ℕ) (v : Write)
      → IsReady c
      → c.context ≡ some context
      → prase_request context c.input_buffer
        ≡ ok (true, record { request = request; parse_finished = false; parser = parser }, b)
      → k ≤ length continue_text
      → c.output_buffer.writer_index ≤ 2 ^ 61
      → (c' : Connection) × (on_message listing client_ip c s (wrote k) v ≡ ok (c', s))
        × Splits
            (record c {
              context =
                  some (record { request = request; parse_finished = false; parser = parser });
              input_buffer = b;
            })
            continue_text
            k
            c'
        × IsReady c'
  unfolding on_message in_context after_parse
  on_message-continues c context request parser b s client_ip k v ready held parsed inside room =
      let context' : HttpContext = record {
        request = request;
        parse_finished = false;
        parser = parser;
      } in
      let c₀ : Connection = record c { context = some context'; input_buffer = b } in
      let (c', e, splits, ready') =
        send_data-Splits c₀ continue_text k
          (record { valid = ready.valid; up = ready.up; asked = ready.asked }) inside (omega arith)
          (omega arith) in
      (c', rw held (rw (parsed, ◌>>=◌) (rw (e, ◌>>=◌) refl)), splits, ready')

  -- A POST of a form comes to a ready connection in two reads: first the headers, then, with the buffer b
  -- behind the second read, all of its pairs. If its path has a handler that returns a response, the first
  -- `onMessage` sends the text that asks for the rest, as `write` takes it; the second one sends the text
  -- of the response to the request with the pairs, clears the context for the next request and shuts the
  -- connection down exactly if the response asks for it. The content length is positive, the context had
  -- finished no request, and the sizes are below those of `IsSmall`.
  pub two_reads-Served :
      (c : Connection) (context : HttpContext) (m : Message) (length_less : ℕ) (q : Bytes × Bytes)
      (qs : List (Bytes × Bytes)) (b : Buffer) (s s' : HttpServer) (f : HttpHandleFunc)
      (r : HttpResponse) (client_ip : Bytes) (k n : ℕ) (v w : Write)
      → IsReady c
      → c.context ≡ some context
      → IsValid c.input_buffer
      → contents c.input_buffer ≡ print m []
      → IsValid b
      → contents b ≡ encode q qs
      → IsPrintable m
      → IsPlain q
      → ArePlain qs
      → context.parser ≡ expect_start_line
      → context.parse_finished ≡ false
      → m.method ≡ post
      → content_type (received_as m context.request) ≡ application_form
      → content_length (received_as m context.request) ≡ ok (suc length_less)
      → select_func post m.path s ≡ (some f, s')
      → f
          (posted_as m (q ∷ qs) context.request)
          (default_response (posted_as m (q ∷ qs) context.request))
        ≡ ok r
      → IsSmall listing r
      → k ≤ length continue_text
      → n ≤ length (response_text listing r)
      → c.output_buffer.writer_index ≤ 2 ^ 60
      → (c₁ : Connection) × (c₂ : Connection) × (on_message listing client_ip c s (wrote k) v
          ≡ ok (c₁, s))
        × (c₁.sent ≡ c.sent ++ take k continue_text)
        × (contents c₁.input_buffer ≡ [])
        × (on_message listing client_ip (record c₁ { input_buffer = b }) s w (wrote n)
            ≡ ok (c₂, s'))
        × Served listing c₁
            (record {
              request = clear (posted_as m (q ∷ qs) context.request);
              parse_finished = false;
              parser = expect_start_line;
            })
            r
            n
            c₂
  two_reads-Served c context m length_less q qs b s s' f r client_ip k n v w ready held valid text
        valid_b text_b p plain plains start unfinished is_post form len found handled small inside_k
        inside room =
      let (b₁, parsed, valid₁, empty₁) =
        prase_request-headers context c.input_buffer m length_less valid text p start is_post form
          len in
      let fresh : HttpContext = record context { parse_finished = false } in
      let (c₁, e, splits, ready₁) =
        on_message-continues c context (set_has_body true (received_as m context.request))
          expect_body b₁ s client_ip k v ready held
          (parsed
            ∙ ap (λ x. ok (true, record (waiting context m) { parse_finished = x }, b₁)) unfinished)
          inside_k (omega arith) in
      let (b₂, parsed₂, valid₂, empty₂) =
        prase_request-pairs fresh b m q qs valid_b text_b plain plains form in
      let (c₂, e₂, served) =
        on_message-finished listing (record c₁ { input_buffer = b }) (waiting fresh m)
          (posted_as m (q ∷ qs) context.request) expect_start_line b₂ s s' f r client_ip n w
          (record { valid = ready₁.valid; up = ready₁.up; asked = ready₁.asked })
          splits.same_context parsed₂ empty₂
          (ap (λ method. select_func method m.path s) is_post ∙ found) handled small inside
          (omega (arith, splits.no_later)) in
      (
        c₁,
        c₂,
        e,
        splits.told,
        ap contents splits.same_input ∙ empty₁,
        e₂,
        record {
          told = served.told;
          kept = served.kept;
          input_taken = served.input_taken;
          cleared = served.cleared;
          state_after = served.state_after;
        },
      )
