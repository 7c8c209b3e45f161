-- ===== src/Http/Context/Partial.antt =====
-- Requests that arrive in pieces, several at once, or malformed: what `praseRequest` makes of them.
use budd.Common.{
  ℕ, suc, ◌+◌, ◌≡◌, ◌≢◌, refl, ◌∙◌, true, false, none, [], ◌∷◌, ◌++◌, arith, length, length-append,
  leb, lt→leb, Bytes, Lacks, Lacks-append, find-append, inside_test, end_test,
}
use budd.Outcome.{Outcome, ok, err, Fault, length_error}
use budd.Buffer.{Buffer, crlf}
use budd.Buffer.Contents.{IsValid, contents}
use budd.Buffer.Crlf.{search_in-Lacks}
use budd.Http.Parameter.{application_form}
use budd.Http.Request.{HttpRequest, content_type, content_length}
use budd.Http.Parser.{
  HttpParseState, expect_start_line, expect_header_line, Progress, parse, parse_header_line,
  header_value,
}
use budd.Http.Parser.Message.{
  Message, start_line, print, IsPrintable, with_start, received_as, print_headers,
}
use budd.Http.Parser.Refine.{Agrees, parse-Agrees}
use budd.Http.Parser.Requests.{
  headers_fuel, headers_fuel-le, stream_parse-print, message_steps, end_headers-no_body,
  end_headers-other, stream_loop-empty, stream_loop_mono, start_line-Lacks,
}
use budd.Http.Parser.RoundTrip.{start_line_step, parse_start_line-start_line, split_line-line}
use budd.Http.Parser.Stream.{
  Stream, split_line, stream_line, stream_round, stream_loop, stream_parse,
}
use budd.Http.Context.{HttpContext, prase_request}
use budd.Http.Context.Receive.{after, prase_request-Receives}

-- The states in which the parser waits for a line.
abbrev pub WaitsForLine : HttpParseState → Type 0
WaitsForLine expect_start_line = Unit
WaitsForLine expect_header_line = Unit
WaitsForLine _ = ⊥

split_line-none : (text : Bytes) → Lacks b'\r' text → split_line text ≡ none
unfolding split_line
split_line-none text h = rw (search_in-Lacks text h, end_test text)

-- With no line break in reach the loop ends at once.
stream_loop-wait :
    (fuel : ℕ) (s : Stream) (st : HttpParseState)
    → s.state ≡ st
    → WaitsForLine st
    → Lacks b'\r' s.rest
    → stream_loop (suc fuel) s ≡ ok s
unfolding stream_loop stream_round stream_line
stream_loop-wait fuel s expect_start_line e w h =
    rw (e, stream_round) (rw (split_line-none s.rest h, stream_line))
stream_loop-wait fuel s expect_header_line e w h =
    rw (e, stream_round) (rw (split_line-none s.rest h, stream_line))
stream_loop-wait fuel s _ e w h = absurd w

-- A piece of a line is refused: `praseRequest` fails, though the rest of the line may still come,
-- and leaves the bytes where they are and the parser and the request as they were.
pub prase_request_piece_of_line :
    (c : HttpContext) (b : Buffer)
    → IsValid b
    → WaitsForLine c.parser
    → Lacks b'\r' (contents b)
    → (b' : Buffer) × (prase_request c b ≡ ok (false, c, b'))
      × IsValid b'
      × (contents b' ≡ contents b)
prase_request_piece_of_line c b v w h =
    let s : Stream = record {
      is_success = false;
      rest = contents b;
      state = c.parser;
      request = c.request;
    } in
    prase_request-Receives c b s v (unfold stream_parse in stream_loop-wait _ s c.parser refl w h)

stream_parse-start_line :
    (r : HttpRequest) (m : Message) (piece : Bytes) (s : Stream)
    → IsPrintable m
    → s ≡ record {
      is_success = true;
      rest = piece;
      state = expect_header_line;
      request = with_start m r;
    }
    → Lacks b'\r' piece
    → stream_parse (start_line m ++ (crlf ++ piece)) expect_start_line r ≡ ok s
unfolding stream_parse
stream_parse-start_line r m piece s p e h =
    let text = start_line m ++ (crlf ++ piece) in
    rw e (
      stream_loop_mono 2 (suc (length text)) _ _
        (omega (arith, length-append (start_line m) (crlf ++ piece)))
        (start_line_step (start_line m) piece (start_line-Lacks m p) r (with_start m r)
            expect_header_line 1 false (parse_start_line-start_line m expect_start_line r p)
          ∙ stream_loop-wait 0 _ expect_header_line refl tt h))

-- A start line with a piece of the first header, or nothing, behind it is taken for the whole
-- request: `praseRequest` succeeds and sets the finished flag, with no header in the request that
-- was not there before, while the parser still waits for header lines and the piece stays in the
-- buffer.
pub prase_request_finished_early :
    (c : HttpContext) (b : Buffer) (m : Message) (piece : Bytes)
    → IsValid b
    → contents b ≡ start_line m ++ (crlf ++ piece)
    → IsPrintable m
    → Lacks b'\r' piece
    → c.parser ≡ expect_start_line
    → c.request.has_body ≡ false
    → (c' : HttpContext) × (b' : Buffer) × (prase_request c b ≡ ok (true, c', b'))
      × (c'.parse_finished ≡ true)
      × (c'.request ≡ with_start m c.request)
      × (c'.parser ≡ expect_header_line)
      × (contents b' ≡ piece)
prase_request_finished_early c b m piece v text p h start no_body =
    let s : Stream = record {
      is_success = true;
      rest = piece;
      state = expect_header_line;
      request = with_start m c.request;
    } in
    let (b', e, valid, left) =
      prase_request-Receives c b s v
        (rw (text, start) (stream_parse-start_line c.request m piece s p refl h)) in
    (after c s, b', e, rw no_body refl, refl, refl, left)

-- A request with a body that is no form, and with a positive content length, is never finished:
-- `praseRequest` succeeds without setting the flag, and the body, here on one line, stays in the
-- buffer, where the parser expects a start line.
pub prase_request_other_body :
    (c : HttpContext) (b : Buffer) (m : Message) (n : ℕ) (body : Bytes)
    → IsValid b
    → contents b ≡ print m body
    → IsPrintable m
    → Lacks b'\r' body
    → c.parser ≡ expect_start_line
    → content_type (received_as m c.request) ≢ application_form
    → content_length (received_as m c.request) ≡ ok (suc n)
    → (c' : HttpContext) × (b' : Buffer) × (prase_request c b ≡ ok (true, c', b'))
      × (c'.parse_finished ≡ c.parse_finished)
      × (c'.parser ≡ expect_start_line)
      × (contents b' ≡ body)
prase_request_other_body c b m n body v text p h start other len =
    let r : HttpRequest = record (received_as m c.request) { has_body = true } in
    let s : Stream = record {
      is_success = true;
      rest = body;
      state = expect_start_line;
      request = r;
    } in
    let (b', e, valid, left) = prase_request-Receives c b s v (
      rw (text, start)
        (stream_parse-print m body expect_start_line c.request r 1 s p
          (end_headers-other (received_as m c.request) n len other) (omega arith)
          (stream_loop-wait 0 s expect_start_line refl tt h))) in
    (after c s, b', e, refl, refl, left)

-- Two requests with no body that arrive together become one: the flag is set once, the buffer is
-- empty, and the request has the method, path and version of the second, with the query and the
-- headers of both.
pub prase_request_two :
    (c : HttpContext) (b : Buffer) (m m' : Message)
    → IsValid b
    → contents b ≡ print m (print m' [])
    → IsPrintable m
    → IsPrintable m'
    → c.parser ≡ expect_start_line
    → c.request.has_body ≡ false
    → content_length (received_as m c.request) ≡ ok 0
    → content_length (received_as m' (received_as m c.request)) ≡ ok 0
    → (c' : HttpContext) × (b' : Buffer) × (prase_request c b ≡ ok (true, c', b'))
      × (c'.parse_finished ≡ true)
      × (c'.request ≡ received_as m' (received_as m c.request))
      × (contents b' ≡ [])
prase_request_two c b m m' v text p p' start no_body empty empty' =
    let r = received_as m c.request in
    let r' = received_as m' r in
    let fuel = suc (headers_fuel m'.headers 1) in
    let s : Stream = record {
      is_success = true;
      rest = [];
      state = expect_start_line;
      request = r';
    } in
    let (b', e, valid, left) = prase_request-Receives c b s v (
      rw (text, start)
        (stream_parse-print m (print m' []) expect_start_line c.request r fuel s p
          (end_headers-no_body r empty no_body)
          (omega (
            arith,
            headers_fuel-le m'.headers [] 1 (omega arith),
            length-append (start_line m') (crlf ++ print_headers m'.headers []),
          ))
          (message_steps [] expect_start_line r' 1 m' true r p'
              (end_headers-no_body r' empty' no_body)
            ∙ stream_loop-empty r'))) in
    (after c s, b', e, rw no_body refl, refl, left)

parse_header_line-no_value :
    (st : HttpParseState) (key : Bytes) (r : HttpRequest)
    → Lacks b':' key
    → parse_header_line st (key ++ b':' ∷ []) r ≡ err length_error
unfolding parse_header_line header_value
parse_header_line-no_value st key r h =
    let short : leb (length key + 2) (length (key ++ b':' ∷ [])) ≡ false =
      lt→leb _ _ (omega (arith, length-append key (b':' ∷ []))) in
    rw (find-append b':' key [] h, inside_test key [] b':', short)

stream_parse-err :
    (line rest : Bytes) (r : HttpRequest) (f : Fault)
    → Lacks b'\r' line
    → parse_header_line expect_header_line line r ≡ err f
    → stream_parse (line ++ (crlf ++ rest)) expect_header_line r ≡ err f
unfolding stream_parse stream_loop stream_round stream_line
stream_parse-err line rest r f h e = rw (split_line-line line rest h, stream_line) (rw e)

prase_request-err :
    (c : HttpContext) (b : Buffer) (f : Fault)
    → IsValid b
    → stream_parse (contents b) c.parser c.request ≡ err f
    → prase_request c b ≡ err f
unfolding prase_request
prase_request-err c b f v e =
    go (parse b c.parser c.request) refl (rw e at (parse-Agrees b c.parser c.request v))
  where
    go :
        (o : Outcome Progress)
        → parse b c.parser c.request ≡ o
        → Agrees o (err f)
        → prase_request c b ≡ err f
    go (ok p) h (g, w) = cc
    go (err f') h g = rw h (cc)

-- A header line that ends with its first colon ends the program: `praseRequest` throws
-- `std::length_error`.
pub prase_request_no_value :
    (c : HttpContext) (b : Buffer) (key rest : Bytes)
    → IsValid b
    → contents b ≡ (key ++ b':' ∷ []) ++ (crlf ++ rest)
    → Lacks b':' key
    → Lacks b'\r' key
    → c.parser ≡ expect_header_line
    → prase_request c b ≡ err length_error
prase_request_no_value c b key rest v text h k state = prase_request-err c b length_error v (
    rw (text, state)
      (stream_parse-err (key ++ b':' ∷ []) rest c.request length_error
        (Lacks-append b'\r' key (b':' ∷ []) k (λ e. omega arith, tt))
        (parse_header_line-no_value expect_header_line key c.request h)))
