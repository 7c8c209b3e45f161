-- ===== src/Http/Context/Split.antt =====
-- A form of which the headers come first and the pairs with a later read.
use budd.Common.{ℕ, suc, ◌≡◌, refl, true, false, List, [], ◌∷◌, arith, Bytes}
use budd.Outcome.{ok}
use budd.Buffer.{Buffer}
use budd.Buffer.Contents.{IsValid, contents}
use budd.Http.Parameter.{post, application_form}
use budd.Http.Request.{HttpRequest, content_type, content_length, get_header, set_has_body}
use budd.Http.Parser.{expect_start_line, expect_body, parse_form_body}
use budd.Http.Parser.Message.{Message, print, IsPrintable, received_as}
use budd.Http.Parser.Pairs.{encode, IsPlain, ArePlain, assign_all}
use budd.Http.Parser.Requests.{
  stream_parse-print, end_headers-form, stream_loop-form, stream_loop_mono,
}
use budd.Http.Parser.Stream.{stream_body, stream_round, stream_loop, stream_parse}
use budd.Http.Context.{HttpContext, prase_request}
use budd.Http.Context.Receive.{prase_request-Receives}

-- With nothing of the body in reach the parser waits for it.
stream_loop-waits :
    (r : HttpRequest)
    → stream_loop 1 (record {
      is_success = true;
      rest = [];
      state = expect_body;
      request = set_has_body true r;
    })
      ≡ ok (record {
        is_success = true;
        rest = [];
        state = expect_body;
        request = set_has_body true r;
      })
unfolding stream_loop stream_round stream_body parse_form_body
stream_loop-waits r = refl

-- The context that waits for the body of a message.
abbrev pub waiting : HttpContext → Message → HttpContext
waiting c m = record c {
  request = set_has_body true (received_as m c.request);
  parser = expect_body;
}

-- The headers of a POST of a form, with nothing behind them, are taken: praseRequest succeeds without
-- the finished flag, and the context waits for the body.
pub prase_request-headers :
    (c : HttpContext) (b : Buffer) (m : Message) (n : ℕ)
    → IsValid b
    → contents b ≡ print m []
    → IsPrintable m
    → c.parser ≡ expect_start_line
    → m.method ≡ post
    → content_type (received_as m c.request) ≡ application_form
    → content_length (received_as m c.request) ≡ ok (suc n)
    → (b' : Buffer) × (prase_request c b ≡ ok (true, waiting c m, b'))
      × IsValid b'
      × (contents b' ≡ [])
prase_request-headers c b m n v text p start is_post form len =
    let r = received_as m c.request in
    prase_request-Receives c b _ v (
      rw (text, start)
        (stream_parse-print m [] expect_body c.request (set_has_body true r) 1 _ p
          (end_headers-form r n len is_post form) (omega arith) (stream_loop-waits r)))

-- The pairs of the form, when they come whole, end the request.
pub prase_request-pairs :
    (c : HttpContext) (b : Buffer) (m : Message) (q : Bytes × Bytes) (qs : List (Bytes × Bytes))
    → IsValid b
    → contents b ≡ encode q qs
    → IsPlain q
    → ArePlain qs
    → content_type (received_as m c.request) ≡ application_form
    → (b' : Buffer) × (prase_request (waiting c m) b
        ≡ ok (
          true,
          record {
            request = record (received_as m c.request) {
              form_body = assign_all c.request.form_body (q ∷ qs);
              has_body = false;
            };
            parse_finished = true;
            parser = expect_start_line;
          },
          b',
        ))
      × IsValid b'
      × (contents b' ≡ [])
unfolding stream_parse
prase_request-pairs c b m q qs v text plain plains form =
    let r = set_has_body true (received_as m c.request) in
    prase_request-Receives (waiting c m) b _ v (
      rw text (
        stream_loop_mono 1 _ _ _ (omega arith)
          (stream_loop-form false r q qs (unfold content_type get_header in form) plain plains)))
