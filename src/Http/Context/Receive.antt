-- ===== src/Http/Context/Receive.antt =====
-- Requests that arrive whole: what `praseRequest` makes of them.
use budd.Common.{
  ℕ, suc, ◌≡◌, refl, ap, ◌∙◌, Bool, true, false, not, ◌&&◌, List, [], ◌∷◌, arith, Bytes,
  if◌then◌else◌,
}
use budd.Outcome.{Outcome, ok, err}
use budd.Buffer.{Buffer}
use budd.Buffer.Contents.{IsValid, contents}
use budd.Http.Parameter.{post, application_form}
use budd.Http.Request.{HttpRequest, content_type, content_length, get_header}
use budd.Http.Parser.{expect_start_line, expect_body, Progress, parse}
use budd.Http.Parser.Message.{Message, print, IsPrintable, received_as}
use budd.Http.Parser.Pairs.{encode, IsPlain, ArePlain, assign_all}
use budd.Http.Parser.Refine.{view, Agrees, parse-Agrees}
use budd.Http.Parser.Requests.{
  stream_parse-print, end_headers-no_body, end_headers-form, stream_loop-empty, stream_loop-form,
}
use budd.Http.Parser.Stream.{Stream, stream_parse}
use budd.Http.Context.{HttpContext, set_parse_finish, prase_request}

-- The context behind a run of the parser that ends with `s`.
abbrev pub after : HttpContext → Stream → HttpContext
after c s = record c {
  request = s.request;
  parser = s.state;
  parse_finished = if s.is_success && not s.request.has_body then true else c.parse_finished;
}

-- `praseRequest` returns `s.is_success`, leaves the context `after c s`, and a valid buffer that
-- holds `s.rest`.
abbrev pub Receives : HttpContext → Buffer → Stream → Type 0
Receives c b s =
    (b' : Buffer) × (prase_request c b ≡ ok (s.is_success, after c s, b'))
    × IsValid b'
    × (contents b' ≡ s.rest)

pub prase_request-Receives :
    (c : HttpContext) (b : Buffer) (s : Stream)
    → IsValid b
    → stream_parse (contents b) c.parser c.request ≡ ok s
    → Receives c b s
unfolding prase_request set_parse_finish
prase_request-Receives c b s v e =
    go (parse b c.parser c.request) refl (rw e at (parse-Agrees b c.parser c.request v))
  where
    go : (o : Outcome Progress) → parse b c.parser c.request ≡ o → Agrees o (ok s) → Receives c b s
    go (ok p) f (g, w) =
        let same : view p ≡ s = cc in
        (p.buffer, rw (f, ← same) (ground arith), w, ap (λ t. t.rest) same)
    go (err f) g h = cc

-- A request with no body that has arrived whole is received whole: `praseRequest` succeeds and
-- sets the finished flag, the request has the method, the path, the query, the version and the
-- headers that were sent, the buffer is empty, and the parser expects the next request. It holds
-- for a context whose parser stands at a start line and whose `m_hasBody` is false, if the headers
-- that the request has in the end give no content length, or 0. Query parameters and headers that the
-- request of the context already has stay, unless the message gives them anew.
pub prase_request-print :
    (c : HttpContext) (b : Buffer) (m : Message)
    → IsValid b
    → contents b ≡ print m []
    → IsPrintable m
    → c.parser ≡ expect_start_line
    → c.request.has_body ≡ false
    → content_length (received_as m c.request) ≡ ok 0
    → (b' : Buffer) × (prase_request c b
        ≡ ok (
          true,
          record {
            request = received_as m c.request;
            parse_finished = true;
            parser = expect_start_line;
          },
          b',
        ))
      × IsValid b'
      × (contents b' ≡ [])
prase_request-print c b m v text p start no_body none =
    let r = received_as m c.request in
    let s : Stream = record {
      is_success = true;
      rest = [];
      state = expect_start_line;
      request = r;
    } in
    let (b', e, w, t) = prase_request-Receives c b s v (
      rw (text, start)
        (stream_parse-print m [] expect_start_line c.request r 1 s p
          (end_headers-no_body r none no_body) (omega arith) (stream_loop-empty r))) in
    (b', e ∙ ap (finished r b') no_body, w, t)
  where
    -- The result, by the flag that is tested.
    finished : HttpRequest → Buffer → Bool → Outcome (Bool × HttpContext × Buffer)
    finished r b' has_body = ok (
      true,
      record {
        request = r;
        parse_finished = if not has_body then true else c.parse_finished;
        parser = expect_start_line;
      },
      b',
    )

-- A POST of a form that has arrived whole is received whole: as above, and every pair of the form is
-- assigned, over the form that the request of the context already has; `m_hasBody` is false again. It
-- holds for a context whose parser stands at a start line, if the headers that the request has in the
-- end give a positive content length and exactly the content type of a form, and if the pairs are
-- plain.
pub prase_request-form :
    (c : HttpContext) (b : Buffer) (m : Message) (n : ℕ) (q : Bytes × Bytes)
    (qs : List (Bytes × Bytes))
    → IsValid b
    → contents b ≡ print m (encode q qs)
    → IsPrintable m
    → IsPlain q
    → ArePlain qs
    → c.parser ≡ expect_start_line
    → m.method ≡ post
    → content_type (received_as m c.request) ≡ application_form
    → content_length (received_as m c.request) ≡ ok (suc n)
    → (b' : Buffer) × (prase_request c b
        ≡ ok (
          true,
          record {
            request = record (received_as m c.request) {
              form_body = assign_all c.request.form_body (q ∷ qs);
              has_body = false;
            };
            parse_finished = true;
            parser = expect_start_line;
          },
          b',
        ))
      × IsValid b'
      × (contents b' ≡ [])
prase_request-form c b m n q qs v text p plain plains start is_post form len =
    let r = received_as m c.request in
    prase_request-Receives c b _ v (
      rw (text, start)
        (stream_parse-print m (encode q qs) expect_body c.request (record r { has_body = true }) 1 _
          p (end_headers-form r n len is_post form) (omega arith)
          (stream_loop-form true (record r { has_body = true }) q qs
            (unfold content_type get_header in form) plain plains)))
