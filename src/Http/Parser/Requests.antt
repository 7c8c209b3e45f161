-- ===== src/Http/Parser/Requests.antt =====
-- Whole requests: what the loop makes of the lines of a message and of what follows them.
use budd.Common.{
  ℕ, zero, suc, ◌≤◌, ◌≡◌, ◌≢◌, refl, ap, ◌∙◌, Bool, true, false, List, [], ◌∷◌, ◌++◌, arith, length,
  length-append, Bytes, equal_iff, Lacks, Lacks-append,
}
use budd.Outcome.{Outcome, ok, err, ◌>>=◌}
use budd.Buffer.{crlf, search_in}
use budd.Http.Parameter.{post, application_form}
use budd.Http.Request.{HttpRequest, content_type, content_length, get_header}
use budd.Http.Parser.{
  HttpParseState, expect_start_line, expect_header_line, expect_body, end_headers, parse_form_body,
  finish_form_body, is_post,
}
use budd.Http.Parser.Pairs.{encode, encode_pair, IsPlain, ArePlain, parse_pairs-encode, assign_all}
use budd.Http.Parser.Message.{
  Message, method_name, version, target, start_line, header_line, print_headers, print, AreHeaders,
  IsPrintable, with_start, with_headers, received_as,
}
use budd.Http.Parser.RoundTrip.{
  method_name-Lacks, parse_start_line-start_line, parse_header_line-header_line,
  parse_header_line_end, start_line_step, header_line_step,
}
use budd.Http.Parser.Stream.{
  Stream, split_line, stream_line, stream_body, stream_round, stream_loop, stream_parse,
}

-- More rounds than are needed change nothing.
resume_mono :
    (fuel fuel' : ℕ)
    → ((s t : Stream) → stream_loop fuel s ≡ ok t → stream_loop fuel' s ≡ ok t)
    → (o : Outcome (Bool × Stream)) (t : Stream)
    → (o >>= λ (more, s). elim more [ true ↦ stream_loop fuel s | false ↦ ok s ]) ≡ ok t
    → (o >>= λ (more, s). elim more [ true ↦ stream_loop fuel' s | false ↦ ok s ]) ≡ ok t
resume_mono fuel fuel' later (ok (true, s)) t e = later s t e
resume_mono fuel fuel' later (ok (false, s)) t e = e
resume_mono fuel fuel' later (err f) t e = cc

pub stream_loop_mono :
    (fuel fuel' : ℕ) (s t : Stream)
    → fuel ≤ fuel'
    → stream_loop fuel s ≡ ok t
    → stream_loop fuel' s ≡ ok t
unfolding stream_loop
stream_loop_mono zero fuel' s t h e = cc
stream_loop_mono (suc fuel) zero s t h e = absurd (omega arith)
stream_loop_mono (suc fuel) (suc fuel') s t h e =
    resume_mono fuel fuel' (λ s t. stream_loop_mono fuel fuel' s t (omega arith))
      (stream_round s.state s) t e

version-Lacks : (newer : Bool) → Lacks b'\r' (version newer)
version-Lacks false = omega arith
version-Lacks true = omega arith

pub start_line-Lacks : (m : Message) → IsPrintable m → Lacks b'\r' (start_line m)
start_line-Lacks m p = Lacks-append b'\r' (method_name m.method) _ (method_name-Lacks m.method).1 (
  λ e. omega arith,
  Lacks-append b'\r' (target m.path m.query) _ p.target_one_line
      (λ e. omega arith, version-Lacks m.newer),
)

-- The rounds for the header lines and the empty line, in front of `fuel` others.
abbrev pub headers_fuel : List (Bytes × Bytes) → ℕ → ℕ
headers_fuel [] fuel = suc fuel
headers_fuel (h ∷ hs) fuel = suc (headers_fuel hs fuel)

module _ (rest : Bytes) (st' : HttpParseState) (r' : HttpRequest) (fuel : ℕ) where
  abbrev in_headers : List (Bytes × Bytes) → HttpRequest → Stream
  in_headers hs r = record {
    is_success = true;
    rest = print_headers hs rest;
    state = expect_header_line;
    request = r;
  }

  abbrev pub behind_headers : Stream
  behind_headers = record { is_success = true; rest = rest; state = st'; request = r' }

  headers_steps :
      (hs : List (Bytes × Bytes)) (r : HttpRequest)
      → AreHeaders hs
      → end_headers (with_headers hs r) ≡ ok (true, st', r')
      → stream_loop (headers_fuel hs fuel) (in_headers hs r) ≡ stream_loop fuel behind_headers
  headers_steps [] r h e =
      header_line_step [] rest tt r r' st' fuel true
        (parse_header_line_end expect_header_line r ∙ e)
  headers_steps ((k, v) ∷ hs) r h e =
      header_line_step (header_line (k, v)) (print_headers hs rest)
        (Lacks-append b'\r' k _ h.0.1 (λ x. omega arith, (λ x. omega arith, h.0.2))) r _
        expect_header_line (headers_fuel hs fuel) true
        (parse_header_line-header_line expect_header_line k v r h.0.0)
      ∙ headers_steps hs _ h.1 e

  -- All lines of a message.
  pub message_steps :
      (m : Message) (success : Bool) (r : HttpRequest)
      → IsPrintable m
      → end_headers (received_as m r) ≡ ok (true, st', r')
      → stream_loop (suc (headers_fuel m.headers fuel)) (record {
        is_success = success;
        rest = print m rest;
        state = expect_start_line;
        request = r;
      })
        ≡ stream_loop fuel behind_headers
  message_steps m success r p e =
      start_line_step (start_line m) (print_headers m.headers rest) (start_line-Lacks m p) r _
        expect_header_line (headers_fuel m.headers fuel) success
        (parse_start_line-start_line m expect_start_line r p)
      ∙ headers_steps m.headers (with_start m r) p.header_lines e

pub headers_fuel-le :
    (hs : List (Bytes × Bytes)) (rest : Bytes) (fuel : ℕ)
    → fuel ≤ suc (length rest)
    → headers_fuel hs fuel ≤ length (print_headers hs rest)
headers_fuel-le [] rest fuel h = omega arith
headers_fuel-le (x ∷ hs) rest fuel h = omega (
  arith,
  headers_fuel-le hs rest fuel h,
  length-append (header_line x) (crlf ++ print_headers hs rest),
)

-- The parser behind a message: what the loop makes of the rest.
pub stream_parse-print :
    (m : Message) (rest : Bytes) (st' : HttpParseState) (r r' : HttpRequest) (fuel : ℕ) (t : Stream)
    → IsPrintable m
    → end_headers (received_as m r) ≡ ok (true, st', r')
    → fuel ≤ suc (length rest)
    → stream_loop fuel (record { is_success = true; rest = rest; state = st'; request = r' }) ≡ ok t
    → stream_parse (print m rest) expect_start_line r ≡ ok t
unfolding stream_parse
stream_parse-print m rest st' r r' fuel t p e h later =
    stream_loop_mono (suc (headers_fuel m.headers fuel)) (suc (length (print m rest))) _ t
      (omega (
        arith,
        headers_fuel-le m.headers rest fuel h,
        length-append (start_line m) (crlf ++ print_headers m.headers rest),
      ))
      (message_steps rest st' r' fuel m false r p e ∙ later)

-- The three ends of the headers.
pub end_headers-no_body :
    (r : HttpRequest)
    → content_length r ≡ ok 0
    → r.has_body ≡ false
    → end_headers r ≡ ok (true, expect_start_line, r)
unfolding end_headers is_post
end_headers-no_body r e f = ground (arith, e, f)

pub end_headers-form :
    (r : HttpRequest) (n : ℕ)
    → content_length r ≡ ok (suc n)
    → r.method ≡ post
    → content_type r ≡ application_form
    → end_headers r ≡ ok (true, expect_body, record r { has_body = true })
unfolding end_headers is_post content_type get_header
end_headers-form r n e f g = ground (arith, equal_iff (content_type r) application_form)

pub end_headers-other :
    (r : HttpRequest) (n : ℕ)
    → content_length r ≡ ok (suc n)
    → content_type r ≢ application_form
    → end_headers r ≡ ok (true, expect_start_line, record r { has_body = true })
unfolding end_headers is_post content_type get_header
end_headers-other r n e g = ground (arith, equal_iff (content_type r) application_form)

-- The last rounds: nothing waits, or a form does.
pub stream_loop-empty :
    (r : HttpRequest)
    → stream_loop 1
        (record { is_success = true; rest = []; state = expect_start_line; request = r })
      ≡ ok (record { is_success = true; rest = []; state = expect_start_line; request = r })
unfolding stream_loop stream_round stream_line split_line search_in
stream_loop-empty r = refl

parse_form_body-form :
    (st : HttpParseState) (text : Bytes) (r : HttpRequest) (p : Bytes × Bytes)
    (ps : List (Bytes × Bytes))
    → text ≡ encode p ps
    → content_type r ≡ application_form
    → IsPlain p
    → ArePlain ps
    → parse_form_body st text r
      ≡ ok (
        true,
        expect_start_line,
        record r { form_body = assign_all r.form_body (p ∷ ps); has_body = false },
      )
unfolding parse_form_body finish_form_body
parse_form_body-form st [] r p [] e f g h =
    absurd (omega (arith, ap length e, length-append p.0 (b'=' ∷ p.1)))
parse_form_body-form st [] r p (q ∷ qs) e f g h =
    absurd (omega (arith, ap length e, length-append (encode_pair p) (b'&' ∷ encode q qs)))
parse_form_body-form st (c ∷ cs) r p ps e f g h = rw (
  e,
  f,
  (equal_iff application_form application_form).1 refl,
  parse_pairs-encode p ps r.form_body g h,
)

pub stream_loop-form :
    (success : Bool) (r : HttpRequest) (p : Bytes × Bytes) (ps : List (Bytes × Bytes))
    → content_type r ≡ application_form
    → IsPlain p
    → ArePlain ps
    → stream_loop 1
        (record { is_success = success; rest = encode p ps; state = expect_body; request = r })
      ≡ ok (record {
        is_success = true;
        rest = [];
        state = expect_start_line;
        request = record r { form_body = assign_all r.form_body (p ∷ ps); has_body = false };
      })
unfolding stream_loop stream_round stream_body
stream_loop-form success r p ps e g h =
    rw (parse_form_body-form expect_body (encode p ps) r p ps refl e g h)
