-- ===== src/Http/Tests.antt =====
-- Runs of the parser, and its theorems at concrete inputs.
use budd.Common.{◌+◌, ◌≡◌, refl, true, false, [], ◌∷◌, ◌++◌, arith, length, Bytes, codes, equal}
use budd.Outcome.{ok}
use budd.Buffer.{Buffer, crlf}
use budd.Buffer.Contents.{IsValid, contents}
use budd.Http.Dict.{lookup, assign}
use budd.Http.Parameter.{get, post, HttpMethod, application_form}
use budd.Http.Request.{
  initial, content_type, content_length, get_header, stoi, stoi_signed, stoi_digits, skip_space,
  digits_value, to_size,
}
use budd.Http.Parser.{expect_start_line, expect_header_line, parse}
use budd.Http.Parser.Message.{Message, print, start_line, IsPrintable, received_as, with_start}
use budd.Http.Parser.Refine.{Agrees, parse-Agrees}
use budd.Http.Parser.Ends.{ParseEnds, parse-ParseEnds}
use budd.Http.Parser.Stream.{stream_parse}
use budd.Http.Context.{HttpContext, create, prase_request}
use budd.Http.Context.Receive.{prase_request-print, prase_request-form}
use budd.Http.Context.Partial.{prase_request_finished_early, prase_request_two}

abbrev holding : Bytes → Buffer
holding text = record {
  reader_index = 8;
  writer_index = 8 + length text;
  buffer = 0 ∷ 0 ∷ 0 ∷ 0 ∷ 0 ∷ 0 ∷ 0 ∷ 0 ∷ text;
}

abbrev new : HttpContext
new = create (initial HttpMethod.none false) false

abbrev pair : Bytes × Bytes
pair = (codes "x", codes "1")

-- GET /a?x=1 HTTP/1.1 with one header
abbrev question : Message
question = record {
  method = get;
  path = codes "/a";
  query = pair ∷ [];
  newer = true;
  headers = (codes "Host", codes "h") ∷ [];
}

-- POST /b HTTP/1.0 with a content type and the length 3
abbrev posting : Bytes → Message
posting kind = record {
  method = post;
  path = codes "/b";
  query = [];
  newer = false;
  headers = (codes "Content-Type", kind) ∷ (codes "Content-Length", codes "3") ∷ [];
}

question-IsPrintable : IsPrintable question
question-IsPrintable = record {
  known = λ e. cc;
  path_plain = omega arith;
  query_plain = omega arith;
  target_one_word = omega arith;
  target_one_line = omega arith;
  header_lines = omega arith;
}

form-IsPrintable : IsPrintable (posting application_form)
form-IsPrintable = record {
  known = λ e. cc;
  path_plain = omega arith;
  query_plain = tt;
  target_one_word = omega arith;
  target_one_line = omega arith;
  header_lines = omega arith;
}

stoi_runs : (stoi (codes " 42x") ≡ ok (false, 42)) × (stoi (codes "-7") ≡ ok (true, 7))
unfolding stoi stoi_signed stoi_digits skip_space digits_value
stoi_runs = (refl, refl)

abbrev waiting : Buffer
waiting = holding (print question [])

parse-Agrees_example :
    Agrees
      (parse waiting expect_start_line new.request)
      (stream_parse (print question []) expect_start_line new.request)
parse-Agrees_example = parse-Agrees waiting expect_start_line new.request (omega arith)

parse-ParseEnds_example : ParseEnds waiting (parse waiting expect_start_line new.request)
parse-ParseEnds_example = parse-ParseEnds waiting expect_start_line new.request (omega arith)

prase_request-print_example :
    (b' : Buffer) × (prase_request new waiting
      ≡ ok (
        true,
        record {
          request = received_as question new.request;
          parse_finished = true;
          parser = expect_start_line;
        },
        b',
      ))
    × IsValid b'
    × (contents b' ≡ [])
unfolding content_length get_header lookup assign equal
prase_request-print_example =
    prase_request-print new waiting question (omega arith) refl question-IsPrintable refl refl refl

abbrev with_form : Buffer
with_form = holding (print (posting application_form) (codes "x=1"))

prase_request-form_example :
    (b' : Buffer) × (prase_request new with_form
      ≡ ok (
        true,
        record {
          request = record (received_as (posting application_form) new.request) {
            form_body = pair ∷ [];
            has_body = false;
          };
          parse_finished = true;
          parser = expect_start_line;
        },
        b',
      ))
    × IsValid b'
    × (contents b' ≡ [])
unfolding content_type content_length get_header stoi stoi_signed stoi_digits skip_space
    digits_value to_size lookup assign equal
prase_request-form_example =
    prase_request-form new with_form (posting application_form) 2 pair [] (omega arith) refl
      form-IsPrintable (omega arith) tt refl refl refl refl

prase_request_finished_early_example :
    (c' : HttpContext) × (b' : Buffer) × (prase_request new
        (holding (start_line question ++ (crlf ++ codes "Ho")))
      ≡ ok (true, c', b'))
    × (c'.parse_finished ≡ true)
    × (c'.request ≡ with_start question new.request)
    × (c'.parser ≡ expect_header_line)
    × (contents b' ≡ codes "Ho")
prase_request_finished_early_example =
    prase_request_finished_early new (holding (start_line question ++ (crlf ++ codes "Ho")))
      question (codes "Ho") (omega arith) refl question-IsPrintable (omega arith) refl refl

prase_request_two_example :
    (c' : HttpContext) × (b' : Buffer) × (prase_request new
        (holding (print question (print question [])))
      ≡ ok (true, c', b'))
    × (c'.parse_finished ≡ true)
    × (c'.request ≡ received_as question (received_as question new.request))
    × (contents b' ≡ [])
unfolding content_length get_header lookup assign equal
prase_request_two_example =
    prase_request_two new (holding (print question (print question []))) question question
      (omega arith) refl question-IsPrintable question-IsPrintable refl refl refl refl
