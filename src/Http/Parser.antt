-- ===== src/Http/Parser.antt =====
-- http/httpParser.h and http/httpParser.cpp: `class HttpParser`, whose only field is `m_state`.
-- A range of the buffer is the string of its bytes. A loop has fuel; that it is enough is proved.
pub mod Stream
pub mod Refine
pub mod Pairs
pub mod Ends
pub mod Message
pub mod RoundTrip
pub mod Requests
use budd.Common.{
  ℕ, zero, suc, ◌+◌, ◌-◌, Bool, true, false, not, ◌&&◌, ◌||◌, Option, none, some, List, [], ◌∷◌,
  ltb, leb, ◌==◌, if◌then◌else◌, length, take, drop, slice, Bytes, codes, equal, find,
}
use budd.Outcome.{Outcome, ok, err, ◌>>=◌, ◌>>◌, demand, length_error, out_of_fuel}
use budd.Buffer.{Buffer, find_crlf, retrieve_until, retrieve_all, readable_bytes}
use budd.Http.Dict.{Dict, assign}
use budd.Http.Parameter.{HttpMethod, post, application_form}
use budd.Http.Request.{
  set_url, set_path, set_http_version, set_has_body, HttpRequest, set_method, set_header,
  content_type, content_length,
}

pub data HttpParseState : Type 0 where
  expect_start_line expect_header_line expect_body invalid finish : HttpParseState

-- What a parsing function returns, with the state and the request that it leaves.
abbrev pub Parsed : Type 0
Parsed = Bool × HttpParseState × HttpRequest

-- The loop of `parseQueryParam` and of `parseFormBody`: `isSuccess`, the range that is left and
-- the map that the pairs go to.
unfoldable pub pairs_loop : ℕ → Bytes → Dict Bytes → Outcome (Bool × Bytes × Dict Bytes)
pairs_loop zero start d = err out_of_fuel
pairs_loop (suc fuel) start d =
    let et = find b'&' start in
    let pair = take et start in
    let eq = find b'=' pair in
    let rest =
      pairs_loop fuel (drop (suc et) start) (assign (take eq pair) (drop (suc eq) pair) d) in
    if et == length start
    then ok (true, start, d)
    else if eq == length pair
    then ok (false, start, d)
    else rest

-- "process last element"
unfoldable pub last_pair : Bool → Bytes → Dict Bytes → Bool × Dict Bytes
last_pair is_success start d =
    let eq = find b'=' start in
    if eq == length start
    then (false, d)
    else (is_success, assign (take eq start) (drop (suc eq) start) d)

unfoldable pub parse_pairs : Bytes → Dict Bytes → Outcome (Bool × Dict Bytes)
parse_pairs text d = do
  (is_success, start, d') ← pairs_loop (suc (length text)) text d
  ok (last_pair is_success start d')

unfoldable pub parse_query_param : Bytes → HttpRequest → Outcome (Bool × HttpRequest)
parse_query_param text r = do
  (is_success, q) ← parse_pairs text r.query
  ok (is_success, record r { query = q })

-- "2.1 process URL" and "2.2 process path and query param", on the bytes before the second space
unfoldable pub parse_target : Bytes → HttpRequest → Outcome (Bool × HttpRequest)
parse_target target r =
    let question = find b'?' target in
    let r' = set_path (take question target) (set_url target r) in
    if question == length target
    then ok (true, r')
    else parse_query_param (drop (suc question) target) r'

-- The test of the version; `text` is what stands behind the second space.
unfoldable pub parse_version : HttpParseState → Bytes → HttpRequest → Parsed
parse_version st text r =
    if length text == 8
      && equal (take 7 text) (codes "HTTP/1.")
      && (equal (drop 7 text) (codes "0") || equal (drop 7 text) (codes "1"))
    then (true, expect_header_line, set_http_version text r)
    else (false, st, r)

-- What follows the method. Without a second space `start` is `end + 1`, and the range of the
-- version has length -1.
unfoldable pub parse_after_method : HttpParseState → Bytes → HttpRequest → Outcome Parsed
parse_after_method st rest r =
    let space = find b' ' rest in
    if space == length rest
    then ok (false, st, r)
    else (parse_target (take space rest) r >>= λ (is_success, r').
        ok (if is_success then parse_version st (drop (suc space) rest) r' else (false, st, r')))

unfoldable pub parse_start_line : HttpParseState → Bytes → HttpRequest → Outcome Parsed
parse_start_line st line r =
    let space = find b' ' line in
    let (known, r') = set_method (take space line) r in
    if not (space == length line) && known
    then parse_after_method st (drop (suc space) line) r'
    else ok (false, st, if space == length line then r else r')

-- `std::string(colon + 2, end)`, which throws where the colon is the last byte
unfoldable pub header_value : Bytes → ℕ → Outcome Bytes
header_value line colon = do
  demand (leb (colon + 2) (length line)) length_error
  ok (drop (colon + 2) line)

is_post : HttpMethod → Bool
is_post post = true
is_post _ = false

-- A line with no colon, which ends the headers.
unfoldable pub end_headers : HttpRequest → Outcome Parsed
unfolding is_post
end_headers r = do
  n ← content_length r
  let r' = if ltb 0 n then set_has_body true r else r
  ok (
    true,
    (if equal (content_type r') application_form && is_post r'.method && r'.has_body
        then expect_body
        else expect_start_line),
    r',
  )

unfoldable pub parse_header_line : HttpParseState → Bytes → HttpRequest → Outcome Parsed
parse_header_line st line r =
    let colon = find b':' line in
    if colon == length line
    then end_headers r
    else (header_value line colon >>= λ v. ok (true, st, set_header (take colon line) v r))

-- The end of `parseFormBody`.
unfoldable pub finish_form_body : Bool → HttpRequest → Parsed
finish_form_body true r = (true, expect_start_line, set_has_body false r)
finish_form_body false r = (false, invalid, r)

-- What the pairs return is overwritten by `isSuccess = true`.
unfoldable pub parse_form_body : HttpParseState → Bytes → HttpRequest → Outcome Parsed
parse_form_body st [] r = ok (true, (if r.has_body then st else expect_start_line), r)
parse_form_body st text r =
    if equal (content_type r) application_form
    then (parse_pairs text r.form_body >>= λ (_, d).
        ok (finish_form_body true (record r { form_body = d })))
    else ok (finish_form_body true r)

-- The variables of the loop of `parse`.
pub record Progress : Type 0 where
  pub is_success : Bool
  pub buffer : Buffer
  pub state : HttpParseState
  pub request : HttpRequest

-- A line has been parsed: it is taken out of the buffer, or the loop ends. The flag of the result
-- is `hasNextLine`.
unfoldable pub after_line : Buffer → ℕ → Parsed → Outcome (Bool × Progress)
after_line b at (true, st, r) = do
  b' ← retrieve_until b (at + 2)
  ok (true, record { is_success = true; buffer = b'; state = st; request = r })
after_line b at (false, st, r) =
    ok (false, record { is_success = false; buffer = b; state = st; request = r })

abbrev pub parse_line : HttpParseState → Bytes → HttpRequest → Outcome Parsed
parse_line expect_start_line = parse_start_line expect_start_line
parse_line st = parse_header_line st

unfoldable pub line_round : HttpParseState → Progress → Outcome (Bool × Progress)
line_round st p = elim (find_crlf p.buffer) [
  | none ↦ ok (false, p)
  | some at ↦ parse_line st (slice p.buffer.buffer p.buffer.reader_index at) p.request >>= λ parsed.
      after_line p.buffer at parsed
]

unfoldable pub body_round : Progress → Outcome (Bool × Progress)
body_round p =
    let b = p.buffer in
    parse_form_body expect_body (slice b.buffer b.reader_index b.writer_index) p.request
    >>= λ (s, st, r). ok (
      false,
      record { is_success = s; buffer = if s then retrieve_all b else b; state = st; request = r },
    )

-- The body of the loop, by `m_state`.
unfoldable pub round_in : HttpParseState → Progress → Outcome (Bool × Progress)
round_in expect_start_line p = line_round expect_start_line p
round_in expect_header_line p = line_round expect_header_line p
round_in expect_body p = body_round p
round_in _ p = ok (false, p)

unfoldable pub parse_loop : ℕ → Progress → Outcome Progress
parse_loop zero p = err out_of_fuel
parse_loop (suc fuel) p =
    round_in p.state p >>= λ (more, p'). elim more [ true ↦ parse_loop fuel p' | false ↦ ok p' ]

-- Each round but the last takes a line break out of the buffer.
unfoldable pub parse : Buffer → HttpParseState → HttpRequest → Outcome Progress
parse b st r =
    parse_loop (suc (readable_bytes b))
      (record { is_success = false; buffer = b; state = st; request = r })
