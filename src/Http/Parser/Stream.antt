-- ===== src/Http/Parser/Stream.antt =====
-- The loop of `parse` with the contents of the buffer in place of the buffer: what the parser
-- does to the bytes that wait.
use budd.Common.{
  ℕ, zero, suc, ◌+◌, Bool, true, false, Option, none, some, [], ◌==◌, if◌then◌else◌, length, take,
  drop, Bytes,
}
use budd.Outcome.{Outcome, ok, err, ◌>>=◌, out_of_fuel}
use budd.Buffer.{crlf, search_in}
use budd.Http.Request.{HttpRequest}
use budd.Http.Parser.{
  HttpParseState, expect_start_line, expect_header_line, expect_body, Parsed, parse_line,
  parse_form_body,
}

pub record Stream : Type 0 where
  pub is_success : Bool
  pub rest : Bytes
  pub state : HttpParseState
  pub request : HttpRequest

-- The first line and what follows its line break.
unfoldable pub split_line : Bytes → Option (Bytes × Bytes)
split_line text =
    let n = search_in crlf text in
    if n == length text then none else some (take n text, drop (n + 2) text)

-- What a line makes of the bytes: it is taken out if it was parsed.
unfoldable pub keep_line : Bytes → Bytes → Parsed → Bool × Stream
keep_line text rest (true, st, r) =
    (true, record { is_success = true; rest = rest; state = st; request = r })
keep_line text rest (false, st, r) =
    (false, record { is_success = false; rest = text; state = st; request = r })

unfoldable pub stream_line : HttpParseState → Stream → Outcome (Bool × Stream)
stream_line st s = elim (split_line s.rest) [
  | none ↦ ok (false, s)
  | some (line, rest) ↦ parse_line st line s.request >>= λ parsed. ok (keep_line s.rest rest parsed)
]

unfoldable pub stream_body : Stream → Outcome (Bool × Stream)
stream_body s = parse_form_body expect_body s.rest s.request >>= λ (success, st, r). ok (
  false,
  record { is_success = success; rest = if success then [] else s.rest; state = st; request = r },
)

unfoldable pub stream_round : HttpParseState → Stream → Outcome (Bool × Stream)
stream_round expect_start_line s = stream_line expect_start_line s
stream_round expect_header_line s = stream_line expect_header_line s
stream_round expect_body s = stream_body s
stream_round _ s = ok (false, s)

unfoldable pub stream_loop : ℕ → Stream → Outcome Stream
stream_loop zero s = err out_of_fuel
stream_loop (suc fuel) s = stream_round s.state s >>= λ (more, s'). elim more [
  | true ↦ stream_loop fuel s'
  | false ↦ ok s'
]

unfoldable pub stream_parse : Bytes → HttpParseState → HttpRequest → Outcome Stream
stream_parse text st r =
    stream_loop (suc (length text))
      (record { is_success = false; rest = text; state = st; request = r })
