-- ===== src/Http/Context.antt =====
-- http/httpContext.h and http/httpContext.cpp: `class HttpContext`.
pub mod Receive
pub mod Partial
pub mod Split
use budd.Common.{Bool, true, false, not, ◌&&◌, if◌then◌else◌}
use budd.Outcome.{Outcome, ok, err, ◌>>=◌}
use budd.Buffer.{Buffer}
use budd.Http.Request.{HttpRequest, clear}
use budd.Http.Parser.{HttpParseState, expect_start_line, Progress, parse}

pub record HttpContext : Type 0 where
  pub request : HttpRequest
  pub parse_finished : Bool
  pub parser : HttpParseState

-- The constructor leaves `m_request` and `m_parseFinished` to what the memory holds.
abbrev pub create : HttpRequest → Bool → HttpContext
create r finished = record { request = r; parse_finished = finished; parser = expect_start_line }

abbrev pub get_request : HttpContext → HttpRequest
get_request c = c.request

abbrev pub is_parse_finished : HttpContext → Bool
is_parse_finished c = c.parse_finished

unfoldable pub set_parse_finish : Bool → HttpContext → HttpContext
set_parse_finish finished c = record c { parse_finished = finished }

-- `praseRequest`: the result, the context and the buffer
unfoldable pub prase_request : HttpContext → Buffer → Outcome (Bool × HttpContext × Buffer)
prase_request c b = do
  p ← parse b c.parser c.request
  let c' = record c { request = p.request; parser = p.state }
  ok (
    p.is_success,
    (if p.is_success && not p.request.has_body then set_parse_finish true c' else c'),
    p.buffer,
  )

-- `clear` leaves the parser as it is.
unfoldable pub clear_context : HttpContext → HttpContext
clear_context c = record c { parse_finished = false; request = clear c.request }
