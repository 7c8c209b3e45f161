-- ===== src/Http/Parser/Message.antt =====
-- Requests as a client sends them, and the requests that they stand for.
use budd.Common.{◌≢◌, Bool, true, false, List, [], ◌∷◌, ◌++◌, Bytes, codes, Lacks}
use budd.Buffer.{crlf}
use budd.Http.Parameter.{HttpMethod, get, post, put, delete, head}
use budd.Http.Request.{HttpRequest}
use budd.Http.Parser.Pairs.{encode, ArePlain, assign_all}

pub record Message : Type 0 where
  pub method : HttpMethod
  pub path : Bytes
  pub query : List (Bytes × Bytes)
  pub newer : Bool  -- HTTP/1.1, else HTTP/1.0
  pub headers : List (Bytes × Bytes)

abbrev pub method_name : HttpMethod → Bytes
method_name HttpMethod.none = []
method_name get = codes "GET"
method_name post = codes "POST"
method_name put = codes "PUT"
method_name delete = codes "DELETE"
method_name head = codes "HEAD"

abbrev pub version : Bool → Bytes
version false = codes "HTTP/1.0"
version true = codes "HTTP/1.1"

abbrev pub target : Bytes → List (Bytes × Bytes) → Bytes
target path [] = path
target path (q ∷ qs) = path ++ b'?' ∷ encode q qs

abbrev pub start_line : Message → Bytes
start_line m = method_name m.method ++ b' ' ∷ (target m.path m.query ++ b' ' ∷ version m.newer)

abbrev pub header_line : Bytes × Bytes → Bytes
header_line (k, v) = k ++ b':' ∷ b' ' ∷ v

-- The header lines and the empty line, in front of what follows.
abbrev pub print_headers : List (Bytes × Bytes) → Bytes → Bytes
print_headers [] rest = crlf ++ rest
print_headers (h ∷ hs) rest = header_line h ++ (crlf ++ print_headers hs rest)

abbrev pub print : Message → Bytes → Bytes
print m rest = start_line m ++ (crlf ++ print_headers m.headers rest)

-- A header that stays on its line: a key with no colon, and no carriage return.
abbrev pub AreHeaders : List (Bytes × Bytes) → Type 0
AreHeaders [] = Unit {0}
AreHeaders ((k, v) ∷ hs) = (Lacks b':' k × Lacks b'\r' k × Lacks b'\r' v) × AreHeaders hs

pub record IsPrintable (m : Message) : Type 0 where
  pub known : m.method ≢ HttpMethod.none
  pub path_plain : Lacks b'?' m.path
  pub query_plain : ArePlain m.query
  pub target_one_word : Lacks b' ' (target m.path m.query)
  pub target_one_line : Lacks b'\r' (target m.path m.query)
  pub header_lines : AreHeaders m.headers

-- The request that the start line makes of `r`, and the headers after it.
abbrev pub with_start : Message → HttpRequest → HttpRequest
with_start m r = record r {
  method = m.method;
  url = target m.path m.query;
  path = m.path;
  query = assign_all r.query m.query;
  http_version = version m.newer;
}

abbrev pub with_headers : List (Bytes × Bytes) → HttpRequest → HttpRequest
with_headers hs r = record r { headers = assign_all r.headers hs }

abbrev pub received_as : Message → HttpRequest → HttpRequest
received_as m r = with_headers m.headers (with_start m r)
