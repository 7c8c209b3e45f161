-- ===== src/Http/Request.antt =====
-- http/httpRequest.h and http/httpRequest.cpp: `class HttpRequest`. `toString` only logs.
use budd.Common.{
  ℕ, ◌+◌, ◌-◌, ◌*◌, ◌%◌, ◌^◌, Bool, true, false, ◌&&◌, ◌||◌, Option, some, [], ◌∷◌, leb, ◌==◌,
  if◌then◌else◌, Bytes, codes, equal,
}
use budd.Outcome.{Outcome, ok, err, ◌>>=◌, ◌>>◌, demand, invalid_argument, out_of_range}
use budd.Http.Dict.{Dict, lookup, assign}
use budd.Http.Parameter.{HttpMethod, get, post, put, delete, head}

pub record HttpRequest : Type 0 where
  pub method : HttpMethod
  pub url : Bytes
  pub path : Bytes
  pub query : Dict Bytes
  pub http_version : Bytes
  pub remote_address : Bytes
  pub headers : Dict Bytes
  pub form_body : Dict Bytes
  pub has_body : Bool

-- No constructor is declared: `m_method` and `m_hasBody` start with what the memory holds.
abbrev pub initial : HttpMethod → Bool → HttpRequest
initial method has_body = record {
  method = method;
  url = [];
  path = [];
  query = [];
  http_version = [];
  remote_address = [];
  headers = [];
  form_body = [];
  has_body = has_body;
}

-- `clear`, which leaves `m_hasBody`
unfoldable pub clear : HttpRequest → HttpRequest
clear r = record r {
  method = HttpMethod.none;
  url = [];
  path = [];
  http_version = [];
  query = [];
  headers = [];
  form_body = [];
  remote_address = [];
}

unfoldable pub set_method : Bytes → HttpRequest → Bool × HttpRequest
set_method name r =
    if equal name (codes "GET")
    then (true, record r { method = get })
    else if equal name (codes "POST")
    then (true, record r { method = post })
    else if equal name (codes "PUT")
    then (true, record r { method = put })
    else if equal name (codes "DELETE")
    then (true, record r { method = delete })
    else if equal name (codes "HEAD")
    then (true, record r { method = head })
    else (false, r)

-- `getFromBody`, `getHeader` and `getQueryParam`: the empty string for a missing key
abbrev pub value_or_empty : Option Bytes → Bytes
value_or_empty (some v) = v
value_or_empty _ = []

unfoldable pub get_from_body : Bytes → HttpRequest → Bytes
get_from_body k r = value_or_empty (lookup k r.form_body)

unfoldable pub get_header : Bytes → HttpRequest → Bytes
get_header k r = value_or_empty (lookup k r.headers)

unfoldable pub get_query_param : Bytes → HttpRequest → Bytes
get_query_param k r = value_or_empty (lookup k r.query)

abbrev pub set_url : Bytes → HttpRequest → HttpRequest
set_url uri r = record r { url = uri }

abbrev pub set_path : Bytes → HttpRequest → HttpRequest
set_path path r = record r { path = path }

abbrev pub set_http_version : Bytes → HttpRequest → HttpRequest
set_http_version version r = record r { http_version = version }

abbrev pub set_remote_address : Bytes → HttpRequest → HttpRequest
set_remote_address remote_address r = record r { remote_address = remote_address }

abbrev pub set_has_body : Bool → HttpRequest → HttpRequest
set_has_body has_body r = record r { has_body = has_body }

unfoldable pub set_form_body : Bytes → Bytes → HttpRequest → HttpRequest
set_form_body k v r = record r { form_body = assign k v r.form_body }

unfoldable pub set_query_param : Bytes → Bytes → HttpRequest → HttpRequest
set_query_param k v r = record r { query = assign k v r.query }

unfoldable pub set_header : Bytes → Bytes → HttpRequest → HttpRequest
set_header k v r = record r { headers = assign k v r.headers }

unfoldable pub content_type : HttpRequest → Bytes
content_type = get_header (codes "Content-Type")

-- `std::stoi`: white space, a sign, digits, and whatever follows. The result is the sign (true
-- for a minus) and the magnitude.
abbrev is_space : ℕ → Bool
is_space c = c == b' ' || (leb 9 c && leb c 13)

abbrev is_digit : ℕ → Bool
is_digit c = leb b'0' c && leb c b'9'

unfoldable pub skip_space : Bytes → Bytes
skip_space [] = []
skip_space (c ∷ cs) = if is_space c then skip_space cs else c ∷ cs

-- The value of the leading digits, behind digits of value `acc`.
unfoldable pub digits_value : ℕ → Bytes → ℕ
digits_value acc [] = acc
digits_value acc (c ∷ cs) =
    let rest = digits_value (acc * 10 + (c - b'0')) cs in if is_digit c then rest else acc

unfoldable pub stoi_digits : Bool → ℕ → Bytes → Outcome (Bool × ℕ)
stoi_digits minus limit [] = err invalid_argument
stoi_digits minus limit (c ∷ cs) = do
  demand (is_digit c) invalid_argument
  demand (leb (digits_value 0 (c ∷ cs)) limit) out_of_range
  ok (minus, digits_value 0 (c ∷ cs))

unfoldable pub stoi_signed : Bytes → Outcome (Bool × ℕ)
stoi_signed [] = err invalid_argument
stoi_signed (c ∷ cs) =
    if c == b'-'
    then stoi_digits true (2 ^ 31) cs
    else if c == b'+'
    then stoi_digits false (2 ^ 31 - 1) cs
    else stoi_digits false (2 ^ 31 - 1) (c ∷ cs)

unfoldable pub stoi : Bytes → Outcome (Bool × ℕ)
stoi s = stoi_signed (skip_space s)

-- The cast of an `int` to `size_t`.
unfoldable pub to_size : Bool × ℕ → ℕ
to_size (minus, n) = if minus then (2 ^ 64 - n) % 2 ^ 64 else n

unfoldable pub content_length : HttpRequest → Outcome ℕ
content_length r =
    let text = get_header (codes "Content-Length") r in
    if equal text [] then ok 0 else (stoi text >>= λ n. ok (to_size n))
