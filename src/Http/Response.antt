-- ===== src/Http/Response.antt =====
-- http/httpResponse.h and http/httpResponse.cpp: `class HttpResponse`.
pub mod Fill
pub mod File
use budd.Common.{
  decimal, ℕ, zero, suc, ◌+◌, ◌-◌, ◌/◌, ◌%◌, ◌^◌, Bool, true, false, Option, none, some, List, [],
  ◌∷◌, ◌++◌, ltb, ◌==◌, if◌then◌else◌, length, take, replicate, Bytes, codes,
}
use budd.Outcome.{Outcome, ok, ◌>>=◌, ◌>>◌, demand, overflow}
use budd.Buffer.{Buffer, crlf, copy_in, append_string}
use budd.Http.Dict.{Dict, assign}
use budd.Http.Parameter.{HttpResponseStatusCode, status_number, unknown}

pub record HttpResponse : Type 0 where
  pub status_code : HttpResponseStatusCode
  pub status_message : Bytes
  pub headers : Dict Bytes
  pub close : Bool
  pub body : Bytes

-- The constructor leaves `m_close` to what the memory holds.
abbrev pub initial : Bool → HttpResponse
initial close = record {
  status_code = unknown;
  status_message = [];
  headers = [];
  close = close;
  body = [];
}

abbrev pub set_status_message : Bytes → HttpResponse → HttpResponse
set_status_message status_message r = record r { status_message = status_message }

abbrev pub set_status_code : HttpResponseStatusCode → HttpResponse → HttpResponse
set_status_code code r = record r { status_code = code }

abbrev pub set_close : Bool → HttpResponse → HttpResponse
set_close on r = record r { close = on }

abbrev pub set_body : Bytes → HttpResponse → HttpResponse
set_body body r = record r { body = body }

abbrev pub need_close : HttpResponse → Bool
need_close r = r.close

unfoldable pub set_header : Bytes → Bytes → HttpResponse → HttpResponse
set_header k v r = record r { headers = assign k v r.headers }

unfoldable pub set_content_type : Bytes → HttpResponse → HttpResponse
set_content_type t r = set_header (codes "Content-Type") t r

-- `setKeepAliveLimit`, for limits that are not negative
unfoldable pub set_keep_alive_limit : ℕ → ℕ → HttpResponse → HttpResponse
set_keep_alive_limit max timeout r =
    set_header (codes "Keep-Alive")
      (codes "max=" ++ (decimal max ++ (codes ", timeout=" ++ decimal timeout))) r

-- The string that `snprintf(buf, sizeof buf, ...)` leaves in `char buf[32]`.
abbrev pub in_buf : Bytes → Bytes
in_buf s = take 31 s

abbrev pub status_start : HttpResponse → Bytes
status_start r = codes "HTTP/1.1 " ++ (decimal (status_number r.status_code) ++ codes " ")

abbrev pub length_line : HttpResponse → Bytes
length_line r = codes "Content-Length: " ++ (decimal (length r.body) ++ crlf)

-- The loop over `m_headers`.
unfoldable pub fill_headers : Buffer → List (Bytes × Bytes) → Outcome Buffer
fill_headers b [] = ok b
fill_headers b ((k, v) ∷ hs) = do
  b₁ ← append_string b k
  b₂ ← append_string b₁ (codes ": ")
  b₃ ← append_string b₂ v
  b₄ ← append_string b₃ crlf
  fill_headers b₄ hs

-- The `if` of `fillBuffer`.
unfoldable pub fill_connection : HttpResponse → Buffer → Outcome Buffer
fill_connection r b =
    if r.close
    then append_string b (codes "Connection: close\r\n")
    else (append_string b (in_buf (length_line r)) >>= λ b'.
        append_string b' (codes "Connection: Keep-Alive\r\n"))

-- `listing` is the order in which the library walks through the map.
unfoldable pub fill_buffer :
    (listing : Dict Bytes → List (Bytes × Bytes)) → HttpResponse → Buffer → Outcome Buffer
fill_buffer listing r b = do
  b₁ ← append_string b (in_buf (status_start r))
  b₂ ← append_string b₁ r.status_message
  b₃ ← append_string b₂ crlf
  b₄ ← fill_connection r b₃
  b₅ ← fill_headers b₄ (listing r.headers)
  b₆ ← append_string b₅ crlf
  append_string b₆ r.body

-- The loop of `setFile` over what the calls of `readsome` return, up to the first that returns
-- nothing. The counter is an `int`.
unfoldable pub read_chunks : Bytes → ℕ → List Bytes → Outcome Bytes
read_chunks body readed_num [] = ok body
read_chunks body readed_num (chunk ∷ chunks) = do
  body' ← copy_in body readed_num chunk (length chunk)
  demand (ltb (readed_num + length chunk) (2 ^ 31)) overflow
  read_chunks body' (readed_num + length chunk) chunks

-- `setFile`: a file that cannot be opened is `none`; of the others `tellg` gives the size, and `readsome`
-- the chunks.
unfoldable pub set_file : Option (ℕ × List Bytes) → HttpResponse → Outcome (Bool × HttpResponse)
set_file none r = ok (false, r)
set_file (some (file_size, chunks)) r = do
  body ← read_chunks (replicate file_size 0) 0 chunks
  ok (true, set_body body r)
