-- ===== src/Http/Server.antt =====
-- http/httpServer.h and http/httpServer.cpp: `class HttpServer`. The TCP server that it starts is
-- not part of the state; its connections hand their messages to `on_message`.
pub mod Handlers
pub mod Serve
pub mod Requests
pub mod Session
pub mod Rounds
pub mod Forms
pub mod Pieces
mod Tests
use budd.Common.{
  ℕ, Bool, true, false, not, ◌&&◌, ◌||◌, Option, none, some, List, [], ◌∷◌, if◌then◌else◌, Bytes,
  codes, equal,
}
use budd.Outcome.{Outcome, ok, err, ◌>>=◌, out_of_bounds}
use budd.Buffer.{Buffer, initial_size}
use budd.Buffer as Buffer
use budd.Http.Dict.{Dict, lookup, assign}
use budd.Http.Parameter.{HttpMethod, get, post, put, delete, head, get_status_message_by_code}
use budd.Http.Request.{set_remote_address, HttpRequest, get_header}
use budd.Http.Context.{get_request, is_parse_finished, HttpContext, prase_request, clear_context}
use budd.Http.Context as Context
use budd.Http.Response.{
  set_close, set_status_message, need_close, HttpResponse, initial, set_keep_alive_limit,
  fill_buffer,
}
use budd.Tcp.Connection.{
  set_context, get_context, TcpConnection, Write, is_connected, send_data, send_buffer, shutdown,
}

-- `HttpHandleFunc`: code of the user, which fills in the response or throws.
abbrev pub HttpHandleFunc : Type 0
HttpHandleFunc = HttpRequest → HttpResponse → Outcome HttpResponse

-- A map from paths to functions, of which an entry may be null.
abbrev pub HandleMap : Type 0
HandleMap = Dict (Option HttpHandleFunc)

pub record HttpServer : Type 0 where
  pub handle_get_func_maps : HandleMap
  pub handle_post_func_maps : HandleMap
  pub handle_put_func_maps : HandleMap
  pub handle_delete_func_maps : HandleMap
  pub handle_head_func_maps : HandleMap

unfoldable pub handle_func : Bytes → HttpHandleFunc → HttpMethod → HttpServer → HttpServer
handle_func path f get s = record s {
  handle_get_func_maps = assign path (some f) s.handle_get_func_maps;
}
handle_func path f head s = record s {
  handle_head_func_maps = assign path (some f) s.handle_head_func_maps;
}
handle_func path f post s = record s {
  handle_post_func_maps = assign path (some f) s.handle_post_func_maps;
}
handle_func path f put s = record s {
  handle_put_func_maps = assign path (some f) s.handle_put_func_maps;
}
handle_func path f delete s = record s {
  handle_delete_func_maps = assign path (some f) s.handle_delete_func_maps;
}
handle_func path f _ s = s

-- `map[path]`, which puts a null function where there is no entry.
unfoldable pub index : Bytes → HandleMap → Option HttpHandleFunc × HandleMap
index path d = elim (lookup path d) [ none ↦ (none, assign path none d) | some f ↦ (f, d) ]

-- The constructor: no handlers yet.
abbrev pub no_handlers : HttpServer
no_handlers = record {
  handle_get_func_maps = [];
  handle_post_func_maps = [];
  handle_put_func_maps = [];
  handle_delete_func_maps = [];
  handle_head_func_maps = [];
}

-- The `switch` of `processRequest`.
unfoldable pub select_func : HttpMethod → Bytes → HttpServer → Option HttpHandleFunc × HttpServer
select_func get path s =
    let (f, d) = index path s.handle_get_func_maps in (f, record s { handle_get_func_maps = d })
select_func head path s =
    let (f, d) = index path s.handle_head_func_maps in (f, record s { handle_head_func_maps = d })
select_func post path s =
    let (f, d) = index path s.handle_post_func_maps in (f, record s { handle_post_func_maps = d })
select_func put path s =
    let (f, d) = index path s.handle_put_func_maps in (f, record s { handle_put_func_maps = d })
select_func delete path s =
    let (f, d) = index path s.handle_delete_func_maps in
    (f, record s { handle_delete_func_maps = d })
select_func _ path s = (none, s)

-- The call of the function, unless it is null.
unfoldable pub call_func :
    Option HttpHandleFunc → HttpRequest → HttpResponse → Outcome (Bool × HttpResponse)
call_func none request response = ok (false, response)
call_func (some f) request response = f request response >>= λ r. ok (true, r)

-- `processRequest`: the result, the response and the server
unfoldable pub process_request :
    HttpRequest → HttpResponse → HttpServer → Outcome (Bool × HttpResponse × HttpServer)
process_request request response s =
    let (f, s') = select_func request.method request.path s in
    call_func f request response >>= λ (found, r). ok (found, r, s')

-- The test of the header `Connection`.
abbrev pub wants_close : HttpRequest → Bool
wants_close request =
    let connection_value = get_header (codes "Connection") request in
    equal connection_value (codes "close")
    || (equal request.http_version (codes "HTTP/1.1")
        && not (equal connection_value (codes "keep-alive")))

-- The response that the handler gets.
unfoldable pub default_response : HttpRequest → HttpResponse
default_response request =
    set_keep_alive_limit 5 120 (set_close (wants_close request) (initial false))

abbrev pub Connection : Type 0
Connection = TcpConnection HttpContext

unfoldable pub reply_not_found : Bool → Connection → Write → Outcome Connection
reply_not_found true c w = ok c
reply_not_found false c w =
    send_data c (codes "HTTP/1.1 404 NOT FOUND\r\n\r\n") w >>= λ c'. ok (shutdown c')

module _ (listing : Dict Bytes → List (Bytes × Bytes)) where
  -- The end of `onRequest`.
  unfoldable pub reply : Connection → HttpResponse → Write → Outcome Connection
  reply c r w = do
    let r' = set_status_message (get_status_message_by_code r.status_code) r
    b ← Buffer.create initial_size
    b₁ ← fill_buffer listing r' b
    (c₁, b₂) ← send_buffer c b₁ w
    ok (if need_close r' then shutdown c₁ else c₁)

  -- `w₁` is what `write` returns for the 404 text, `w₂` for the response, if they are sent.
  unfoldable pub on_request :
      Connection → HttpRequest → HttpServer → Write → Write → Outcome (Connection × HttpServer)
  on_request c request s w₁ w₂ = do
    (found, r, s') ← process_request request (default_response request) s
    c₁ ← reply_not_found found c w₁
    c₂ ← reply c₁ r w₂
    ok (c₂, s')

  -- `setRequestInfo` sets the address in a copy of the request.
  unfoldable pub set_request_info : Bytes → HttpContext → HttpContext
  set_request_info client_ip context =
      let request = set_remote_address client_ip (get_request context) in context

  -- What `onMessage` does when `praseRequest` is done. `context->clear()` is run on the context
  -- of the connection.
  unfoldable pub after_parse :
      Bool
      → HttpContext
      → Bytes
      → Connection
      → HttpServer
      → Write
      → Write
      → Outcome (Connection × HttpServer)
  after_parse false context client_ip c s w₁ w₂ =
      send_data c (codes "HTTP/1.1 400 Bad Request\r\n\r\n") w₁ >>= λ c'. ok (shutdown c', s)
  after_parse true context client_ip c s w₁ w₂ =
      if is_parse_finished context
      then (on_request c (get_request (set_request_info client_ip context)) s w₁ w₂ >>= λ (c', s').
          ok (record c' { context = some (clear_context context) }, s'))
      else (send_data c (codes "HTTP/1.1 100 Continue\r\n\r\n") w₁ >>= λ c'. ok (c', s))

  unfoldable pub in_context :
      Option HttpContext
      → Bytes
      → Connection
      → HttpServer
      → Write
      → Write
      → Outcome (Connection × HttpServer)
  in_context none client_ip c s w₁ w₂ = err out_of_bounds
  in_context (some context) client_ip c s w₁ w₂ = do
    (is_success, context', b) ← prase_request context c.input_buffer
    let c' = record c { context = some context'; input_buffer = b }
    after_parse is_success context' client_ip c' s w₁ w₂

  -- `onMessage` on the input buffer of the connection; `n` is not read. `client_ip` is the
  -- address of the connection.
  unfoldable pub on_message :
      Bytes → Connection → HttpServer → Write → Write → Outcome (Connection × HttpServer)
  on_message client_ip c s w₁ w₂ = in_context (get_context c) client_ip c s w₁ w₂

-- `onConnection`; the fields that the new context leaves to the memory are arguments.
unfoldable pub on_connection : HttpRequest → Bool → Connection → Connection
on_connection memory finished c =
    if is_connected c.state then set_context (Context.create memory finished) c else c

-- What the constructor registers with the `TcpServer`, for every connection: `onConnection`, and
-- `onMessage` with the address of the connection and with what `write` returns in it.
abbrev pub on_connection_of :
    HttpRequest → Bool → Connection → HttpServer → Outcome (Connection × HttpServer)
on_connection_of memory finished c s = ok (on_connection memory finished c, s)

abbrev pub on_message_of :
    (Dict Bytes → List (Bytes × Bytes))
    → Bytes
    → Write
    → Write
    → Connection
    → ℕ
    → HttpServer
    → Outcome (Connection × HttpServer)
on_message_of listing client_ip w₁ w₂ c n s = on_message listing client_ip c s w₁ w₂
