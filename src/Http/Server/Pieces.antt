-- ===== src/Http/Server/Pieces.antt =====
-- A request of which only a piece of a line has come.
mod Tests
use budd.Common.{
  ℕ, ◌^◌, ◌≤◌, ◌≡◌, refl, ap, ◌∙◌, false, some, List, ◌++◌, arith, length, take, drop, Bytes, codes,
  Lacks,
}
use budd.Outcome.{ok, ◌>>=◌}
use budd.Buffer.Contents.{IsValid, contents}
use budd.Http.Dict.{Dict}
use budd.Http.Context.{HttpContext}
use budd.Http.Context.Partial.{WaitsForLine, prase_request_piece_of_line}
use budd.Http.Server.{Connection, HttpServer, after_parse, in_context, on_message}
use budd.Tcp.Connection.{Write, wrote, disconnecting, is_connected, shutdown, shutdown_in_loop}
use budd.Tcp.Connection.Drain.{IsReady}
use budd.Tcp.Connection.Stream.{send_data-Splits}

abbrev pub refusal_text : Bytes
refusal_text = codes "HTTP/1.1 400 Bad Request\r\n\r\n"

-- When the bytes that have come to a ready connection hold no carriage return, so that the rest of a line
-- is still to come, and the context waits for a line, `onMessage` answers 400, as `write` takes it, and
-- shuts the connection down; the bytes and the context stay as they were.
pub piece_of_line-refused :
    (listing : Dict Bytes → List (Bytes × Bytes)) (c : Connection) (context : HttpContext)
    (s : HttpServer) (client_ip : Bytes) (k : ℕ) (v : Write)
    → IsReady c
    → c.context ≡ some context
    → IsValid c.input_buffer
    → WaitsForLine context.parser
    → Lacks b'\r' (contents c.input_buffer)
    → k ≤ length refusal_text
    → c.output_buffer.writer_index ≤ 2 ^ 61
    → (c' : Connection) × (on_message listing client_ip c s (wrote k) v ≡ ok (c', s))
      × (c'.state ≡ disconnecting)
      × (c'.sent ≡ c.sent ++ take k refusal_text)
      × (contents c'.output_buffer ≡ contents c.output_buffer ++ drop k refusal_text)
      × (contents c'.input_buffer ≡ contents c.input_buffer)
      × (c'.context ≡ some context)
unfolding on_message in_context after_parse shutdown shutdown_in_loop
piece_of_line-refused listing c context s client_ip k v ready held valid waits piece inside room =
    let (b, refused, valid', same) =
      prase_request_piece_of_line context c.input_buffer valid waits piece in
    let c₀ : Connection = record c { context = some context; input_buffer = b } in
    let (c', e, splits, ready') =
      send_data-Splits c₀ refusal_text k
        (record { valid = ready.valid; up = ready.up; asked = ready.asked }) inside (omega arith)
        (omega arith) in
    (
      shutdown_in_loop c',
      rw held (rw (refused, ◌>>=◌) (rw (e, ◌>>=◌, ap is_connected ready'.up) refl)),
      refl,
      splits.told,
      splits.kept,
      ap contents splits.same_input ∙ same,
      splits.same_context,
    )
