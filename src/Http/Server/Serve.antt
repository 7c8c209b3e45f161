-- ===== src/Http/Server/Serve.antt =====
-- `onRequest` and `onMessage`: what a client gets for a request.
use budd.Common.{
  ℕ, ◌+◌, ◌-◌, ◌≤◌, ◌<◌, ◌^◌, ◌≡◌, refl, ap, ◌∙◌, subst, inl, inr, Bool, true, false, List, [],
  ◌++◌, arith, length, replicate, length-replicate, Bytes, codes, if◌then◌else◌,
}
use budd.Outcome.{ok, ◌>>=◌}
use budd.Buffer.{Buffer, create, max_size, initial_size, prepend_size}
use budd.Buffer.Contents.{IsValid, contents, resize-ok}
use budd.Buffer.Retrieve.{retrieve_all_as_string-ok}
use budd.Http.Dict.{Dict}
use budd.Http.Parameter.{get_status_message_by_code}
use budd.Http.Response.{HttpResponse, fill_buffer}
use budd.Http.Response.Fill.{text, headers_text, fill_buffer_lem}
use budd.Http.Server.{Connection, reply}
use budd.Tcp.Connection.{
  TcpConnection, Write, wrote, is_connected, send_data, send_data_in_loop, send_buffer, shutdown,
  disconnecting,
}
use budd.Tcp.Connection.Send.{Splits}
use budd.Tcp.Connection.Drain.{IsReady}
use budd.Tcp.Connection.Stream.{send_data-Splits}

-- A new buffer is valid and empty.
pub create-empty :
    (n : ℕ)
    → prepend_size ≤ n
    → n ≤ max_size
    → (b : Buffer) × (create n ≡ ok b)
      × IsValid b
      × (contents b ≡ [])
      × (b.writer_index ≡ prepend_size)
unfolding create
create-empty n h k =
    let size : length {A = ℕ} (replicate (n - 0) 0) ≡ n =
      omega (arith, length-replicate {A = ℕ} (n - 0) 0) in
    (
      record {
        reader_index = prepend_size;
        writer_index = prepend_size;
        buffer = replicate (n - 0) 0;
      },
      rw (resize-ok [] n (omega arith) k) refl,
      record {
        prepend_kept = omega arith;
        ordered = omega arith;
        fits = omega (arith, size);
        small = omega (arith, size);
      },
      refl,
      refl,
    )

-- `sendData` of a buffer sends what it holds, like a string.
send_buffer-ok :
    {X : Type 0} (c : TcpConnection X) (b : Buffer) (n : ℕ)
    → IsReady c
    → IsValid b
    → n ≤ length (contents b)
    → length (contents b) ≤ max_size
    → c.output_buffer.writer_index + (length (contents b) - n) ≤ max_size
    → (c' : TcpConnection X) × (b' : Buffer) × (send_buffer c b (wrote n) ≡ ok (c', b'))
      × Splits c (contents b) n c'
      × IsReady c'
unfolding send_buffer send_data
send_buffer-ok c b n r v inside small room =
    let up : is_connected c.state ≡ true = ap is_connected r.up in
    let (c', e, s, r') = send_data-Splits c (contents b) n r inside small room in
    let (b', f, valid, empty, no_later) = retrieve_all_as_string-ok b v in
    let e' : send_data_in_loop c (contents b) (wrote n) ≡ ok c' = rw up at e in
    (c', b', rw (up, f, ◌>>=◌) (rw (e', ◌>>=◌) refl), s, r')

abbrev pub not_found_text : Bytes
not_found_text = codes "HTTP/1.1 404 NOT FOUND\r\n\r\n"

module _ (listing : Dict Bytes → List (Bytes × Bytes)) where
  abbrev pub with_message : HttpResponse → HttpResponse
  with_message r = record r { status_message = get_status_message_by_code r.status_code }

  -- The text that the client gets for the response.
  abbrev pub response_text : HttpResponse → Bytes
  response_text r = text (with_message r) (listing r.headers)

  -- A response whose text a buffer can hold, and whose lengths are printed whole.
  pub record IsSmall (r : HttpResponse) : Type 0 where
    pub body_small : length r.body < 10 ^ 13
    pub headers_small : length (headers_text (listing r.headers)) ≤ 2 ^ 62
    pub text_small : length (response_text r) ≤ 2 ^ 62
    pub message_small : length (get_status_message_by_code r.status_code) ≤ 2 ^ 62

  -- The buffer of `onRequest` holds the text of the response.
  fill-new :
      (r : HttpResponse)
      → IsSmall r
      → (b b₁ : Buffer) × (create initial_size ≡ ok b)
        × (fill_buffer listing (with_message r) b ≡ ok b₁)
        × IsValid b₁
        × (contents b₁ ≡ response_text r)
  fill-new r small =
      let (b, made, v, empty, at_start) = create-empty initial_size (omega arith) (omega arith) in
      elim (fill_buffer_lem (with_message r) listing b v small.body_small
        (omega (arith, small.message_small)) (omega (arith, small.headers_small))) [
          | inl (b₁, filled, v₁, held, grows) ↦
              (b, b₁, made, filled, v₁, held ∙ ap (λ x. x ++ response_text r) empty)
          | inr (thrown, over) ↦ absurd (omega (arith, over, at_start, small.text_small))
        ]

  pub reply-Splits :
      (c : Connection) (r : HttpResponse) (n : ℕ)
      → IsReady c
      → IsSmall r
      → n ≤ length (response_text r)
      → c.output_buffer.writer_index ≤ 2 ^ 61
      → (c' : Connection) × (reply listing c r (wrote n) ≡ ok (if r.close then shutdown c' else c'))
        × Splits c (response_text r) n c'
        × IsReady c'
  unfolding reply
  reply-Splits c r n ready small inside room =
      let (b, b₁, made, filled, v₁, all) = fill-new r small in
      let (c', b₂, e, s, ready') =
        send_buffer-ok c b₁ n ready v₁ (omega (arith, ap length all))
          (omega (arith, ap length all, small.text_small))
          (omega (arith, ap length all, small.text_small)) in
      (
        c',
        rw (made, ◌>>=◌) (rw (filled, ◌>>=◌) (rw (e, ◌>>=◌) refl)),
        subst (λ x. Splits c x n c') all s,
        ready',
      )

  -- Nothing is sent on a connection that was shut down.
  pub reply-closed :
      (c : Connection) (r : HttpResponse) (w : Write)
      → c.state ≡ disconnecting
      → IsSmall r
      → reply listing c r w ≡ ok c
  unfolding reply send_buffer shutdown
  reply-closed c r w down small =
      let (b, b₁, made, filled, v₁, all) = fill-new r small in
      rw (made, ◌>>=◌) (rw (filled, ◌>>=◌) (rw (ap is_connected down) (same r.close)))
    where
      same : (t : Bool) → ok (if t then shutdown c else c) ≡ ok c
      same true = rw (ap is_connected down) refl
      same false = refl
