-- ===== src/Tcp/Connection/Send.antt =====
-- `sendData`: what goes to the socket at once, and what waits in the output buffer.
use budd.Common.{
  ℕ, ◌+◌, ◌-◌, ◌≤◌, ◌<◌, ◌≡◌, refl, ap, sym, ◌∙◌, subst, ◌⊎◌, inl, inr, ◌++◌, append-nil, arith,
  length, take, drop, length-drop, take_all, drop_all, Bytes, ltb, leb, le→leb, lt→leb, lt→ltb,
  le→ltb, Bool-cases, ltb→lt, ltb→le, if◌then◌else◌,
}
use budd.Outcome.{Outcome, ok, err, ◌>>◌, demand, assertion, length_error}
use budd.Buffer.{max_size, minus_one, sub_size}
use budd.Buffer.Contents.{IsValid, contents}
use budd.Buffer.Append.{append-Appends}
use budd.Tcp.Channel.{write_event}
use budd.Tcp.Connection.{
  TcpConnection, connected, is_connected, failed, wrote, enable_write, keep_rest, send_data_in_loop,
  send_data,
}

module _ {X : Type 0} where
  -- The first `n` bytes are sent at once; the others are put behind what waits, and the write
  -- event is asked for if there are others.
  pub record Splits (c : TcpConnection X) (bytes : Bytes) (n : ℕ) (c' : TcpConnection X)
      : Type 0 where
    pub valid : IsValid c'.output_buffer
    pub told : c'.sent ≡ c.sent ++ take n bytes
    pub kept : contents c'.output_buffer ≡ contents c.output_buffer ++ drop n bytes
    pub asked : c'.events ≡ (if ltb n (length bytes) then write_event else c.events)
    pub same_state : c'.state ≡ c.state
    pub same_input : c'.input_buffer ≡ c.input_buffer
    pub same_context : c'.context ≡ c.context
    pub no_later : c'.output_buffer.writer_index ≤ c.output_buffer.writer_index + (length bytes - n)

  -- That, or the output buffer would pass its largest size.
  abbrev pub Sends : TcpConnection X → Bytes → ℕ → Outcome (TcpConnection X) → Type 0
  Sends c bytes n o =
      ((c' : TcpConnection X) × (o ≡ ok c') × Splits c bytes n c')
      ⊎ ((o ≡ err length_error) × (max_size < c.output_buffer.writer_index + (length bytes - n)))

  module _ (c : TcpConnection X) (bytes : Bytes) (v : IsValid c.output_buffer) where
    abbrev after : ℕ → TcpConnection X
    after n = record c { sent = c.sent ++ take n bytes }

    keep_rest-some :
        (n : ℕ)
        → n < length bytes
        → length bytes ≤ max_size
        → Sends c bytes n (keep_rest (after n) (drop n bytes) (length bytes - n))
    unfolding keep_rest
    keep_rest-some n h small =
        let left : length (drop n bytes) ≡ length bytes - n = length-drop n bytes in
        let rest : take (length bytes - n) (drop n bytes) ≡ drop n bytes =
          take_all _ _ (omega (arith, left)) in
        elim (append-Appends c.output_buffer (drop n bytes) (length bytes - n) v (omega arith)
          (omega (arith, left))) [
            | inl (b, e, valid, held, no_later) ↦ inl (
              enable_write (record (after n) { output_buffer = b }),
              rw (lt→ltb 0 (length bytes - n) (omega arith), e),
              record {
                valid = valid;
                told = refl;
                kept = held ∙ ap (λ s. contents c.output_buffer ++ s) rest;
                asked = rw (lt→ltb n (length bytes) h);
                same_state = refl;
                same_input = refl;
                same_context = refl;
                no_later = omega (arith, no_later, ap length rest, left);
              },
            )
            | inr (e, over) ↦ inr (
              rw (lt→ltb 0 (length bytes - n) (omega arith), e),
              omega (arith, over, ap length rest, left),
            )
          ]

    keep_rest-none :
        (n : ℕ) → n ≡ length bytes → Sends c bytes n (keep_rest (after n) (drop n bytes) 0)
    unfolding keep_rest
    keep_rest-none n h = inl (
      after n,
      refl,
      record {
        valid = v;
        told = refl;
        kept = sym (
            ap (λ s. contents c.output_buffer ++ s) (drop_all n bytes (omega arith))
            ∙ append-nil _);
        asked = rw (le→ltb n (length bytes) (omega arith));
        same_state = refl;
        same_input = refl;
        same_context = refl;
        no_later = omega arith;
      },
    )

    send_data-rest :
        (n : ℕ)
        → n ≤ length bytes
        → length bytes ≤ max_size
        → c.state ≡ connected
        → send_data c bytes (wrote n) ≡ keep_rest (after n) (drop n bytes) (length bytes - n)
    unfolding send_data send_data_in_loop
    send_data-rest n h small open_now =
        ap (λ s. if is_connected s then send_data_in_loop c bytes (wrote n) else ok c) open_now
        ∙ in_loop
      where
        remain : sub_size (length bytes) n ≡ length bytes - n
        remain = omega arith

        in_loop :
            send_data_in_loop c bytes (wrote n)
            ≡ keep_rest (after n) (drop n bytes) (length bytes - n)
        in_loop =
            ap
              (λ m. demand (leb m (length bytes)) assertion >> keep_rest (after n) (drop n bytes) m)
              remain
            ∙ rw (le→leb (length bytes - n) (length bytes) (omega arith)) refl

    -- `sendData` on a connected connection with a valid output buffer hands the first `n` bytes to
    -- the socket if `write` takes `n` of them, puts exactly the others behind what waits, asks for
    -- the write event if there are others, and keeps the buffer valid and the state; or it throws
    -- `length_error`, and only if the vector would have to pass its largest size.
    pub send_data_lem :
        (n : ℕ)
        → n ≤ length bytes
        → length bytes ≤ max_size
        → c.state ≡ connected
        → Sends c bytes n (send_data c bytes (wrote n))
    send_data_lem n h small open_now =
        rw (send_data-rest n h small open_now) (elim (Bool-cases (ltb n (length bytes))) [
          | inl some_left ↦ keep_rest-some n (ltb→lt _ _ some_left) small
          | inr none_left ↦
              let all : n ≡ length bytes = omega (arith, h, ltb→le _ _ none_left) in
              subst (λ m. Sends c bytes n (keep_rest (after n) (drop n bytes) m)) (omega arith)
                (keep_rest-none n all)
        ])

  -- If `write` fails, also because the socket has no room, `sendData` of a connected connection
  -- fails its assertion, whatever is to be sent.
  pub send_data_failed :
      (c : TcpConnection X) (bytes : Bytes)
      → c.state ≡ connected
      → length bytes ≤ max_size
      → send_data c bytes failed ≡ err assertion
  unfolding send_data send_data_in_loop
  send_data_failed c bytes open_now small =
      rw (open_now, lt→leb (sub_size (length bytes) minus_one) (length bytes) (omega arith), ◌>>◌)
