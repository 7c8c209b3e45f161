-- ===== src/Tcp/Connection/Order.antt =====
-- Two orders of calls that `sendData` and `shutdown` do not expect.
use budd.Common.{
  ℕ, ◌+◌, ◌≤◌, ◌<◌, ◌≡◌, refl, ap, ap₂, ◌∙◌, [], ◌∷◌, ◌++◌, append-nil, append_assoc, arith, length,
  take, drop, length-drop, take_all, drop_all, Bytes, lt→ltb,
}
use budd.Outcome.{ok, err, ◌>>=◌, assertion}
use budd.Buffer.{max_size}
use budd.Buffer.Contents.{contents}
use budd.Tcp.Channel.{write_event}
use budd.Tcp.Connection.{
  TcpConnection, Write, wrote, send_data, handle_write, shutdown, shutdown_in_loop,
}
use budd.Tcp.Connection.Drain.{IsReady, handle_write-Passes, handle_write_after_shutdown}
use budd.Tcp.Connection.Stream.{send, writable, play, send_data-Splits}

module _ {X : Type 0} where
  -- If `write` takes only the first `n` bytes of a message, and the next message, which it takes
  -- whole, is sent before the write event, the rest of the first message reaches the socket
  -- behind the second. Nothing waited before, and the buffer has room for both.
  pub play_overtakes :
      (c : TcpConnection X) (first second : Bytes) (n : ℕ)
      → IsReady c
      → contents c.output_buffer ≡ []
      → n ≤ length first
      → c.output_buffer.writer_index + length first + length second ≤ max_size
      → (c' : TcpConnection X) × (play c
            (send first n ∷ send second (length second) ∷ writable (length first) ∷ [])
          ≡ ok c')
        × (c'.sent ≡ c.sent ++ (take n first ++ (second ++ drop n first)))
  unfolding play
  play_overtakes c first second n r nil inside small =
      let (c₁, e₁, s₁, r₁) = send_data-Splits c first n r inside (omega arith) (omega arith) in
      let (c₂, e₂, s₂, r₂) =
        send_data-Splits c₁ second (length second) r₁ (omega arith) (omega arith)
          (omega (arith, s₁.no_later)) in
      let (c₃, e₃, q) = handle_write-Passes c₂ r₂ (length first) in
      let waiting : contents c₂.output_buffer ≡ drop n first =
        s₂.kept
        ∙ ap₂ ◌++◌ (s₁.kept ∙ ap (λ t. t ++ drop n first) nil)
            (drop_all (length second) second (omega arith))
        ∙ append-nil (drop n first) in
      (
        c₃,
        rw (e₁, ◌>>=◌) (rw (e₂, ◌>>=◌) (rw (e₃, ◌>>=◌) refl)),
        q.told
            ∙ ap₂ ◌++◌ (s₂.told ∙ ap₂ ◌++◌ s₁.told (take_all (length second) second (omega arith)))
                (ap (take (length first)) waiting
                  ∙ take_all (length first) (drop n first) (omega (arith, length-drop n first)))
            ∙ append_assoc (c.sent ++ take n first) second (drop n first)
            ∙ append_assoc c.sent (take n first) (second ++ drop n first),
      )

  -- If `shutdown` follows a `sendData` of which bytes wait, the write event is still asked for,
  -- and its handler fails its assertion: what waits is never sent. The connection was ready, and
  -- the buffer has room.
  pub shutdown_while_waiting :
      (c : TcpConnection X) (bytes : Bytes) (n : ℕ) (w : Write)
      → IsReady c
      → n < length bytes
      → c.output_buffer.writer_index + length bytes ≤ max_size
      → (c' : TcpConnection X) × (send_data c bytes (wrote n) ≡ ok c')
        × ((shutdown c').events ≡ write_event)
        × (handle_write (shutdown c') w ≡ err assertion)
  unfolding shutdown shutdown_in_loop
  shutdown_while_waiting c bytes n w r less small =
      let (c₁, e, s, r₁) = send_data-Splits c bytes n r (omega arith) (omega arith) (omega arith) in
      (
        c₁,
        e,
        rw r₁.up (s.asked ∙ rw (lt→ltb n (length bytes) less) refl),
        handle_write_after_shutdown c₁ w r₁.up,
      )
