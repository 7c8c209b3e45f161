-- ===== src/Tcp/Connection/Establish.antt =====
-- `connectEstablished`: the callback of the server runs before the read event is asked for.
use budd.Common.{ℕ, ◌+◌, ◌≤◌, ◌<◌, ◌≡◌, refl, ap, ◌∙◌, inr, [], ◌++◌, arith, length, drop, Bytes}
use budd.Outcome.{Outcome, ok, ◌>>=◌, ◌>>◌}
use budd.Buffer.{max_size}
use budd.Buffer.Contents.{IsValid, contents}
use budd.Tcp.Channel.{read_event}
use budd.Tcp.Connection.{
  TcpConnection, State, connected, wrote, is_none, enable_read, connect_established, send_data,
}
use budd.Tcp.Connection.Stream.{send_data-Splits}

-- If the connection callback sends a message of which bytes wait, `connectEstablished` of a new
-- connection with an empty output buffer ends with these bytes in the buffer and with the read
-- event alone: the write event that they need is asked for no longer. The buffer has room.
pub connect_established_unasked :
    {X W : Type 0} (c : TcpConnection X) (bytes : Bytes) (n : ℕ)
    (message_callback : TcpConnection X → ℕ → W → Outcome (TcpConnection X × W))
    (close_callback : TcpConnection X → W → Outcome (TcpConnection X × W)) (w : W)
    → IsValid c.output_buffer
    → c.state ≡ State.none
    → contents c.output_buffer ≡ []
    → n < length bytes
    → c.output_buffer.writer_index + length bytes ≤ max_size
    → (c' : TcpConnection X) × (connect_established
          (λ d v. send_data d bytes (wrote n) >>= λ d'. ok (d', v))
          message_callback
          close_callback
          c
          w
        ≡ ok (c', w))
      × (contents c'.output_buffer ≡ drop n bytes)
      × (c'.events ≡ read_event)
unfolding connect_established
connect_established_unasked c bytes n message_callback close_callback w v new empty less room =
    let (c', e, s, r) =
      send_data-Splits (record c { state = connected }) bytes n
        (record { valid = v; up = refl; asked = inr empty }) (omega arith) (omega arith)
        (omega arith) in
    (
      enable_read c',
      rw (ap is_none new, ◌>>◌) (rw (e, ◌>>=◌) refl),
      s.kept ∙ ap (λ x. x ++ drop n bytes) empty,
      refl,
    )
