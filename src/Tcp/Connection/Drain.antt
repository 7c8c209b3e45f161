-- ===== src/Tcp/Connection/Drain.antt =====
-- `handleWrite`: how the output buffer goes to the socket when the socket has room again.
use budd.Common.{
  ℕ, ◌≤◌, ◌≡◌, refl, ap, sym, ◌∙◌, ◌⊎◌, inl, inr, [], ◌∷◌, ◌++◌, append-nil, arith, length, take,
  drop, drop_all, Bytes, ◌==◌, ==_iff, Bool-cases, true≢false,
}
use budd.Outcome.{ok, err, ◌>>=◌, assertion, demand}
use budd.Buffer.{Buffer, readable_bytes}
use budd.Buffer.Contents.{IsValid, contents, length-contents}
use budd.Buffer.Retrieve.{retrieve-Leaves}
use budd.Tcp.Channel.{has_event, read_event, write_event}
use budd.Tcp.Connection.{
  TcpConnection, connected, Write, failed, wrote, after_write, write_result, all_written,
  handle_write, shutdown, shutdown_in_loop, is_connected,
}

module _ {X : Type 0} where
  -- An open connection whose output waits for the write event, or has no output that waits.
  pub record IsReady (c : TcpConnection X) : Type 0 where
    pub valid : IsValid c.output_buffer
    pub up : c.state ≡ connected
    pub asked : (c.events ≡ write_event) ⊎ (contents c.output_buffer ≡ [])

  -- The first `n` bytes that waited have gone to the socket, and no others.
  pub record Passes (c : TcpConnection X) (n : ℕ) (c' : TcpConnection X) : Type 0 where
    pub ready : IsReady c'
    pub told : c'.sent ≡ c.sent ++ take n (contents c.output_buffer)
    pub kept : contents c'.output_buffer ≡ drop n (contents c.output_buffer)
    pub no_later : c'.output_buffer.writer_index ≤ c.output_buffer.writer_index

  module _ (c : TcpConnection X) (r : IsReady c) (n : ℕ) where
    abbrev written : Buffer → TcpConnection X
    written b = record c { sent = c.sent ++ take n (contents c.output_buffer); output_buffer = b }

    nil_of_length : (s : Bytes) → length s ≡ 0 → s ≡ []
    nil_of_length [] h = refl
    nil_of_length (x ∷ s) h = absurd (omega arith)

    still_asked :
        (b : Buffer)
        → contents b ≡ drop n (contents c.output_buffer)
        → (c.events ≡ write_event) ⊎ (contents b ≡ [])
    still_asked b left = elim r.asked [
      | inl asked ↦ inl asked
      | inr nil ↦ inr (left ∙ drop_all n (contents c.output_buffer) (omega (arith, ap length nil)))
    ]

    after_write-ok :
        (c' : TcpConnection X) × (after_write (written c.output_buffer) n ≡ ok c') × Passes c n c'
    unfolding after_write all_written
    after_write-ok =
        let (b, e, valid, left, no_later) = retrieve-Leaves c.output_buffer r.valid n in
        elim (Bool-cases (readable_bytes b == 0)) [
          | inl empty ↦ (
            record (written b) { events = read_event },
            rw (e, ◌>>=◌) (rw (empty, r.up) refl),
            record {
              ready = record {
                valid = valid;
                up = r.up;
                asked = inr (nil_of_length _ (length-contents b valid ∙ (==_iff _ _).0 empty));
              };
              told = refl;
              kept = left;
              no_later = no_later;
            },
          )
          | inr some_left ↦ (
            written b,
            rw (e, ◌>>=◌) (rw some_left refl),
            record {
              ready = record { valid = valid; up = r.up; asked = still_asked b left };
              told = refl;
              kept = left;
              no_later = no_later;
            },
          )
        ]

    idle-Passes : contents c.output_buffer ≡ [] → Passes c n (written c.output_buffer)
    idle-Passes nil = record {
      ready = record { valid = r.valid; up = r.up; asked = inr nil };
      told = refl;
      kept = sym (drop_all n (contents c.output_buffer) (omega (arith, ap length nil)) ∙ sym nil);
      no_later = omega arith;
    }

    -- A write event on a ready connection passes the first bytes that wait to the socket, as many
    -- as `write` takes, drops exactly these, and leaves a ready connection.
    pub handle_write-Passes :
        (c' : TcpConnection X) × (handle_write c (wrote n) ≡ ok c') × Passes c n c'
    unfolding handle_write write_result
    handle_write-Passes =
        let opened : demand (is_connected c.state) assertion ≡ ok tt =
          ap (λ s. demand (is_connected s) assertion) r.up in
        elim (Bool-cases (has_event c.events write_event)) [
          | inl writing ↦
              let (c', e, passes) = after_write-ok in (c', rw (opened, writing, e), passes)
          | inr quiet ↦ elim r.asked [
            | inl asked ↦
                absurd (true≢false (ap (λ m. has_event m write_event) (sym asked) ∙ quiet))
            | inr nil ↦ (written c.output_buffer, rw (opened, quiet), idle-Passes nil)
          ]
        ]

  -- A call of `write` that fails leaves what waits in the output buffer, and the connection no
  -- longer asks for the write event: nothing calls `handleWrite` again.
  pub handle_write_failed :
      (c : TcpConnection X)
      → IsReady c
      → c.events ≡ write_event
      → handle_write c failed ≡ ok (record c { events = read_event })
  unfolding handle_write write_result
  handle_write_failed c r asked =
      rw
        (
          ap (λ s. demand (is_connected s) assertion) r.up,
          ap (λ m. has_event m write_event) asked,
          append-nil c.sent,
        )
        refl

  -- A write event on a connection that was shut down fails the assertion.
  pub handle_write_after_shutdown :
      (c : TcpConnection X) (w : Write)
      → c.state ≡ connected
      → handle_write (shutdown c) w ≡ err assertion
  unfolding handle_write shutdown shutdown_in_loop
  handle_write_after_shutdown c w up = rw up refl
