-- ===== src/Tcp/Connection/Stream.antt =====
-- What a connection sends in a run of calls of `sendData` and of write events.
use mathlib.Core.List as L
use mathlib.Core.List.{Perm, perm_append_comm, perm-append_left_iff, perm-append_right_iff}
use budd.Common.{
  ℕ, ◌+◌, ◌-◌, ◌≤◌, ◌≡◌, refl, ap, ap₂, sym, ◌∙◌, subst, inl, inr, List, [], ◌∷◌, ◌++◌, append-nil,
  append_assoc, arith, length, take, drop, length-append, length-drop, take_all, drop_all,
  drop-drop, take_twice, take-append-drop, Bytes, ltb, Bool-cases, ltb→le,
}
use budd.Outcome.{Outcome, ok, ◌>>=◌}
use budd.Buffer.{max_size}
use budd.Buffer.Contents.{contents}
use budd.Tcp.Connection.{TcpConnection, wrote, send_data, handle_write}
use budd.Tcp.Connection.Send.{Splits, send_data_lem}
use budd.Tcp.Connection.Drain.{IsReady, Passes, handle_write-Passes}

-- `sendData`, at which the socket takes the first so many bytes, or a write event, likewise.
pub data Event : Type 0 where
  send : Bytes → ℕ → Event
  writable : ℕ → Event

-- The bytes that were to be sent, in order.
abbrev pub payload : List Event → Bytes
payload [] = []
payload (send bytes n ∷ es) = bytes ++ payload es
payload (writable n ∷ es) = payload es

-- `write` takes no more than it is given.
abbrev pub Possible : List Event → Type 0
Possible [] = Unit
Possible (send bytes n ∷ es) = (n ≤ length bytes) × Possible es
Possible (writable n ∷ es) = Possible es

-- Of a stream `a ++ b` that grows at both places, no byte is lost.
perm_middle_swap : (a s b t : Bytes) → Perm ((a ++ s) ++ (b ++ t)) ((a ++ b) ++ (s ++ t))
perm_middle_swap a s b t =
    rw (append_assoc a s (b ++ t), append_assoc a b (s ++ t))
      ((perm-append_left_iff a).1 (
        rw⁻¹ (append_assoc s b t, append_assoc b s t)
          ((perm-append_right_iff t).1 (perm_append_comm s b))))

-- Write events, and how much the socket takes in all of them.
abbrev pub total : List ℕ → ℕ
total [] = 0
total (n ∷ ns) = n + total ns

abbrev pub writables : List ℕ → List Event
writables [] = []
writables (n ∷ ns) = writable n ∷ writables ns

module _ {X : Type 0} where
  unfoldable pub play : TcpConnection X → List Event → Outcome (TcpConnection X)
  play c [] = ok c
  play c (send bytes n ∷ es) = send_data c bytes (wrote n) >>= λ c'. play c' es
  play c (writable n ∷ es) = handle_write c (wrote n) >>= λ c'. play c' es

  -- The bytes that went to the socket, and those that wait.
  abbrev pub stream : TcpConnection X → Bytes
  stream c = c.sent ++ contents c.output_buffer

  -- A split keeps the connection ready.
  pub Splits-IsReady :
      (c : TcpConnection X) (bytes : Bytes) (n : ℕ) (c' : TcpConnection X)
      → IsReady c
      → Splits c bytes n c'
      → IsReady c'
  Splits-IsReady c bytes n c' r s = record {
    valid = s.valid;
    up = s.same_state ∙ r.up;
    asked = elim (Bool-cases (ltb n (length bytes))) [
      | inl some_left ↦ inl (s.asked ∙ rw some_left refl)
      | inr none_left ↦ elim r.asked [
        | inl asked ↦ inl (s.asked ∙ rw none_left asked)
        | inr nil ↦
            inr (s.kept ∙ ap₂ ◌++◌ nil (drop_all n bytes (omega (arith, ltb→le _ _ none_left))))
      ]
    ];
  }

  -- With room in the output buffer `sendData` succeeds.
  pub send_data-Splits :
      (c : TcpConnection X) (bytes : Bytes) (n : ℕ)
      → IsReady c
      → n ≤ length bytes
      → length bytes ≤ max_size
      → c.output_buffer.writer_index + (length bytes - n) ≤ max_size
      → (c' : TcpConnection X) × (send_data c bytes (wrote n) ≡ ok c')
        × Splits c bytes n c'
        × IsReady c'
  send_data-Splits c bytes n r inside short small =
      elim (send_data_lem c bytes r.valid n inside short r.up) [
        | inl (c', e, s) ↦ (c', e, s, Splits-IsReady c bytes n c' r s)
        | inr (e, over) ↦ absurd (omega arith)
      ]

  Splits-stream :
      (c : TcpConnection X) (bytes : Bytes) (n : ℕ) (c' : TcpConnection X)
      → Splits c bytes n c'
      → Perm (stream c') (stream c ++ bytes)
  Splits-stream c bytes n c' s =
      rw (s.told, s.kept)
        (subst
          (λ t.
            Perm ((c.sent ++ take n bytes) ++ (contents c.output_buffer ++ drop n bytes))
              (stream c ++ t))
          (take-append-drop n bytes)
          (perm_middle_swap c.sent (take n bytes) (contents c.output_buffer) (drop n bytes)))

  pub Passes-stream :
      (c : TcpConnection X) (n : ℕ) (c' : TcpConnection X) → Passes c n c' → stream c' ≡ stream c
  Passes-stream c n c' p =
      ap₂ ◌++◌ p.told p.kept
      ∙ append_assoc c.sent _ _
      ∙ ap (λ s. c.sent ++ s) (take-append-drop n (contents c.output_buffer))

  -- In every run of calls of `sendData` and of write events on a ready connection, in which each
  -- `write` succeeds and takes no more than it is given, and the buffer has room for all that is sent,
  -- no call faults, the connection stays ready, and what went to the socket together with what waits
  -- is a permutation of what was there and what was sent: no byte is lost or sent twice. Runs in
  -- which a `write` fails are no runs of `play`.
  pub play-Perm :
      (c : TcpConnection X) (es : List Event)
      → IsReady c
      → Possible es
      → c.output_buffer.writer_index + length (payload es) ≤ max_size
      → (c' : TcpConnection X) × (play c es ≡ ok c')
        × IsReady c'
        × Perm (stream c') (stream c ++ payload es)
  unfolding play
  play-Perm c [] r p small = (c, refl, r, rw (append-nil (stream c)) (L.Perm.refl _))
  play-Perm c (writable n ∷ es) r p small =
      let (c₁, e, passes) = handle_write-Passes c r n in
      let (c₂, e', r', perm) = play-Perm c₁ es passes.ready p (omega (arith, passes.no_later)) in
      (c₂, rw (e, ◌>>=◌) e', r', rw (Passes-stream c n c₁ passes) at perm)
  play-Perm c (send bytes n ∷ es) r p small =
      let sizes = length-append bytes (payload es) in
      let (c₁, e, s, r₁) =
        send_data-Splits c bytes n r p.0 (omega (arith, sizes)) (omega (arith, sizes)) in
      let (c₂, e', r', perm) = play-Perm c₁ es r₁ p.1 (omega (arith, s.no_later, sizes)) in
      (
        c₂,
        rw (e, ◌>>=◌) e',
        r',
        L.Perm.trans perm (
            rw⁻¹ (append_assoc (stream c) bytes (payload es))
              ((perm-append_right_iff (payload es)).1 (Splits-stream c bytes n c₁ s))),
      )

  -- The write events pass on what waits, in order, and no more than the socket takes.
  play-writables :
      (c : TcpConnection X) (ns : List ℕ)
      → IsReady c
      → (c' : TcpConnection X) × (play c (writables ns) ≡ ok c') × Passes c (total ns) c'
  unfolding play
  play-writables c [] r = (
    c,
    refl,
    record { ready = r; told = sym (append-nil c.sent); kept = refl; no_later = omega arith },
  )
  play-writables c (n ∷ ns) r =
      let (c₁, e, p) = handle_write-Passes c r n in
      let (c₂, e', q) = play-writables c₁ ns p.ready in
      (
        c₂,
        rw (e, ◌>>=◌) e',
        record {
          ready = q.ready;
          told =
              q.told
              ∙ ap₂ (λ s t. s ++ take (total ns) t) p.told p.kept
              ∙ append_assoc c.sent _ _
              ∙ ap (λ s. c.sent ++ s) (take_twice n (total ns) (contents c.output_buffer));
          kept =
              q.kept
              ∙ ap (drop (total ns)) p.kept
              ∙ drop-drop (total ns) n (contents c.output_buffer);
          no_later = omega (arith, p.no_later, q.no_later);
        },
      )

  -- A message that is sent while nothing waits goes to the socket whole and in order, over as many
  -- write events as it needs: if the socket takes as much as the message has in the call and the
  -- events together, the output buffer is empty at the end. The buffer is to have room for it.
  pub play_delivers :
      (c : TcpConnection X) (bytes : Bytes) (n : ℕ) (ns : List ℕ)
      → IsReady c
      → contents c.output_buffer ≡ []
      → n ≤ length bytes
      → length bytes ≤ n + total ns
      → c.output_buffer.writer_index + length bytes ≤ max_size
      → (c' : TcpConnection X) × (play c (send bytes n ∷ writables ns) ≡ ok c')
        × (c'.sent ≡ c.sent ++ bytes)
        × (contents c'.output_buffer ≡ [])
  unfolding play
  play_delivers c bytes n ns r nil inside enough small =
      let (c₁, e, s, r₁) = send_data-Splits c bytes n r inside (omega arith) (omega arith) in
      let (c₂, e', q) = play-writables c₁ ns r₁ in
      let waiting : contents c₁.output_buffer ≡ drop n bytes =
        s.kept ∙ ap (λ t. t ++ drop n bytes) nil in
      let few : length (drop n bytes) ≤ total ns = omega (arith, length-drop n bytes) in
      (
        c₂,
        rw (e, ◌>>=◌) e',
        q.told
            ∙ ap₂ (λ a b. a ++ take (total ns) b) s.told waiting
            ∙ ap (λ t. (c.sent ++ take n bytes) ++ t) (take_all _ _ few)
            ∙ append_assoc c.sent _ _
            ∙ ap (λ t. c.sent ++ t) (take-append-drop n bytes),
        q.kept ∙ ap (drop (total ns)) waiting ∙ drop_all _ _ few,
      )
