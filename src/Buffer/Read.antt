-- ===== src/Buffer/Read.antt =====
-- `readFd`: what `readv` hands over is added behind the contents; and what happens if it fails.
use budd.Common.{
  ℕ, ◌+◌, ◌-◌, ◌^◌, ◌≤◌, ◌<◌, ◌≡◌, ◌⊎◌, inl, inr, refl, ap, ◌∙◌, ◌++◌, arith, length, take, drop,
  length-append, length-take, length-drop, take_all, take-append_le, take-append-drop, append_assoc,
  Bytes, ltb, lt→ltb, le→ltb, Bool-cases, ltb→lt, ltb→le,
}
use budd.Outcome.{Outcome, ok, err, ◌>>=◌}
use budd.Buffer.{
  Buffer, max_size, add_size, sub_size, append, received, extra_size, overwrite, after_readv,
  read_fd,
}
use budd.Buffer.Contents.{IsValid, contents, writeable_bytes-eq, slice-write, length-copied}
use budd.Buffer.Append.{Appends, append-Appends}
use budd.Outcome.{length_error}

-- How `readFd` ends when it has received `bytes`.
abbrev pub Reads : Buffer → ℕ → Bytes → Outcome (ℕ × ℕ × Buffer) → Type 0
Reads b errorno bytes o =
    ((b' : Buffer) × (o ≡ ok (length bytes, errorno, b'))
      × IsValid b'
      × (contents b' ≡ contents b ++ bytes))
    ⊎ ((o ≡ err length_error) × (max_size < b.writer_index + length bytes))

-- Fewer bytes than the vector has room for only move the write index.
after_readv_short :
    (b : Buffer) (errorno errno n : ℕ) (extra : Bytes)
    → IsValid b
    → n < length b.buffer - b.writer_index
    → after_readv b errorno errno n extra
      ≡ ok (n, errorno, record b { writer_index = b.writer_index + n })
unfolding after_readv
after_readv_short b errorno errno n extra v h =
    let no_wrap : add_size b.writer_index n ≡ b.writer_index + n = omega (arith, v.fits, v.small) in
    rw (le→ltb n 0 (omega arith), writeable_bytes-eq b v, lt→ltb _ _ h, no_wrap)

-- More bytes fill the vector, and what stands in `extraBuffer` is appended.
pub after_readv_long :
    (b : Buffer) (errorno errno n : ℕ) (extra : Bytes)
    → IsValid b
    → length b.buffer - b.writer_index ≤ n
    → n < 2 ^ 64
    → after_readv b errorno errno n extra ≡ (
        append
          (record b { writer_index = length b.buffer })
          extra
          (n - (length b.buffer - b.writer_index))
        >>= λ b'. ok (n, errorno, b'))
unfolding after_readv
after_readv_long b errorno errno n extra v h k =
    let room = length b.buffer - b.writer_index in
    let no_wrap : sub_size n room ≡ n - room = omega (arith, v.fits, v.small) in
    rw (le→ltb n 0 (omega arith), writeable_bytes-eq b v, le→ltb _ _ h, no_wrap)

module _ (b : Buffer) (v : IsValid b) where
  open b use {reader_index as r, writer_index as w, buffer as xs}

  -- The vector with `s` in its free part, and the write index at `j`.
  abbrev filled : Bytes → ℕ → Buffer
  filled s j = record b { writer_index = j; buffer = overwrite xs w s }

  length-filled : (s : Bytes) → w + length s ≤ length xs → length (overwrite xs w s) ≡ length xs
  length-filled s h = length-copied xs w s (length s) refl h

  filled-IsValid :
      (s : Bytes) (j : ℕ) → w + length s ≤ length xs → w ≤ j → j ≤ length xs → IsValid (filled s j)
  filled-IsValid s j h k l = record {
    prepend_kept = v.prepend_kept;
    ordered = omega (arith, v.ordered);
    fits = omega (arith, length-filled s h);
    small = omega (arith, length-filled s h, v.small);
  }

  contents-filled : (s : Bytes) (j : ℕ) → j ≡ w + length s → contents (filled s j) ≡ contents b ++ s
  contents-filled s j e = slice-write xs s (drop (w + length s) xs) r w j v.ordered v.fits e

module _ (b : Buffer) (v : IsValid b) (errorno : ℕ) (extra bytes : Bytes) where
  open b use {reader_index as r, writer_index as w, buffer as xs}

  abbrev room : ℕ
  room = length xs - w

  read_fd-short :
      length bytes < room → Reads b errorno bytes (read_fd b errorno extra (received bytes))
  unfolding read_fd
  read_fd-short h =
      let inside : w + length bytes ≤ length xs = omega (arith, v.fits) in
      let same = length-filled b v bytes inside in
      let start = filled-IsValid b v bytes w inside (omega arith) v.fits in
      inl (
        filled b v bytes (w + length bytes),
        rw (writeable_bytes-eq b v, take_all room bytes (omega arith))
            (after_readv_short _ errorno 0 (length bytes) _ start (omega arith)),
        filled-IsValid b v bytes _ inside (omega arith) inside,
        contents-filled b v bytes _ refl,
      )

  -- What goes into the vector and what goes into `extraBuffer`.
  abbrev first : Bytes
  first = take room bytes

  abbrev second : Bytes
  second = drop room bytes

  take-second : (t : Bytes) → take (length bytes - room) (second ++ t) ≡ second
  take-second t =
      let len : length second ≡ length bytes - room = length-drop room bytes in
      take-append_le (length bytes - room) second t (omega arith)
      ∙ take_all (length bytes - room) second (omega arith)

  -- What `append` makes of the full vector is what `readFd` makes of the buffer.
  Reads-append :
      (o : Outcome Buffer)
      → room ≤ length bytes
      → Appends (filled b v first (length xs)) second o
      → Reads b errorno bytes (o >>= λ b'. ok (length bytes, errorno, b'))
  Reads-append o h (inl (b', e, valid, same, no_later)) = inl (
    b',
    rw e,
    valid,
    same
        ∙ ap (λ c. c ++ second)
            (contents-filled b v first (length xs) (omega (arith, length-take room bytes, v.fits)))
        ∙ append_assoc (contents b) first second
        ∙ ap (λ c. contents b ++ c) (take-append-drop room bytes),
  )
  Reads-append o h (inr (e, over)) = inr (rw e, omega (arith, length-drop room bytes, v.fits))

  read_fd-long :
      length extra ≡ extra_size
      → room ≤ length bytes
      → length bytes ≤ room + extra_size
      → Reads b errorno bytes (read_fd b errorno extra (received bytes))
  unfolding read_fd
  read_fd-long e h k =
      let len : length first ≡ room = omega (arith, length-take room bytes) in
      let inside : w + length first ≤ length xs = omega (arith, v.fits) in
      let same = length-filled b v first inside in
      let start = filled-IsValid b v first w inside (omega arith) v.fits in
      let full = filled-IsValid b v first (length xs) inside v.fits (omega arith) in
      rw (writeable_bytes-eq b v) (
        rw
          (after_readv_long (filled b v first w) errorno 0 (length bytes) _ start (omega arith)
            (omega (arith, v.small)))
          (rw same (
            Reads-append _ h (
              rw (take-second rest) at (
                append-Appends (filled b v first (length xs)) (second ++ rest) (length bytes - room)
                  full (omega arith)
                  (omega (arith, length-append second rest, length-drop room bytes)))))))
    where
      rest : Bytes
      rest = drop (0 + length second) extra

-- `readFd` of a valid buffer adds exactly the bytes that `readv` hands over behind the contents,
-- also those that go through `extraBuffer`, returns their number, leaves `*errorno` as it was and
-- keeps the buffer valid; it throws only `length_error`, and only if the vector would have to
-- pass its largest size. (`readv` hands over at most what the two ranges have room for.)
pub read_fd-Reads :
    (b : Buffer) (errorno : ℕ) (extra bytes : Bytes)
    → IsValid b
    → length extra ≡ extra_size
    → length bytes ≤ length b.buffer - b.writer_index + extra_size
    → Reads b errorno bytes (read_fd b errorno extra (received bytes))
read_fd-Reads b errorno extra bytes v e k =
    elim (Bool-cases (ltb (length bytes) (length b.buffer - b.writer_index))) [
      | inl short ↦ read_fd-short b v errorno extra bytes (ltb→lt _ _ short)
      | inr long ↦ read_fd-long b v errorno extra bytes e (ltb→le _ _ long) k
    ]
