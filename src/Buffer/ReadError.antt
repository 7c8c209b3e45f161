-- ===== src/Buffer/ReadError.antt =====
-- `readFd` when `readv` fails: `readN` is a `size_t`, so -1 is taken for a very long read.
use budd.Common.{
  ℕ, ◌-◌, ◌≤◌, ◌<◌, ◌≡◌, inl, inr, ◌++◌, arith, length, take, replicate, length-take, length-append,
  length-replicate, Bytes, ltb, if◌then◌else◌, le→leb, lt→leb, lt→ltb, le→ltb, Bool-cases, ltb→lt,
  ltb→le,
}
use budd.Outcome.{ok, err, ◌>>=◌, assertion, out_of_bounds}
use budd.Buffer.{
  Buffer, prepend_size, max_size, add_size, writeable_bytes, prependable_bytes, append, reserve,
  resize, copy_in, ensure_writerable_bytes, failed, extra_size, minus_one, read_fd,
}
use budd.Buffer.Contents.{IsValid, writeable_bytes-eq}
use budd.Buffer.Read.{after_readv_long}
use budd.Buffer.Append.{moved, move_to_front-ok, moved-Roomy}

module _ (b : Buffer) (v : IsValid b) (extra : Bytes) where
  open b use {reader_index as r, writer_index as w, buffer as xs}

  abbrev room : ℕ
  room = length xs - w

  -- The buffer with the write index at its end.
  abbrev full : Buffer
  full = record b { writer_index = length xs }

  full-IsValid : IsValid full
  full-IsValid = record {
    prepend_kept = v.prepend_kept;
    ordered = omega (arith, v.ordered, v.fits);
    fits = omega arith;
    small = v.small;
  }

  -- How many bytes `append` is asked for: -1 less the room, as a `size_t`.
  abbrev asked : ℕ
  asked = minus_one - room

  no_room : writeable_bytes full ≡ 0
  no_room = omega (arith, writeable_bytes-eq full full-IsValid)

  -- With room for 8 bytes the vector is made shorter than the write index.
  abbrev shrunk : Buffer
  shrunk = record full { buffer = take (w - 1) xs ++ replicate (w - 1 - length xs) 0 }

  length-shrunk : length shrunk.buffer ≡ w - 1
  length-shrunk = omega (
    arith,
    length-append (take (w - 1) xs) (replicate (w - 1 - length xs) 0),
    length-take (w - 1) xs,
    length-replicate {A = ℕ} (w - 1 - length xs) 0,
    v.fits,
  )

  reserve-shrunk : prepend_size ≤ room → reserve full asked ≡ ok shrunk
  unfolding reserve prependable_bytes resize
  reserve-shrunk h =
      let test : add_size 0 r < add_size asked prepend_size =
        omega (arith, v.ordered, v.fits, v.small) in
      let size : add_size (length xs) asked ≡ w - 1 =
        omega (arith, v.prepend_kept, v.ordered, v.fits, v.small) in
      let fine : w - 1 ≤ max_size = omega (arith, v.fits, v.small) in
      rw (no_room, lt→ltb _ _ test, size, le→leb _ _ fine)

  -- The room then wraps to what was asked for.
  room-shrunk : writeable_bytes shrunk ≡ asked
  unfolding writeable_bytes
  room-shrunk = omega (arith, length-shrunk, v.prepend_kept, v.ordered, v.fits, v.small)

  append-out_of_bounds :
      length extra ≡ extra_size → prepend_size ≤ room → append full extra asked ≡ err out_of_bounds
  unfolding append ensure_writerable_bytes copy_in
  append-out_of_bounds e h =
      let much : 0 < asked = omega (arith, v.small) in
      let long : length extra < asked = omega (arith, v.small) in
      rw (no_room, lt→ltb _ _ much, reserve-shrunk h, ◌>>=◌)
        (rw (room-shrunk, le→leb asked asked (omega arith), lt→leb _ _ long))

  -- With less room the contents are moved to the front, which does not make enough room.
  abbrev front : Buffer
  front = moved full full-IsValid

  room-front : room < prepend_size → writeable_bytes front < asked
  room-front h =
      let roomy =
        moved-Roomy full full-IsValid 0 (omega (arith, v.prepend_kept, v.ordered, v.fits)) in
      omega (arith, writeable_bytes-eq front roomy.valid, roomy.valid.small, v.small)

  append-assertion : room < prepend_size → append full extra asked ≡ err assertion
  unfolding append ensure_writerable_bytes reserve prependable_bytes
  append-assertion h =
      let much : 0 < asked = omega (arith, v.small) in
      let test : add_size asked prepend_size ≤ add_size 0 r =
        omega (arith, v.prepend_kept, v.ordered, v.fits, v.small) in
      rw (no_room, lt→ltb _ _ much, le→ltb _ _ test, move_to_front-ok full full-IsValid, ◌>>=◌)
        (rw (lt→leb _ _ (room-front h)))

-- A failed `readv` is never reported: the call does not return. -1 is taken for the longest read
-- there is, so `append` is asked for nearly 2^64 bytes of `extraBuffer`; with room for at least 8
-- bytes the copy then runs out of that array, and with less the assertion on the room fails.
pub read_fd-failed :
    (b : Buffer) (errorno errno : ℕ) (extra : Bytes)
    → IsValid b
    → length extra ≡ extra_size
    → read_fd b errorno extra (failed errno)
      ≡ err
          (if ltb (length b.buffer - b.writer_index) prepend_size then assertion else out_of_bounds)
unfolding read_fd
read_fd-failed b errorno errno extra v e =
    let room_of = length b.buffer - b.writer_index in
    rw (after_readv_long b errorno errno minus_one extra v (omega (arith, v.small)) (omega arith))
      (elim (Bool-cases (ltb room_of prepend_size)) [
        | inl small ↦ rw (append-assertion b v extra (ltb→lt _ _ small), small)
        | inr large ↦ rw (append-out_of_bounds b v extra e (ltb→le _ _ large), large)
      ])
