-- ===== src/Buffer/Append.antt =====
-- `append` and what it calls: room is made, by moving or by growing, and the bytes are added.
use budd.Common.{
  ℕ, ◌+◌, ◌-◌, ◌≤◌, ◌<◌, ◌≡◌, refl, ap, ap₂, ◌∙◌, ◌⊎◌, inl, inr, ◌++◌, arith, length, take, drop,
  replicate, length-take, length-drop, take_all, Bytes, ltb, leb, le→leb, Bool-cases, ltb→lt,
  ltb→le, leb→le, leb→lt, true,
}
use budd.Outcome.{Outcome, ok, err, ◌>>=◌, length_error}
use budd.Buffer.{
  Buffer, prepend_size, max_size, add_size, resize, writeable_bytes, readable_bytes,
  prependable_bytes, move_to_front, reserve, ensure_writerable_bytes, append, append_string,
}
use budd.Buffer.Contents.{
  IsValid, contents, readable_bytes-eq, writeable_bytes-eq, slice-append_le, slice-write,
  copy_in-ok, length-copied, resize-ok, length-resized, length-slice,
}

-- A buffer with the same contents and room for `len` bytes behind them.
pub record Roomy (b : Buffer) (len : ℕ) (b' : Buffer) : Type 0 where
  pub valid : IsValid b'
  pub same : contents b' ≡ contents b
  pub no_later : b'.writer_index ≤ b.writer_index
  pub room : b'.writer_index + len ≤ length b'.buffer

-- Then the assertions behind the calls hold.
room_test : (b b' : Buffer) (len : ℕ) → Roomy b len b' → leb len (writeable_bytes b') ≡ true
room_test b b' len roomy =
    rw (writeable_bytes-eq b' roomy.valid) (le→leb _ _ (omega (arith, roomy.room)))

module _ (b : Buffer) (v : IsValid b) where
  open b use {reader_index as r, writer_index as w, buffer as xs}

  length-moved_bytes : length (take (w - r) (drop r xs)) ≡ w - r
  length-moved_bytes = length-slice xs r w v.ordered v.fits

  abbrev pub moved : Buffer
  moved = record {
    reader_index = prepend_size;
    writer_index = prepend_size + (w - r);
    buffer = take prepend_size xs ++ (take (w - r) (drop r xs) ++ drop (prepend_size + (w - r)) xs);
  }

  length-moved : length moved.buffer ≡ length xs
  length-moved =
      length-copied xs prepend_size (take (w - r) (drop r xs)) (w - r) length-moved_bytes
        (omega (arith, v.prepend_kept, v.ordered, v.fits))

  pub move_to_front-ok : move_to_front b ≡ ok moved
  unfolding move_to_front readable_bytes
  move_to_front-ok = rw (readable_bytes-eq b v) (
      rw
        (copy_in-ok xs prepend_size (drop r xs) (w - r)
          (omega (arith, length-drop r xs, v.prepend_kept, v.ordered, v.fits))
          (omega (arith, v.prepend_kept, v.ordered, v.fits)))
        (ground (arith, v.prepend_kept, v.ordered, v.fits, v.small)))

  pub moved-Roomy : (len : ℕ) → prepend_size + (w - r) + len ≤ length xs → Roomy b len moved
  moved-Roomy len h = record {
    valid = record {
      prepend_kept = omega arith;
      ordered = omega arith;
      fits = omega (arith, length-moved);
      small = omega (arith, length-moved, v.small);
    };
    same =
        slice-write xs (take (w - r) (drop r xs)) _ prepend_size prepend_size _ (omega arith)
          (omega (arith, v.prepend_kept, v.ordered, v.fits)) (omega (arith, length-moved_bytes));
    no_later = omega (arith, v.prepend_kept, v.ordered);
    room = omega (arith, length-moved);
  }

  abbrev grown : ℕ → Buffer
  grown len = record b { buffer = xs ++ replicate (w + len - length xs) 0 }

  grown-Roomy : (len : ℕ) → length xs ≤ w + len → w + len ≤ max_size → Roomy b len (grown len)
  grown-Roomy len h k = record {
    valid = record {
      prepend_kept = v.prepend_kept;
      ordered = v.ordered;
      fits = omega (arith, length-resized xs (w + len) h);
      small = omega (arith, length-resized xs (w + len) h);
    };
    same = slice-append_le xs (replicate (w + len - length xs) 0) r w v.ordered v.fits;
    no_later = omega arith;
    room = omega (arith, length-resized xs (w + len) h);
  }

  -- The test of `reserve`, with no wrap.
  short_test :
      (len : ℕ)
      → len ≤ max_size
      → ltb (add_size (writeable_bytes b) (prependable_bytes b)) (add_size len prepend_size)
        ≡ ltb (length xs - w + r) (len + prepend_size)
  unfolding prependable_bytes
  short_test len h =
      rw (writeable_bytes-eq b v)
        (ap₂ ltb (omega (arith, v.ordered, v.fits, v.small)) (omega arith))

  -- What `reserve` does when the room at the end is short.
  reserve-Roomy :
      (len : ℕ)
      → len ≤ max_size
      → length xs - w < len
      → ((b' : Buffer) × (reserve b len ≡ ok b') × Roomy b len b')
        ⊎ ((reserve b len ≡ err length_error) × (max_size < w + len))
  unfolding reserve
  reserve-Roomy len small short = elim (Bool-cases (ltb (length xs - w + r) (len + prepend_size))) [
    | inl few ↦ elim (Bool-cases (leb (w + len) max_size)) [
      | inl fine ↦
          let grows = resize-ok xs (w + len) (omega arith) (leb→le _ _ fine) in
          inl (
            grown len,
            rw (short_test len small, few, no_wrap, grows),
            grown-Roomy len (omega arith) (leb→le _ _ fine),
          )
      | inr over ↦
          inr (rw (short_test len small, few, no_wrap) (unfold resize in rw over), leb→lt _ _ over)
    ]
    | inr many ↦ inl (
      moved,
      rw (short_test len small, many) move_to_front-ok,
      moved-Roomy len (omega (arith, ltb→le _ _ many, v.prepend_kept, v.ordered, v.fits)),
    )
  ]
    where
      no_wrap : add_size w len ≡ w + len
      no_wrap = omega (arith, v.fits, v.small)

  -- `ensureWriterableBytes` keeps the contents and makes room, or the vector would pass its
  -- largest size.
  ensure-Roomy :
      (len : ℕ)
      → len ≤ max_size
      → ((b' : Buffer) × (ensure_writerable_bytes b len ≡ ok b') × Roomy b len b')
        ⊎ ((ensure_writerable_bytes b len ≡ err length_error) × (max_size < w + len))
  unfolding ensure_writerable_bytes
  ensure-Roomy len small = elim (Bool-cases (ltb (length xs - w) len)) [
    | inl short ↦ elim (reserve-Roomy len small (ltb→lt _ _ short)) [
      | inl (b', e, roomy) ↦
          inl (b', rw (writeable_bytes-eq b v, short, e) (rw (room_test b b' len roomy)), roomy)
      | inr (e, over) ↦ inr (rw (writeable_bytes-eq b v, short, e), over)
    ]
    | inr enough ↦
        let roomy : Roomy b len b = record {
          valid = v;
          same = refl;
          no_later = omega arith;
          room = omega (arith, ltb→le _ _ enough, v.fits);
        } in
        inl (b, rw (writeable_bytes-eq b v, enough, ◌>>=◌) (rw (room_test b b len roomy)), roomy)
  ]

-- The two ways in which `append` ends: with the bytes added, or because the vector would pass its
-- largest size.
abbrev pub Appends : Buffer → Bytes → Outcome Buffer → Type 0
Appends b s o =
    ((b' : Buffer) × (o ≡ ok b')
      × IsValid b'
      × (contents b' ≡ contents b ++ s)
      × (b'.writer_index ≤ b.writer_index + length s))
    ⊎ ((o ≡ err length_error) × (max_size < b.writer_index + length s))

-- The buffer behind `append`, if `b'` has the room.
abbrev extended : Buffer → Bytes → ℕ → Buffer
extended b' src len = record b' {
  writer_index = b'.writer_index + len;
  buffer =
      take b'.writer_index b'.buffer ++ (take len src ++ drop (b'.writer_index + len) b'.buffer);
}

module _ (b b' : Buffer) (src : Bytes) (len : ℕ) (roomy : Roomy b len b')
    (inside : len ≤ length src) where
  open b' use {reader_index as r, writer_index as w, buffer as xs}

  length-source : length (take len src) ≡ len
  length-source = omega (arith, length-take len src)

  extended-IsValid : IsValid (extended b' src len)
  extended-IsValid =
      let same_length = length-copied xs w (take len src) len length-source roomy.room in
      record {
        prepend_kept = roomy.valid.prepend_kept;
        ordered = omega (arith, roomy.valid.ordered);
        fits = omega (arith, same_length, roomy.room);
        small = omega (arith, same_length, roomy.valid.small);
      }

  contents-extended : contents (extended b' src len) ≡ contents b ++ take len src
  contents-extended =
      slice-write xs (take len src) (drop (w + len) xs) r w (w + len) roomy.valid.ordered
        roomy.valid.fits (omega (arith, length-source))
      ∙ ap (λ c. c ++ take len src) roomy.same

  append-ok : ensure_writerable_bytes b len ≡ ok b' → append b src len ≡ ok (extended b' src len)
  unfolding append
  append-ok e =
      let no_wrap : add_size w len ≡ w + len = omega (arith, roomy.room, roomy.valid.small) in
      rw (e, ◌>>=◌)
        (rw (copy_in-ok xs w src len inside roomy.room, room_test b b' len roomy, no_wrap))

pub append-Appends :
    (b : Buffer) (src : Bytes) (len : ℕ)
    → IsValid b
    → len ≤ max_size
    → len ≤ length src
    → Appends b (take len src) (append b src len)
append-Appends b src len v small inside = elim (ensure-Roomy b v len small) [
  | inl (b', e, roomy) ↦ inl (
    extended b' src len,
    append-ok b b' src len roomy inside e,
    extended-IsValid b b' src len roomy inside,
    contents-extended b b' src len roomy inside,
    omega (arith, roomy.no_later, length-take len src),
  )
  | inr (e, over) ↦ inr (unfold append in rw e, omega (arith, length-take len src))
]

-- `append` of a string to a valid buffer keeps it valid and adds exactly the bytes of the string
-- behind its contents (the write index grows by no more), whether there is room, the contents are moved or the vector grows; it
-- throws only `length_error`, and only if the vector would have to pass its largest size.
pub append_string_lem :
    (b : Buffer) (s : Bytes) → IsValid b → length s ≤ max_size → Appends b s (append_string b s)
unfolding append_string
append_string_lem b s v small =
    rw (take_all (length s) s (omega arith)) at
      (append-Appends b s (length s) v small (omega arith))
