-- ===== src/Buffer/Retrieve.antt =====
-- What is taken from the front of a buffer: `retrieve` and the operations built on it.
use budd.Common.{
  ℕ, ◌+◌, ◌-◌, ◌≤◌, ◌<◌, ◌≡◌, inl, inr, ap, ap₂, sym, ◌∙◌, [], arith, length, take, drop, take_all,
  drop_all, drop-drop, drop-take, take-take, Bytes, ltb, le→leb, lt→leb, Bool-cases, ltb→lt, ltb→le,
}
use budd.Outcome.{Outcome, ok, err, assertion}
use budd.Buffer.{
  Buffer, add_size, readable_bytes, retrieve_all, retrieve, retrieve_as_string,
  retrieve_all_as_string, retrieve_until,
}
use budd.Buffer.Contents.{IsValid, contents, readable_bytes-eq, length-contents, read_range-ok}

-- The call succeeds and leaves a valid buffer that holds `rest`, with no later write index.
abbrev pub Leaves : Buffer → Bytes → Outcome Buffer → Type 0
Leaves b rest o =
    (b' : Buffer) × (o ≡ ok b')
    × IsValid b'
    × (contents b' ≡ rest)
    × (b'.writer_index ≤ b.writer_index)

module _ (b : Buffer) (v : IsValid b) where
  open b use {reader_index as r, writer_index as w, buffer as xs}

  pub retrieve_all-IsValid : IsValid (retrieve_all b)
  unfolding retrieve_all
  retrieve_all-IsValid = record {
    prepend_kept = omega arith;
    ordered = omega arith;
    fits = omega (arith, v.prepend_kept, v.ordered, v.fits);
    small = v.small;
  }

  abbrev skipped : ℕ → Buffer
  skipped n = record b { reader_index = r + n }

  -- `retrieve` drops as many bytes as it is asked for, and all if there are fewer.
  pub retrieve-Leaves : (n : ℕ) → Leaves b (drop n (contents b)) (retrieve b n)
  unfolding retrieve retrieve_all
  retrieve-Leaves n = elim (Bool-cases (ltb n (w - r))) [
    | inl inside ↦
        let lt : n < w - r = ltb→lt _ _ inside in
        let no_wrap : add_size r n ≡ r + n = omega (arith, v.fits, v.small) in
        let steps : w - r - n ≡ w - (r + n) = omega arith in
        (
          skipped n,
          rw (readable_bytes-eq b v, inside, le→leb n (w - r) (omega arith), no_wrap),
          record {
            prepend_kept = omega (arith, v.prepend_kept);
            ordered = omega (arith, v.ordered);
            fits = v.fits;
            small = v.small;
          },
          sym (drop-take n (w - r) (drop r xs) ∙ ap₂ take steps (drop-drop n r xs)),
          omega arith,
        )
    | inr past ↦ (
      retrieve_all b,
      rw (readable_bytes-eq b v, past),
      retrieve_all-IsValid,
      sym (
          drop_all n (contents b)
            (omega (arith, length-contents b v, readable_bytes-eq b v, ltb→le _ _ past))),
      omega (arith, v.prepend_kept, v.ordered),
    )
  ]

  -- `retrieveAsString` of no more than is held returns the first bytes and leaves the others.
  pub retrieve_as_string-ok :
      (n : ℕ)
      → n ≤ length (contents b)
      → (b' : Buffer) × (retrieve_as_string b n ≡ ok (take n (contents b), b'))
        × IsValid b'
        × (contents b' ≡ drop n (contents b))
        × (b'.writer_index ≤ b.writer_index)
  unfolding retrieve_as_string
  retrieve_as_string-ok n h =
      let (b', e, valid, left, no_later) = retrieve-Leaves n in
      let held : n ≤ w - r = omega (arith, length-contents b v, readable_bytes-eq b v) in
      (
        b',
        rw
            (
              readable_bytes-eq b v,
              le→leb n (w - r) held,
              read_range-ok xs r n (omega (arith, v.ordered, v.fits)),
              e,
            )
            (sym (ap (λ s. ok (s, b')) (take-take n (w - r) (drop r xs) held))),
        valid,
        left,
        no_later,
      )

  -- Of more than is held, its assertion fails.
  pub retrieve_as_string-err :
      (n : ℕ) → length (contents b) < n → retrieve_as_string b n ≡ err assertion
  unfolding retrieve_as_string
  retrieve_as_string-err n h = rw (lt→leb n (readable_bytes b) (omega (arith, length-contents b v)))

  -- `retrieveAllAsSrting` returns all that is held and leaves nothing.
  pub retrieve_all_as_string-ok :
      (b' : Buffer) × (retrieve_all_as_string b ≡ ok (contents b, b'))
      × IsValid b'
      × (contents b' ≡ [])
      × (b'.writer_index ≤ b.writer_index)
  unfolding retrieve_all_as_string
  retrieve_all_as_string-ok =
      let n = readable_bytes b in
      let all : length (contents b) ≤ n = omega (arith, length-contents b v) in
      let (b', e, valid, left, no_later) =
        retrieve_as_string-ok n (omega (arith, length-contents b v)) in
      (
        b',
        rw (take_all n (contents b) all) at e,
        valid,
        left ∙ drop_all n (contents b) all,
        no_later,
      )

  -- `retrieveUntil` drops what stands before the pointer.
  pub retrieve_until-Leaves :
      (end : ℕ) → r ≤ end → end ≤ w → Leaves b (drop (end - r) (contents b)) (retrieve_until b end)
  unfolding retrieve_until
  retrieve_until-Leaves end h k = rw (le→leb r end h, le→leb end w k) (retrieve-Leaves (end - r))
