-- ===== src/Buffer/Contents.antt =====
-- The invariant of `Buffer`, the bytes that it holds, and what the vector operations do to a range.
use budd.Common.{
  ℕ, ◌+◌, ◌-◌, ◌≤◌, ◌≡◌, ap, ap₂, sym, ◌∙◌, ◌++◌, arith, length, take, drop, slice, replicate,
  length-append, length-take, length-drop, length-replicate, take_all, take-append_le,
  drop-append_le, take-append_ge, drop-take, Bytes,
}
use budd.Buffer.{
  Buffer, prepend_size, max_size, resize, copy_in, read_range, writeable_bytes, readable_bytes,
}
use budd.Outcome.{ok}

pub record IsValid (b : Buffer) : Type 0 where
  pub prepend_kept : prepend_size ≤ b.reader_index
  pub ordered : b.reader_index ≤ b.writer_index
  pub fits : b.writer_index ≤ length b.buffer
  pub small : length b.buffer ≤ max_size

-- The bytes from `peek()` up to `writeableBegin()`.
abbrev pub contents : Buffer → Bytes
contents b = slice b.buffer b.reader_index b.writer_index

pub readable_bytes-eq :
    (b : Buffer) → IsValid b → readable_bytes b ≡ b.writer_index - b.reader_index
unfolding readable_bytes
readable_bytes-eq b v = omega arith

pub writeable_bytes-eq :
    (b : Buffer) → IsValid b → writeable_bytes b ≡ length b.buffer - b.writer_index
unfolding writeable_bytes
writeable_bytes-eq b v = omega arith

pub length-slice : (xs : Bytes) (i j : ℕ) → i ≤ j → j ≤ length xs → length (slice xs i j) ≡ j - i
length-slice xs i j h k = omega (arith, length-take (j - i) (drop i xs), length-drop i xs)

pub length-contents : (b : Buffer) → IsValid b → length (contents b) ≡ readable_bytes b
length-contents b v =
    length-slice b.buffer b.reader_index b.writer_index v.ordered v.fits
    ∙ sym (readable_bytes-eq b v)

pub slice-append_le :
    (xs ys : Bytes) (i j : ℕ) → i ≤ j → j ≤ length xs → slice (xs ++ ys) i j ≡ slice xs i j
slice-append_le xs ys i j h k =
    ap (take (j - i)) (drop-append_le i xs ys (omega arith))
    ∙ take-append_le (j - i) (drop i xs) ys (omega (arith, length-drop i xs))

-- Bytes written at `at` extend every range that ended there.
pub slice-write :
    (v s t : Bytes) (i at j : ℕ)
    → i ≤ at
    → at ≤ length v
    → j ≡ at + length s
    → slice (take at v ++ (s ++ t)) i j ≡ slice v i at ++ s
slice-write v s t i at j h k e =
    ap (take (j - i)) (drop-append_le i (take at v) (s ++ t) (omega (arith, cut)))
    ∙ take-append_ge (j - i) (drop i (take at v)) (s ++ t) (omega (arith, left))
    ∙ ap₂ ◌++◌ (drop-take i at v) (
        take-append_le (j - i - length (drop i (take at v))) s t (omega (arith, left))
        ∙ take_all _ s (omega (arith, left)))
  where
    cut : length (take at v) ≡ at
    cut = omega (arith, length-take at v)

    left : length (drop i (take at v)) ≡ at - i
    left = omega (arith, length-drop i (take at v), cut)

pub copy_in-ok :
    (v : Bytes) (at : ℕ) (src : Bytes) (len : ℕ)
    → len ≤ length src
    → at + len ≤ length v
    → copy_in v at src len ≡ ok (take at v ++ (take len src ++ drop (at + len) v))
unfolding copy_in
copy_in-ok v at src len h k = ground arith

pub length-copied :
    (v : Bytes) (at : ℕ) (s : Bytes) (n : ℕ)
    → length s ≡ n
    → at + n ≤ length v
    → length (take at v ++ (s ++ drop (at + n) v)) ≡ length v
length-copied v at s n e h = omega (
  arith,
  length-append (take at v) (s ++ drop (at + n) v),
  length-append s (drop (at + n) v),
  length-take at v,
  length-drop (at + n) v,
)

pub resize-ok :
    (v : Bytes) (n : ℕ)
    → length v ≤ n
    → n ≤ max_size
    → resize v n ≡ ok (v ++ replicate (n - length v) 0)
unfolding resize
resize-ok v n h k = ground (arith, take_all n v h)

pub length-resized :
    (v : Bytes) (n : ℕ) → length v ≤ n → length (v ++ replicate (n - length v) 0) ≡ n
length-resized v n h =
    omega (
      arith,
      length-append v (replicate (n - length v) 0),
      length-replicate {A = ℕ} (n - length v) 0,
    )

pub read_range-ok :
    (v : Bytes) (at len : ℕ) → at + len ≤ length v → read_range v at len ≡ ok (take len (drop at v))
unfolding read_range
read_range-ok v at len h = ground arith
