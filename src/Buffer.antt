-- ===== src/Buffer.antt =====
-- base/buffer.h and base/buffer.cpp: `class Buffer`. A pointer into the vector is its index from
-- `begin()`. `size_t` arithmetic wraps; `std::copy` and `std::string` fault when they leave their
-- object, `assert` when its test is false. `peekInt` is left out: nothing calls it.
pub mod Contents
pub mod Append
pub mod Retrieve
pub mod Refine
pub mod Read
pub mod ReadError
pub mod Crlf
mod Tests
use budd.Common.{
  ℕ, suc, ◌+◌, ◌-◌, ◌*◌, ◌%◌, ◌^◌, Bool, true, false, ◌&&◌, Option, none, some, List, [], ◌∷◌, ◌++◌,
  ltb, leb, ◌==◌, if◌then◌else◌, length, take, drop, slice, replicate, Bytes, codes,
}
use budd.Outcome.{Outcome, ok, err, ◌>>=◌, ◌>>◌, demand, assertion, out_of_bounds, length_error}

-- `m_readerIndex`, `m_writerIndex` and `m_buffer`
pub record Buffer : Type 0 where
  pub reader_index : ℕ
  pub writer_index : ℕ
  pub buffer : Bytes

abbrev pub initial_size : ℕ
initial_size = 1024 * 128

abbrev pub prepend_size : ℕ
prepend_size = 8

abbrev pub crlf : Bytes
crlf = codes "\r\n"

-- `size_t` arithmetic
abbrev pub add_size : ℕ → ℕ → ℕ
add_size a b = (a + b) % 2 ^ 64

abbrev pub sub_size : ℕ → ℕ → ℕ
sub_size a b = (a + 2 ^ 64 - b) % 2 ^ 64

-- `max_size()` of a `std::vector<char>`: `PTRDIFF_MAX`
abbrev pub max_size : ℕ
max_size = 2 ^ 63 - 1

-- `std::vector<char>::resize`
unfoldable pub resize : Bytes → ℕ → Outcome Bytes
resize v n = do demand (leb n max_size) length_error; ok (take n v ++ replicate (n - length v) 0)

-- `std::copy(src, src + len, begin + at)`, into the vector `v`
unfoldable pub copy_in : Bytes → ℕ → Bytes → ℕ → Outcome Bytes
copy_in v at src len = do
  demand (leb len (length src)) out_of_bounds
  demand (leb (at + len) (length v)) out_of_bounds
  ok (take at v ++ (take len src ++ drop (at + len) v))

-- `std::string(begin + at, len)`
unfoldable pub read_range : Bytes → ℕ → ℕ → Outcome Bytes
read_range v at len = do demand (leb (at + len) (length v)) out_of_bounds; ok (take len (drop at v))

-- the constructor
unfoldable pub create : ℕ → Outcome Buffer
create n = do
  v ← resize [] n
  ok (record { reader_index = prepend_size; writer_index = prepend_size; buffer = v })

unfoldable pub writeable_bytes : Buffer → ℕ
writeable_bytes b = sub_size (length b.buffer) b.writer_index

unfoldable pub readable_bytes : Buffer → ℕ
readable_bytes b = sub_size b.writer_index b.reader_index

unfoldable pub prependable_bytes : Buffer → ℕ
prependable_bytes b = b.reader_index

-- the `else` branch of `reserve`
unfoldable pub move_to_front : Buffer → Outcome Buffer
move_to_front b = do
  v ← copy_in b.buffer prepend_size (drop b.reader_index b.buffer) (readable_bytes b)
  let moved : Buffer = record {
    reader_index = prepend_size;
    writer_index = add_size prepend_size (readable_bytes b);
    buffer = v;
  }
  demand (readable_bytes b == readable_bytes moved) assertion
  ok moved

unfoldable pub reserve : Buffer → ℕ → Outcome Buffer
reserve b len =
    if ltb (add_size (writeable_bytes b) (prependable_bytes b)) (add_size len prepend_size)
    then (resize b.buffer (add_size b.writer_index len) >>= λ v. ok (record b { buffer = v }))
    else move_to_front b

unfoldable pub ensure_writerable_bytes : Buffer → ℕ → Outcome Buffer
ensure_writerable_bytes b len = do
  b' ← (if ltb (writeable_bytes b) len then reserve b len else ok b)
  demand (leb len (writeable_bytes b')) assertion
  ok b'

-- `append(const char *data, size_t len)`; `src` is what can be read from `data` on
unfoldable pub append : Buffer → Bytes → ℕ → Outcome Buffer
append b src len = do
  b' ← ensure_writerable_bytes b len
  v ← copy_in b'.buffer b'.writer_index src len
  demand (leb len (writeable_bytes b')) assertion
  ok (record b' { writer_index = add_size b'.writer_index len; buffer = v })

-- `append(const std::string &data)`
unfoldable pub append_string : Buffer → Bytes → Outcome Buffer
append_string b s = append b s (length s)

unfoldable pub retrieve_all : Buffer → Buffer
retrieve_all b = record b { reader_index = prepend_size; writer_index = prepend_size }

unfoldable pub retrieve : Buffer → ℕ → Outcome Buffer
retrieve b len =
    if ltb len (readable_bytes b)
    then (demand (leb len (readable_bytes b)) assertion
        >> ok (record b { reader_index = add_size b.reader_index len }))
    else ok (retrieve_all b)

-- `sizeof(int)` is 4
unfoldable pub retrieve_int : Buffer → Outcome Buffer
retrieve_int b = retrieve b 4

unfoldable pub retrieve_as_string : Buffer → ℕ → Outcome (Bytes × Buffer)
retrieve_as_string b len = do
  demand (leb len (readable_bytes b)) assertion
  res ← read_range b.buffer b.reader_index len
  b' ← retrieve b len
  ok (res, b')

unfoldable pub retrieve_all_as_string : Buffer → Outcome (Bytes × Buffer)
retrieve_all_as_string b = retrieve_as_string b (readable_bytes b)

unfoldable pub retrieve_until : Buffer → ℕ → Outcome Buffer
retrieve_until b end = do
  demand (leb b.reader_index end) assertion
  demand (leb end b.writer_index) assertion
  retrieve b (end - b.reader_index)

-- Does the text begin with the pattern?
unfoldable pub begins : Bytes → Bytes → Bool
begins [] text = true
begins (p ∷ ps) [] = false
begins (p ∷ ps) (c ∷ cs) = p == c && begins ps cs

-- `std::search`: where the pattern first occurs, and the end if it does not
unfoldable pub search_in : Bytes → Bytes → ℕ
search_in pat [] = 0
search_in pat (c ∷ cs) = if begins pat (c ∷ cs) then 0 else suc (search_in pat cs)

unfoldable pub find_crlf : Buffer → Option ℕ
find_crlf b =
    let found = b.reader_index + search_in crlf (slice b.buffer b.reader_index b.writer_index) in
    if found == b.writer_index then none else some found

-- What `readv` does: it fails and leaves `errno`, or it hands over bytes, of which there are at
-- most as many as the two ranges have room for, and fills the ranges in order.
pub data Readv : Type 0 where
  failed : ℕ → Readv
  received : Bytes → Readv

-- `sizeof(extraBuffer)`
abbrev pub extra_size : ℕ
extra_size = 128 * 1024

-- `-1` as a `size_t`
abbrev pub minus_one : ℕ
minus_one = 2 ^ 64 - 1

-- The first bytes of a range, overwritten.
abbrev pub overwrite : Bytes → ℕ → Bytes → Bytes
overwrite v at src = take at v ++ (src ++ drop (at + length src) v)

-- Behind `readv`: `read_n`, `*errorno`, the bytes of the vector and of `extraBuffer`. `readN` is a
-- `size_t`, so the test for `readN < 0` is never true.
unfoldable pub after_readv : Buffer → ℕ → ℕ → ℕ → Bytes → Outcome (ℕ × ℕ × Buffer)
after_readv b errorno errno read_n extra =
    if ltb read_n 0
    then ok (read_n, errno, b)
    else if ltb read_n (writeable_bytes b)
    then ok (read_n, errorno, record b { writer_index = add_size b.writer_index read_n })
    else (append (record b { writer_index = length b.buffer }) extra
          (sub_size read_n (writeable_bytes b))
        >>= λ b'. ok (read_n, errorno, b'))

-- `readFd`: the count (as a `size_t`), `*errorno` and the buffer; `extra` is what the array
-- `extraBuffer` holds before the call.
unfoldable pub read_fd : Buffer → ℕ → Bytes → Readv → Outcome (ℕ × ℕ × Buffer)
read_fd b errorno extra (failed errno) = after_readv b errorno errno minus_one extra
read_fd b errorno extra (received bytes) =
    let room = writeable_bytes b in
    let filled : Buffer = record b {
      buffer = overwrite b.buffer b.writer_index (take room bytes);
    } in
    after_readv filled errorno 0 (length bytes) (overwrite extra 0 (drop room bytes))
