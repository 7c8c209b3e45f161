-- ===== src/Http/Response/File.antt =====
-- `setFile`, for what the calls of `readsome` return.
pub mod Reads
mod Tests
use mathlib.Core.Logic.{⊎_elim}
use budd.Common.{
  ℕ, ◌^◌, ◌-◌, ◌≤◌, ◌<◌, ◌≡◌, refl, ap, ◌∙◌, ◌⊎◌, inl, inr, true, false, Bool-cases, none, some,
  List, [], ◌++◌, arith, length, replicate, leb, ltb, ltb→lt, ltb→le, leb→le, leb→lt, Bytes,
}
use budd.Outcome.{Outcome, ok, err, ◌>>=◌, out_of_bounds}
use budd.Http.Response.{HttpResponse, set_body, read_chunks, set_file}
use budd.Http.Response.File.Reads.{
  joined, filled, IsTooMuch, read_chunks-filled, read_chunks-over, read_chunks-IsTooMuch,
}

set_file-read_chunks :
    (size : ℕ) (chunks : List Bytes) (r : HttpResponse) {o : Outcome Bytes}
    → read_chunks (filled [] size) 0 chunks ≡ o
    → set_file (some (size, chunks)) r ≡ (o >>= λ body. ok (true, set_body body r))
unfolding set_file
set_file-read_chunks size chunks r e =
    ap (λ (o : Outcome Bytes). o >>= λ body. ok (true, set_body body r))
      (ap (λ k. read_chunks (replicate k 0) 0 chunks) {x = size} {y = size - 0} (omega arith) ∙ e)

Sizes-cases :
    (n size : ℕ)
    → (n ≤ size) × (n < 2 ^ 31) ⊎ (size < n) × (size < 2 ^ 31) ⊎ (2 ^ 31 ≤ size) × (2 ^ 31 ≤ n)
Sizes-cases n size = elim (Bool-cases (ltb n (2 ^ 31))) [
  | inl below ↦
      let k = ltb→lt n (2 ^ 31) below in
      elim (Bool-cases (leb n size)) [
        | inl fits ↦ inl (leb→le n size fits, k)
        | inr over ↦ let h = leb→lt n size over in inr (inl (h, omega arith))
      ]
  | inr above ↦
      let k = ltb→le n (2 ^ 31) above in
      elim (Bool-cases (ltb size (2 ^ 31))) [
        | inl small ↦ let h = ltb→lt size (2 ^ 31) small in inr (inl (omega arith, h))
        | inr large ↦ let h = ltb→le size (2 ^ 31) large in inr (inr (h, k))
      ]
]

-- setFile of a file that cannot be opened returns false and changes nothing. Of one with a size, let the
-- reads return some bytes. If they are less than 2 ^ 31 and fit into the size, it sets the body to them,
-- one after another, followed by zeros up to the size, and changes nothing else. If they are more than
-- the size, which is less than 2 ^ 31, it writes past the end of the body. If both are 2 ^ 31 or more,
-- its counter overflows, or it writes past the end of the body before that.
pub set_file_lem :
    (size : ℕ) (chunks : List Bytes) (r : HttpResponse)
    → let whole = joined chunks in
      let result = set_file (some (size, chunks)) r in
      (set_file none r ≡ ok (false, r))
      × ((length whole ≤ size)
            × (length whole < 2 ^ 31)
            × (result ≡ ok (true, set_body (whole ++ replicate (size - length whole) 0) r))
          ⊎ (size < length whole) × (size < 2 ^ 31) × (result ≡ err out_of_bounds)
          ⊎ (2 ^ 31 ≤ size) × (2 ^ 31 ≤ length whole) × IsTooMuch result)
unfolding set_file
set_file_lem size chunks r = (
  refl,
  elim (Sizes-cases (length (joined chunks)) size) [
    | inl (fits, few) ↦ inl (
      fits,
      few,
      set_file-read_chunks size chunks r
          (read_chunks-filled [] size chunks (omega arith) (omega arith)),
    )
    | inr (inl (over, small)) ↦ inr (
        inl (
          over,
          small,
          set_file-read_chunks size chunks r
              (read_chunks-over [] size chunks (omega arith) (omega arith) (omega arith)),
        ))
    | inr (inr (large, many)) ↦ inr (
        inr (
          large,
          many,
          ⊎_elim (λ e. inl (set_file-read_chunks size chunks r e))
              (λ e. inr (set_file-read_chunks size chunks r e))
              (read_chunks-IsTooMuch [] size chunks (omega arith) (omega arith) (omega arith)),
        ))
  ],
)
