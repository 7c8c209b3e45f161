-- ===== src/Http/Parser/Refine.antt =====
-- `parse` sees of the buffer only its contents.
use budd.Common.{
  ℕ, zero, suc, ◌+◌, ◌-◌, ◌≤◌, ◌<◌, ◌≡◌, inl, inr, refl, ap, sym, ◌∙◌, [], Bool, true, false, none,
  some, arith, length, take, drop, slice, take-take, length-drop, ◌==◌, Bool-cases,
}
use budd.Outcome.{Outcome, ok, err, ◌>>=◌, Outcome-cases}
use budd.Buffer.{Buffer, crlf, search_in, find_crlf, retrieve_all, readable_bytes}
use mathlib.Core.List.{◌∷◌}
use budd.Buffer.Contents.{IsValid, contents, length-contents, readable_bytes-eq}
use budd.Buffer.Retrieve.{retrieve_until-Leaves, retrieve_all-IsValid}
use budd.Buffer.Crlf.{search_in_found, search_in-le, begins-splits}
use budd.Http.Request.{HttpRequest}
use budd.Http.Parser.{
  HttpParseState, expect_start_line, expect_header_line, expect_body, Parsed, Progress,
  parse_form_body, after_line, line_round, body_round, round_in, parse_loop, parse,
}
use budd.Http.Parser.Stream.{
  Stream, split_line, keep_line, stream_line, stream_body, stream_round, stream_loop, stream_parse,
}

-- The loop's variables with the contents in place of the buffer.
abbrev pub view : Progress → Stream
view p = record {
  is_success = p.is_success;
  rest = contents p.buffer;
  state = p.state;
  request = p.request;
}

-- The rounds agree: they fault alike, or go on alike with a valid buffer that holds the stream.
abbrev RoundAgrees : Outcome (Bool × Progress) → Outcome (Bool × Stream) → Type 0
RoundAgrees (ok (more, p)) o = (o ≡ ok (more, view p)) × IsValid p.buffer
RoundAgrees (err e) o = o ≡ err e

abbrev pub Agrees : Outcome Progress → Outcome Stream → Type 0
Agrees (ok p) o = (o ≡ ok (view p)) × IsValid p.buffer
Agrees (err e) o = o ≡ err e

-- `findCrlf` and the first line of the contents.
record FoundLine (b : Buffer) (at : ℕ) : Type 0 where
  line_is : slice b.buffer b.reader_index at ≡ take (search_in crlf (contents b)) (contents b)
  after : b.reader_index ≤ at + 2
  before : at + 2 ≤ b.writer_index
  steps : at + 2 - b.reader_index ≡ search_in crlf (contents b) + 2

found_line :
    (b : Buffer)
    → IsValid b
    → search_in crlf (contents b) < length (contents b)
    → FoundLine b (b.reader_index + search_in crlf (contents b))
found_line b v h = record {
  line_is =
      ap (λ k. take k (drop r b.buffer)) whole
      ∙ sym (take-take n (b.writer_index - r) (drop r b.buffer) (omega (arith, len)));
  after = omega arith;
  before = omega (arith, len, room, v.ordered);
  steps = omega arith;
}
  where
    open b use {reader_index as r}

    n : ℕ
    n = search_in crlf (contents b)

    whole : r + n - r ≡ n
    whole = omega arith

    len : length (contents b) ≡ b.writer_index - r
    len = omega (arith, length-contents b v, readable_bytes-eq b v)

    room : n + 2 ≤ length (contents b)
    room = omega (
      arith,
      ap length (
          begins-splits crlf (drop n (contents b))
            (search_in_found b'\r' (b'\n' ∷ []) (contents b) h)),
      length-drop n (contents b),
    )

module _ (p : Progress) (v : IsValid p.buffer) where
  open p use {buffer as b}

  abbrev n : ℕ
  n = search_in crlf (contents b)

  after_line-Agrees :
      (parsed : Parsed)
      → FoundLine b (b.reader_index + n)
      → RoundAgrees
          (after_line b (b.reader_index + n) parsed)
          (ok (keep_line (contents b) (drop (n + 2) (contents b)) parsed))
  unfolding after_line keep_line
  after_line-Agrees (true, st, r) f =
      let (b', e, valid, left, no_later) =
        retrieve_until-Leaves b v (b.reader_index + n + 2) f.after f.before in
      rw (e, ◌>>=◌) (rw (left, f.steps) (refl, valid))
  after_line-Agrees (false, st, r) f = (refl, v)

  parsed-Agrees :
      (o : Outcome Parsed)
      → FoundLine b (b.reader_index + n)
      → RoundAgrees
          (o >>= λ parsed. after_line b (b.reader_index + n) parsed)
          (o >>= λ parsed. ok (keep_line (contents b) (drop (n + 2) (contents b)) parsed))
  parsed-Agrees (ok parsed) f = after_line-Agrees parsed f
  parsed-Agrees (err e) f = refl

  -- The test of `findCrlf` is that of `split_line`.
  same_test : (b.reader_index + n == b.writer_index) ≡ (n == length (contents b))
  same_test =
      let len : length (contents b) ≡ b.writer_index - b.reader_index =
        omega (arith, length-contents b v, readable_bytes-eq b v) in
      let ordered = v.ordered in ground arith

  find_crlf-none : (n == length (contents b)) ≡ true → find_crlf b ≡ none
  unfolding find_crlf
  find_crlf-none end = rw (same_test, end)

  find_crlf-some : (n == length (contents b)) ≡ false → find_crlf b ≡ some (b.reader_index + n)
  unfolding find_crlf
  find_crlf-some inside = rw (same_test, inside)

  line_round-Agrees :
      (st : HttpParseState) → RoundAgrees (line_round st p) (stream_line st (view p))
  unfolding line_round stream_line split_line
  line_round-Agrees st = elim (Bool-cases (n == length (contents b))) [
    | inl end ↦ rw (find_crlf-none end, line_round, end, stream_line) (refl, v)
    | inr inside ↦
        let lt : n < length (contents b) =
          ground (arith, search_in-le b'\r' (b'\n' ∷ []) (contents b)) in
        let f = found_line b v lt in
        rw (find_crlf-some inside, line_round, inside, stream_line)
          (rw f.line_is (parsed-Agrees _ f))
  ]

  body_round-Agrees : RoundAgrees (body_round p) (stream_body (view p))
  unfolding body_round stream_body
  body_round-Agrees = elim (Outcome-cases (parse_form_body expect_body (contents b) p.request)) [
    | inl ((true, st, r), e) ↦ rw e (unfold retrieve_all in (refl, retrieve_all-IsValid b v))
    | inl ((false, st, r), e) ↦ rw e (refl, v)
    | inr (e, h) ↦ rw h refl
  ]

  round_in-Agrees : (st : HttpParseState) → RoundAgrees (round_in st p) (stream_round st (view p))
  unfolding round_in stream_round
  round_in-Agrees expect_start_line = line_round-Agrees expect_start_line
  round_in-Agrees expect_header_line = line_round-Agrees expect_header_line
  round_in-Agrees expect_body = body_round-Agrees
  round_in-Agrees _ = (refl, v)

resume-Agrees :
    (fuel : ℕ)
    → ((q : Progress) → IsValid q.buffer → Agrees (parse_loop fuel q) (stream_loop fuel (view q)))
    → (o : Outcome (Bool × Progress)) (o' : Outcome (Bool × Stream)) → RoundAgrees o o'
    → Agrees
        (o >>= λ (more, q). elim more [ true ↦ parse_loop fuel q | false ↦ ok q ])
        (o' >>= λ (more, s). elim more [ true ↦ stream_loop fuel s | false ↦ ok s ])
resume-Agrees fuel later (ok (true, q)) o' (e, w) = rw e (later q w)
resume-Agrees fuel later (ok (false, q)) o' (e, w) = rw e (refl, w)
resume-Agrees fuel later (err f) o' e = rw e refl

parse_loop-Agrees :
    (fuel : ℕ) (p : Progress)
    → IsValid p.buffer
    → Agrees (parse_loop fuel p) (stream_loop fuel (view p))
unfolding parse_loop stream_loop
parse_loop-Agrees zero p v = refl
parse_loop-Agrees (suc fuel) p v =
    resume-Agrees fuel (λ q w. parse_loop-Agrees fuel q w) (round_in p.state p)
      (stream_round p.state (view p)) (round_in-Agrees p v p.state)

-- `parse` on a valid buffer does what the same loop does on the string of its contents, wherever
-- the contents stand in the vector: it faults alike, or returns the same result, parser state and
-- request, and leaves a valid buffer with the bytes that the loop leaves.
pub parse-Agrees :
    (b : Buffer) (st : HttpParseState) (r : HttpRequest)
    → IsValid b
    → Agrees (parse b st r) (stream_parse (contents b) st r)
unfolding parse stream_parse
parse-Agrees b st r v = rw (length-contents b v) (
    parse_loop-Agrees (suc (readable_bytes b))
      (record { is_success = false; buffer = b; state = st; request = r }) v)
