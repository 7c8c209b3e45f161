-- ===== src/Http/Parser/Ends.antt =====
-- `parse` ends, with a result or with an exception of `std::string` or `std::stoi`.
use budd.Common.{
  ℕ, zero, suc, ◌+◌, ◌-◌, ◌^◌, ◌<◌, ◌≡◌, inl, inr, refl, ap, sym, Bool, true, false, not, ◌&&◌, [],
  ◌∷◌, ◌++◌, append-nil, append_assoc, arith, length, take, drop, codes, equal, length-take,
  length-append, take-append-drop, Bytes, find, ◌==◌, if◌then◌else◌, Bool-cases,
}
use budd.Outcome.{
  Outcome, ok, err, Fault, length_error, invalid_argument, out_of_range, ◌>>=◌, Outcome-cases,
}
use budd.Buffer.{Buffer, crlf, search_in}
use budd.Buffer.Contents.{IsValid, contents}
use budd.Buffer.Crlf.{search_in-le}
use budd.Http.Request.{
  HttpRequest, stoi, stoi_signed, stoi_digits, skip_space, content_length, set_method, get_header,
}
use budd.Http.Parser.{
  HttpParseState, expect_start_line, expect_header_line, expect_body, Parsed, Progress, parse_line,
  parse_query_param, parse_target, parse_after_method, parse_start_line, header_value, end_headers,
  parse_header_line, parse_form_body, parse,
}
use budd.Http.Parser.Pairs.{parse_pairs_total}
use budd.Http.Parser.Stream.{
  Stream, split_line, keep_line, stream_line, stream_body, stream_round, stream_loop, stream_parse,
}
use budd.Http.Parser.Refine.{Agrees, parse-Agrees}

-- The faults that are exceptions of the library calls in the parser.
abbrev pub IsThrown : Fault → Type 0
IsThrown length_error = Unit
IsThrown invalid_argument = Unit
IsThrown out_of_range = Unit
IsThrown _ = ⊥

-- A call that returns or throws.
abbrev pub Ends : {A : Type 0} → Outcome A → Type 0
Ends (ok a) = Unit
Ends (err e) = IsThrown e

Ends-bind :
    {A B : Type 0} (o : Outcome A) (f : A → Outcome B)
    → Ends o
    → ((a : A) → Ends (f a))
    → Ends (o >>= f)
Ends-bind (ok a) f h k = k a
Ends-bind (err e) f h k = h

Ends-if : {A : Type 0} (b : Bool) (x y : Outcome A) → Ends x → Ends y → Ends (if b then x else y)
Ends-if true x y h k = h
Ends-if false x y h k = k

stoi_digits-Ends : (minus : Bool) (limit : ℕ) (s : Bytes) → Ends (stoi_digits minus limit s)
unfolding stoi_digits
stoi_digits-Ends minus limit [] = tt
stoi_digits-Ends minus limit (c ∷ cs) = ground arith

stoi_signed-Ends : (s : Bytes) → Ends (stoi_signed s)
unfolding stoi_signed
stoi_signed-Ends [] = tt
stoi_signed-Ends (c ∷ cs) = ground (
  arith,
  stoi_digits-Ends true (2 ^ 31) cs,
  stoi_digits-Ends false (2 ^ 31 - 1) cs,
  stoi_digits-Ends false (2 ^ 31 - 1) (c ∷ cs),
)

content_length-Ends : (r : HttpRequest) → Ends (content_length r)
unfolding content_length stoi
content_length-Ends r =
    let text = get_header (codes "Content-Length") r in
    Ends-if (equal text []) _ _ tt
      (Ends-bind (stoi text) _ (stoi_signed-Ends (skip_space text)) (λ n. tt))

end_headers-Ends : (r : HttpRequest) → Ends (end_headers r)
unfolding end_headers
end_headers-Ends r = Ends-bind (content_length r) _ (content_length-Ends r) (λ n. tt)

parse_header_line-Ends :
    (st : HttpParseState) (line : Bytes) (r : HttpRequest) → Ends (parse_header_line st line r)
unfolding parse_header_line header_value
parse_header_line-Ends st line r = ground (arith, end_headers-Ends r)

parse_target-Ends : (target : Bytes) (r : HttpRequest) → Ends (parse_target target r)
unfolding parse_target parse_query_param
parse_target-Ends target r =
    let text = drop (suc (find b'?' target)) target in
    let (p, e) = parse_pairs_total text r.query in
    Ends-if (find b'?' target == length target) _ _ tt (rw e tt)

parse_after_method-Ends :
    (st : HttpParseState) (rest : Bytes) (r : HttpRequest) → Ends (parse_after_method st rest r)
unfolding parse_after_method
parse_after_method-Ends st rest r =
    Ends-if (find b' ' rest == length rest) _ _ tt
      (Ends-bind (parse_target (take (find b' ' rest) rest) r) _ (parse_target-Ends _ r) (λ _. tt))

parse_start_line-Ends :
    (st : HttpParseState) (line : Bytes) (r : HttpRequest) → Ends (parse_start_line st line r)
unfolding parse_start_line
parse_start_line-Ends st line r =
    let (known, r') = set_method (take (find b' ' line) line) r in
    Ends-if (not (find b' ' line == length line) && known) _ _ (parse_after_method-Ends st _ r') tt

parse_line-Ends :
    (st : HttpParseState) (line : Bytes) (r : HttpRequest) → Ends (parse_line st line r)
parse_line-Ends expect_start_line = parse_start_line-Ends expect_start_line
parse_line-Ends st = parse_header_line-Ends st

parse_form_body-Ends :
    (st : HttpParseState) (text : Bytes) (r : HttpRequest) → Ends (parse_form_body st text r)
unfolding parse_form_body
parse_form_body-Ends st [] r = tt
parse_form_body-Ends st (c ∷ cs) r =
    let (p, e) = parse_pairs_total (c ∷ cs) r.form_body in ground arith

-- What a round leaves of the stream: a rest of it, a shorter one if the loop goes on.
RoundEnds : Stream → Outcome (Bool × Stream) → Type 0
RoundEnds s (ok (more, s')) =
    (taken : Bytes) × (s.rest ≡ taken ++ s'.rest) × (more ≡ true → length s'.rest < length s.rest)
RoundEnds s (err e) = IsThrown e

keep_line-RoundEnds :
    (s : Stream) (text : Bytes) (parsed : Parsed)
    → (taken : Bytes) × (s.rest ≡ taken ++ text) × (0 < length taken)
    → RoundEnds s (ok (keep_line s.rest text parsed))
unfolding keep_line RoundEnds
keep_line-RoundEnds s text (true, st, r) (taken, e, h) =
    (taken, e, λ _. omega (arith, ap length e, length-append taken text))
keep_line-RoundEnds s text (false, st, r) h = ([], refl, λ e. cc)

parsed-RoundEnds :
    (s : Stream) (text : Bytes) (o : Outcome Parsed)
    → Ends o
    → (taken : Bytes) × (s.rest ≡ taken ++ text) × (0 < length taken)
    → RoundEnds s (o >>= λ parsed. ok (keep_line s.rest text parsed))
unfolding RoundEnds
parsed-RoundEnds s text (ok parsed) h k = keep_line-RoundEnds s text parsed k
parsed-RoundEnds s text (err e) h k = h

-- A line that is found is taken out with its break.
split_line-taken :
    (text : Bytes)
    → search_in crlf text < length text
    → (taken : Bytes) × (text ≡ taken ++ drop (search_in crlf text + 2) text) × (0 < length taken)
split_line-taken text h =
    let n = search_in crlf text in
    (
      take (n + 2) text,
      sym (take-append-drop (n + 2) text),
      omega (arith, length-take (n + 2) text),
    )

stream_line-RoundEnds : (st : HttpParseState) (s : Stream) → RoundEnds s (stream_line st s)
unfolding stream_line split_line
stream_line-RoundEnds st s =
    let n = search_in crlf s.rest in
    elim (Bool-cases (n == length s.rest)) [
      | inl end ↦ rw (end, stream_line) (unfold RoundEnds in ([], refl, λ e. cc))
      | inr inside ↦
          rw (inside, stream_line)
            (parsed-RoundEnds s _ (parse_line st (take n s.rest) s.request)
              (parse_line-Ends st _ s.request)
              (split_line-taken s.rest (ground (arith, search_in-le b'\r' (b'\n' ∷ []) s.rest))))
    ]

stream_body-RoundEnds : (s : Stream) → RoundEnds s (stream_body s)
unfolding stream_body RoundEnds
stream_body-RoundEnds s = elim (Outcome-cases (parse_form_body expect_body s.rest s.request)) [
  | inl ((true, st, r), e) ↦ rw e (s.rest, sym (append-nil s.rest), λ e. cc)
  | inl ((false, st, r), e) ↦ rw e ([], refl, λ e. cc)
  | inr (f, e) ↦ rw e (rw e at (parse_form_body-Ends expect_body s.rest s.request))
]

stream_round-RoundEnds : (st : HttpParseState) (s : Stream) → RoundEnds s (stream_round st s)
unfolding stream_round
stream_round-RoundEnds expect_start_line s = stream_line-RoundEnds expect_start_line s
stream_round-RoundEnds expect_header_line s = stream_line-RoundEnds expect_header_line s
stream_round-RoundEnds expect_body s = stream_body-RoundEnds s
stream_round-RoundEnds _ s = unfold RoundEnds in ([], refl, λ e. cc)

-- The loop as a whole: what is left is a rest of what there was.
abbrev pub StreamEnds : Bytes → Outcome Stream → Type 0
StreamEnds text (ok s) = (taken : Bytes) × (text ≡ taken ++ s.rest)
StreamEnds text (err e) = IsThrown e

resume-StreamEnds :
    (fuel : ℕ) (s : Stream)
    → ((s' : Stream) → length s'.rest < length s.rest → StreamEnds s'.rest (stream_loop fuel s'))
    → (o : Outcome (Bool × Stream)) → RoundEnds s o
    → StreamEnds s.rest
        (o >>= λ (more, s'). elim more [ true ↦ stream_loop fuel s' | false ↦ ok s' ])
unfolding RoundEnds
resume-StreamEnds fuel s later (ok (false, s')) (taken, e, h) = (taken, e)
resume-StreamEnds fuel s later (ok (true, s')) (taken, e, h) =
    grow (stream_loop fuel s') (later s' (h refl))
  where
    grow : (o : Outcome Stream) → StreamEnds s'.rest o → StreamEnds s.rest o
    grow (ok t) (more, f) = (taken ++ more, rw (e, f) (sym (append_assoc taken more t.rest)))
    grow (err f) g = g
resume-StreamEnds fuel s later (err f) h = h

stream_loop-StreamEnds :
    (fuel : ℕ) (s : Stream) → length s.rest < fuel → StreamEnds s.rest (stream_loop fuel s)
unfolding stream_loop
stream_loop-StreamEnds zero s h = absurd (omega arith)
stream_loop-StreamEnds (suc fuel) s h =
    resume-StreamEnds fuel s (λ s' lt. stream_loop-StreamEnds fuel s' (omega arith))
      (stream_round s.state s) (stream_round-RoundEnds s.state s)

pub stream_parse-StreamEnds :
    (text : Bytes) (st : HttpParseState) (r : HttpRequest)
    → StreamEnds text (stream_parse text st r)
unfolding stream_parse
stream_parse-StreamEnds text st r = stream_loop-StreamEnds (suc (length text)) _ (omega arith)

-- A result leaves a valid buffer with a rest of the contents; a fault is an exception.
abbrev pub ParseEnds : Buffer → Outcome Progress → Type 0
ParseEnds b (ok p) =
    IsValid p.buffer × ((taken : Bytes) × (contents b ≡ taken ++ contents p.buffer))
ParseEnds b (err e) = IsThrown e

-- `parse` of a valid buffer always ends: its loop does not run out of its rounds, none of its
-- buffer calls fails an assertion or leaves the vector, and what it leaves is a valid buffer with
-- the contents less some first bytes. The only other end is an exception that `std::string` or
-- `std::stoi` throws.
pub parse-ParseEnds :
    (b : Buffer) (st : HttpParseState) (r : HttpRequest) → IsValid b → ParseEnds b (parse b st r)
parse-ParseEnds b st r v =
    combine (parse b st r) (parse-Agrees b st r v) (stream_parse-StreamEnds (contents b) st r)
  where
    combine :
        (o : Outcome Progress)
        → Agrees o (stream_parse (contents b) st r)
        → StreamEnds (contents b) (stream_parse (contents b) st r)
        → ParseEnds b o
    combine (ok p) (e, w) h = (w, rw e at h)
    combine (err f) e h = rw e at h
