-- ===== src/Http/Parser/RoundTrip.antt =====
-- The parser reads back what `Message` prints, line by line.
use budd.Common.{
  ℕ, suc, ◌+◌, ◌≡◌, ◌≢◌, refl, ap, Bool, true, false, some, List, [], ◌∷◌, ◌++◌, arith, length,
  length-append, take-append_self, drop-append_self, drop-append_past, drop-drop, take_all, Bytes,
  equal, Lacks, find-append, find-Lacks, leb, le→leb, inside_test, end_test,
}
use budd.Outcome.{ok}
use budd.Buffer.{crlf}
use budd.Buffer.Crlf.{search_in-line}
use budd.Http.Dict.{assign}
use budd.Http.Parameter.{HttpMethod, get, post, put, delete, head}
use budd.Http.Request.{HttpRequest, set_method, set_header}
use budd.Http.Parser.{
  HttpParseState, expect_start_line, expect_header_line, parse_line, parse_query_param,
  parse_target, parse_version, parse_after_method, parse_start_line, header_value, end_headers,
  parse_header_line,
}
use budd.Http.Parser.Pairs.{encode, ArePlain, parse_pairs-encode, assign_all}
use budd.Http.Parser.Message.{
  Message, method_name, version, target, start_line, header_line, IsPrintable, with_start,
}
use budd.Http.Parser.Stream.{Stream, split_line, keep_line, stream_line, stream_round, stream_loop}

set_method-method_name :
    (m : HttpMethod) (r : HttpRequest)
    → m ≢ HttpMethod.none
    → set_method (method_name m) r ≡ (true, record r { method = m })
unfolding set_method equal
set_method-method_name HttpMethod.none r h = absurd (h refl)
set_method-method_name get r h = refl
set_method-method_name post r h = refl
set_method-method_name put r h = refl
set_method-method_name delete r h = refl
set_method-method_name head r h = refl

pub method_name-Lacks : (m : HttpMethod) → Lacks b' ' (method_name m) × Lacks b'\r' (method_name m)
method_name-Lacks HttpMethod.none = (tt, tt)
method_name-Lacks get = omega arith
method_name-Lacks post = omega arith
method_name-Lacks put = omega arith
method_name-Lacks delete = omega arith
method_name-Lacks head = omega arith

parse_version-version :
    (st : HttpParseState) (newer : Bool) (r : HttpRequest)
    → parse_version st (version newer) r
      ≡ (true, expect_header_line, record r { http_version = version newer })
unfolding parse_version equal
parse_version-version st false r = refl
parse_version-version st true r = refl

parse_target-target :
    (path : Bytes) (qs : List (Bytes × Bytes)) (r : HttpRequest)
    → Lacks b'?' path
    → ArePlain qs
    → parse_target (target path qs) r
      ≡ ok (true, record r { url = target path qs; path = path; query = assign_all r.query qs })
unfolding parse_target parse_query_param
parse_target-target path [] r h k =
    rw (find-Lacks b'?' path h, end_test path, take_all (length path) path (omega arith))
parse_target-target path (q ∷ qs) r h k = rw (
  find-append b'?' path (encode q qs) h,
  inside_test path (encode q qs) b'?',
  take-append_self path (b'?' ∷ encode q qs),
  drop-append_past path b'?' (encode q qs),
  parse_pairs-encode q qs r.query k.0 k.1,
)

parse_after_method-target :
    (m : Message) (st : HttpParseState) (r : HttpRequest)
    → IsPrintable m
    → parse_after_method st (target m.path m.query ++ b' ' ∷ version m.newer) r
      ≡ ok (true, expect_header_line, record (with_start m r) { method = r.method })
unfolding parse_after_method
parse_after_method-target m st r p =
    let word = target m.path m.query in
    rw
      (
        find-append b' ' word (version m.newer) p.target_one_word,
        inside_test word (version m.newer) b' ',
        take-append_self word (b' ' ∷ version m.newer),
        drop-append_past word b' ' (version m.newer),
        parse_target-target m.path m.query r p.path_plain p.query_plain,
      )
      (ap ok (parse_version-version st m.newer _))

pub parse_start_line-start_line :
    (m : Message) (st : HttpParseState) (r : HttpRequest)
    → IsPrintable m
    → parse_start_line st (start_line m) r ≡ ok (true, expect_header_line, with_start m r)
unfolding parse_start_line
parse_start_line-start_line m st r p =
    let name = method_name m.method in
    let rest = target m.path m.query ++ b' ' ∷ version m.newer in
    rw
      (
        find-append b' ' name rest (method_name-Lacks m.method).0,
        inside_test name rest b' ',
        take-append_self name (b' ' ∷ rest),
        drop-append_past name b' ' rest,
        set_method-method_name m.method r p.known,
      )
      (parse_after_method-target m st (record r { method = m.method }) p)

pub parse_header_line-header_line :
    (st : HttpParseState) (k v : Bytes) (r : HttpRequest)
    → Lacks b':' k
    → parse_header_line st (header_line (k, v)) r
      ≡ ok (true, st, record r { headers = assign k v r.headers })
unfolding parse_header_line header_value set_header
parse_header_line-header_line st k v r h =
    let text = header_line (k, v) in
    let long : leb (length k + 2) (length text) ≡ true =
      le→leb _ _ (omega (arith, length-append k (b':' ∷ b' ' ∷ v))) in
    rw (
      find-append b':' k (b' ' ∷ v) h,
      inside_test k (b' ' ∷ v) b':',
      long,
      take-append_self k (b':' ∷ b' ' ∷ v),
      ← drop-drop 2 (length k) text,
      drop-append_self k (b':' ∷ b' ' ∷ v),
    )

pub parse_header_line_end :
    (st : HttpParseState) (r : HttpRequest) → parse_header_line st [] r ≡ end_headers r
unfolding parse_header_line
parse_header_line_end st r = rw (find-Lacks b':' [] tt)

pub split_line-line :
    (line rest : Bytes) → Lacks b'\r' line → split_line (line ++ (crlf ++ rest)) ≡ some (line, rest)
unfolding split_line
split_line-line line rest h =
    let text = line ++ (crlf ++ rest) in
    rw (
      search_in-line line rest h,
      inside_test line (b'\n' ∷ rest) b'\r',
      take-append_self line (crlf ++ rest),
      ← drop-drop 2 (length line) text,
      drop-append_self line (crlf ++ rest),
    )

module _ (line rest : Bytes) (one : Lacks b'\r' line) (r r' : HttpRequest)
    (st' : HttpParseState) where
  abbrev pub at : Bool → HttpParseState → Stream
  at success st = record {
    is_success = success;
    rest = line ++ (crlf ++ rest);
    state = st;
    request = r;
  }

  abbrev pub behind : Stream
  behind = record { is_success = true; rest = rest; state = st'; request = r' }

  stream_line-line :
      (success : Bool) (st : HttpParseState)
      → parse_line st line r ≡ ok (true, st', r')
      → stream_line st (at success st) ≡ ok (true, behind)
  unfolding stream_line keep_line
  stream_line-line success st e = rw (split_line-line line rest one, stream_line) (rw e)

  pub start_line_step :
      (fuel : ℕ) (success : Bool)
      → parse_line expect_start_line line r ≡ ok (true, st', r')
      → stream_loop (suc fuel) (at success expect_start_line) ≡ stream_loop fuel behind
  unfolding stream_loop stream_round
  start_line_step fuel success e = rw (stream_line-line success expect_start_line e)

  pub header_line_step :
      (fuel : ℕ) (success : Bool)
      → parse_line expect_header_line line r ≡ ok (true, st', r')
      → stream_loop (suc fuel) (at success expect_header_line) ≡ stream_loop fuel behind
  unfolding stream_loop stream_round
  header_line_step fuel success e = rw (stream_line-line success expect_header_line e)
