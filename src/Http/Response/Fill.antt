-- ===== src/Http/Response/Fill.antt =====
-- The text that `fillBuffer` writes, and the numbers in it.
use native.Mathlib.Nat.{pow-succ'}
use budd.Common.{
  digits, decimal, ℕ, zero, suc, ◌+◌, ◌-◌, ◌*◌, ◌/◌, ◌%◌, ◌^◌, ◌≤◌, ◌<◌, ◌≡◌, refl, ap, sym, ◌∙◌,
  inl, inr, List, [], ◌∷◌, ◌++◌, append-nil, append_assoc, arith, length, length-append,
  length-take, take_all, Bytes, codes, ltb, Bool-cases, ltb→lt, if◌then◌else◌,
}
use budd.Outcome.{Outcome, ◌>>=◌}
use budd.Buffer.{Buffer, crlf, max_size}
use budd.Buffer.Contents.{IsValid, contents}
use budd.Buffer.Append.{Appends, append_string_lem}
use budd.Http.Dict.{Dict}
use budd.Http.Parameter.{
  HttpResponseStatusCode, status_number, unknown, continue, no_content, bad_request, not_found,
  internal_server_error,
}
use budd.Http.Request.{digits_value}
use budd.Http.Response.{
  HttpResponse, in_buf, status_start, length_line, fill_headers, fill_connection, fill_buffer,
}

-- One append after another.
Appends-bind :
    (b : Buffer) (s t : Bytes) (o : Outcome Buffer) (next : Buffer → Outcome Buffer)
    → Appends b s o
    → ((b' : Buffer) → IsValid b' → Appends b' t (next b'))
    → Appends b (s ++ t) (o >>= next)
Appends-bind b s t o next (inl (b₁, e, v, held, grows)) then_t = elim (then_t b₁ v) [
  | inl (b₂, e', v', held', grows') ↦ inl (
    b₂,
    rw (e, ◌>>=◌) e',
    v',
    held' ∙ ap (λ x. x ++ t) held ∙ append_assoc (contents b) s t,
    omega (arith, length-append s t),
  )
  | inr (e', over) ↦ inr (rw (e, ◌>>=◌) e', omega (arith, length-append s t))
]
Appends-bind b s t o next (inr (e, over)) then_t =
    inr (rw (e, ◌>>=◌) refl, omega (arith, length-append s t))

abbrev pub headers_text : List (Bytes × Bytes) → Bytes
headers_text [] = []
headers_text ((k, v) ∷ hs) = k ++ (codes ": " ++ (v ++ (crlf ++ headers_text hs)))

abbrev pub connection_text : HttpResponse → Bytes
connection_text r =
    if r.close
    then codes "Connection: close\r\n"
    else length_line r ++ codes "Connection: Keep-Alive\r\n"

-- The response as a text: the status line, the header lines, an empty line and the body.
abbrev pub text : HttpResponse → List (Bytes × Bytes) → Bytes
text r hs =
    status_start r
    ++ (r.status_message ++ (crlf ++ (connection_text r ++ (headers_text hs ++ (crlf ++ r.body)))))

tenth : (k n : ℕ) → n < 10 ^ suc k → n / 10 < 10 ^ k
tenth k n h = omega (arith, pow-succ' 10 k)

-- A number below `10 ^ k` has at most `k` digits.
length-digits : (fuel k n : ℕ) → n < 10 ^ suc k → length (digits fuel n) ≤ suc k
unfolding digits
length-digits zero k n small = omega arith
length-digits (suc fuel) zero n small = ground arith
length-digits (suc fuel) (suc k) n small = ground (
  arith,
  length-digits fuel k (n / 10) (tenth (suc k) n small),
  length-append (digits fuel (n / 10)) ((b'0' + n % 10) ∷ []),
)

abbrev AreDigits : Bytes → Type 0
AreDigits [] = Unit {0}
AreDigits (c ∷ cs) = (b'0' ≤ c × c ≤ b'9') × AreDigits cs

AreDigits-append : (xs ys : Bytes) → AreDigits xs → AreDigits ys → AreDigits (xs ++ ys)
AreDigits-append [] ys h k = k
AreDigits-append (x ∷ xs) ys h k = (h.0, AreDigits-append xs ys h.1 k)

digits-AreDigits : (fuel n : ℕ) → AreDigits (digits fuel n)
unfolding digits
digits-AreDigits zero n = tt
digits-AreDigits (suc fuel) n = elim (Bool-cases (ltb n 10)) [
  | inl few ↦ rw few (((omega arith, omega (arith, ltb→lt _ _ few)), tt))
  | inr many ↦ rw many (
      AreDigits-append (digits fuel (n / 10)) _ (digits-AreDigits fuel (n / 10))
        ((omega arith, omega arith), tt))
]

digits_value-snoc :
    (acc : ℕ) (ds : Bytes) (d : ℕ)
    → AreDigits ds
    → d < 10
    → digits_value acc (ds ++ (b'0' + d) ∷ []) ≡ digits_value acc ds * 10 + d
unfolding digits_value
digits_value-snoc acc [] d h small = ground arith
digits_value-snoc acc (c ∷ ds) d h small =
    ground (arith, digits_value-snoc (acc * 10 + (c - b'0')) ds d h.1 small, h.0.0, h.0.1)

-- The digits that are printed stand for the number.
digits_value-digits : (fuel n : ℕ) → n < 10 ^ suc fuel → digits_value 0 (digits (suc fuel) n) ≡ n
unfolding digits digits_value
digits_value-digits zero n h = ground arith
digits_value-digits (suc fuel) n h = elim (Bool-cases (ltb n 10)) [
  | inl few ↦ rw few (ground (arith, ltb→lt _ _ few))
  | inr many ↦ rw many (
      digits_value-snoc 0 (digits (suc fuel) (n / 10)) (n % 10)
        (digits-AreDigits (suc fuel) (n / 10)) (omega arith)
      ∙ ap (λ m. m * 10 + n % 10) (digits_value-digits fuel (n / 10) (tenth (suc fuel) n h))
      ∙ omega arith)
]

-- The number that a response announces is the one that `std::stoi` reads back.
pub digits_value-decimal : (n : ℕ) → n < 2 ^ 64 → digits_value 0 (decimal n) ≡ n
digits_value-decimal n h = digits_value-digits 19 n (omega arith)

fill_headers-Appends :
    (b : Buffer) (hs : List (Bytes × Bytes))
    → IsValid b
    → length (headers_text hs) ≤ max_size
    → Appends b (headers_text hs) (fill_headers b hs)
unfolding fill_headers
fill_headers-Appends b [] v small = inl (b, refl, v, sym (append-nil (contents b)), omega arith)
fill_headers-Appends b ((k, value) ∷ hs) v small =
    Appends-bind b k _ _ _ (append_string_lem b k v (omega (arith, l₁))) λ b₁ v₁.
      Appends-bind b₁ (codes ": ") _ _ _ (append_string_lem b₁ (codes ": ") v₁ (omega arith))
        λ b₂ v₂.
          Appends-bind b₂ value _ _ _ (append_string_lem b₂ value v₂ (omega (arith, l₁, l₂)))
            λ b₃ v₃.
              Appends-bind b₃ crlf _ _ _ (append_string_lem b₃ crlf v₃ (omega arith))
                λ b₄ v₄. fill_headers-Appends b₄ hs v₄ (omega (arith, l₁, l₂))
  where
    rest : Bytes
    rest = crlf ++ headers_text hs

    l₁ : length (k ++ (codes ": " ++ (value ++ rest))) ≡ length k + (2 + length (value ++ rest))
    l₁ = omega (arith, length-append k (codes ": " ++ (value ++ rest)))

    l₂ : length (value ++ rest) ≡ length value + (2 + length (headers_text hs))
    l₂ = omega (arith, length-append value rest)

status_number-small : (c : HttpResponseStatusCode) → status_number c < 10 ^ 3
status_number-small unknown = omega arith
status_number-small continue = omega arith
status_number-small HttpResponseStatusCode.ok = omega arith
status_number-small no_content = omega arith
status_number-small bad_request = omega arith
status_number-small not_found = omega arith
status_number-small internal_server_error = omega arith

module _ (r : HttpResponse) where
  -- Neither line is cut by `snprintf`.
  status_start-fits : in_buf (status_start r) ≡ status_start r
  status_start-fits = take_all 31 (status_start r) (omega (arith, digits_few, all))
    where
      digits_few : length (decimal (status_number r.status_code)) ≤ 3
      digits_few =
          length-digits 20 2 (status_number r.status_code) (status_number-small r.status_code)

      all : length (status_start r) ≡ 9 + (length (decimal (status_number r.status_code)) + 1)
      all = omega (arith, length-append (decimal (status_number r.status_code)) (codes " "))

  length_line-fits : length r.body < 10 ^ 13 → in_buf (length_line r) ≡ length_line r
  length_line-fits h = take_all 31 (length_line r) (omega (arith, digits_few, all))
    where
      digits_few : length (decimal (length r.body)) ≤ 13
      digits_few = length-digits 20 12 (length r.body) h

      all : length (length_line r) ≡ 16 + (length (decimal (length r.body)) + 2)
      all = omega (arith, length-append (decimal (length r.body)) crlf)

  fill_connection-Appends :
      (b : Buffer)
      → IsValid b
      → length r.body < 10 ^ 13
      → Appends b (connection_text r) (fill_connection r b)
  unfolding fill_connection
  fill_connection-Appends b v h = elim (Bool-cases r.close) [
    | inl closing ↦ rw closing (append_string_lem b (codes "Connection: close\r\n") v (omega arith))
    | inr staying ↦
        rw (staying, length_line-fits h)
          (Appends-bind b (length_line r) _ _ _
            (append_string_lem b (length_line r) v (omega (arith, short)))
            λ b' v'. append_string_lem b' (codes "Connection: Keep-Alive\r\n") v' (omega arith))
  ]
    where
      short : length (length_line r) ≤ 31
      short = omega (arith, ap length (length_line-fits h), length-take 31 (length_line r))

  -- `fillBuffer` appends to a valid buffer exactly the text of the response, in whichever order the
  -- map lists the headers, or it throws `length_error`, and only if the vector would have to pass
  -- its largest size. The body is shorter than 10 ^ 13 bytes, so that no line is cut, and the
  -- message and the headers are as long as strings may be.
  pub fill_buffer_lem :
      (listing : Dict Bytes → List (Bytes × Bytes)) (b : Buffer)
      → IsValid b
      → length r.body < 10 ^ 13
      → length r.status_message ≤ max_size
      → length (headers_text (listing r.headers)) ≤ max_size
      → Appends b (text r (listing r.headers)) (fill_buffer listing r b)
  unfolding fill_buffer
  fill_buffer_lem listing b v h message_small headers_small = rw status_start-fits (
      Appends-bind b (status_start r) _ _ _
        (append_string_lem b (status_start r) v (omega (arith, short)))
        λ b₁ v₁.
          Appends-bind b₁ r.status_message _ _ _
            (append_string_lem b₁ r.status_message v₁ message_small)
            λ b₂ v₂.
              Appends-bind b₂ crlf _ _ _ (append_string_lem b₂ crlf v₂ (omega arith)) λ b₃ v₃.
                Appends-bind b₃ (connection_text r) _ _ _ (fill_connection-Appends b₃ v₃ h) λ b₄ v₄.
                  Appends-bind b₄ (headers_text (listing r.headers)) _ _ _
                    (fill_headers-Appends b₄ (listing r.headers) v₄ headers_small)
                    λ b₅ v₅.
                      Appends-bind b₅ crlf _ _ _ (append_string_lem b₅ crlf v₅ (omega arith))
                        λ b₆ v₆. append_string_lem b₆ r.body v₆ (omega (arith, h)))
    where
      short : length (status_start r) ≤ 31
      short = omega (arith, ap length status_start-fits, length-take 31 (status_start r))
