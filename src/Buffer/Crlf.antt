-- ===== src/Buffer/Crlf.antt =====
-- `findCrlf` finds the first line break of the contents, if there is one.
use budd.Common.{
  ℕ, zero, suc, ◌+◌, ◌≤◌, ◌<◌, ◌≡◌, inl, inr, refl, ap, sym, ◌∙◌, [], ◌∷◌, ◌++◌, Option, none, some,
  true, false, arith, length, take, drop, length-take, take-append-drop, Bytes, Lacks, ltb, ltb→lt,
  ltb→le, drop_all, ◌==◌, ==_iff, Bool-cases,
}
use budd.Buffer.{Buffer, crlf, begins, search_in, find_crlf}
use budd.Buffer.Contents.{IsValid, contents, length-contents, readable_bytes-eq}

pub begins-splits : (pat t : Bytes) → begins pat t ≡ true → t ≡ pat ++ drop (length pat) t
unfolding begins
begins-splits [] t h = refl
begins-splits (p ∷ ps) [] h = cc
begins-splits (p ∷ ps) (c ∷ cs) h = ground (arith, begins-splits ps cs)

module _ (p : ℕ) (ps : Bytes) where
  pub search_in-le : (t : Bytes) → search_in (p ∷ ps) t ≤ length t
  unfolding search_in
  search_in-le [] = omega arith
  search_in-le (c ∷ cs) = ground (arith, search_in-le cs)

  -- Nothing is found before the place that is returned.
  pub search_in_first :
      (t : Bytes) (k : ℕ) → k < search_in (p ∷ ps) t → begins (p ∷ ps) (drop k t) ≡ false
  unfolding search_in
  search_in_first [] k h = absurd (omega arith)
  search_in_first (c ∷ cs) zero h = ground arith
  search_in_first (c ∷ cs) (suc k) h = ground (arith, search_in_first cs k)

  -- There the pattern stands, unless it is the end.
  pub search_in_found :
      (t : Bytes)
      → search_in (p ∷ ps) t < length t
      → begins (p ∷ ps) (drop (search_in (p ∷ ps) t) t) ≡ true
  unfolding search_in
  search_in_found [] h = absurd (omega arith)
  search_in_found (c ∷ cs) h = ground (arith, search_in_found cs)

-- Where it is the end, the pattern stands nowhere.
search_in_none :
    (p : ℕ) (ps t : Bytes) (k : ℕ)
    → search_in (p ∷ ps) t ≡ length t
    → begins (p ∷ ps) (drop k t) ≡ false
search_in_none p ps t k h = elim (Bool-cases (ltb k (length t))) [
  | inl inside ↦ search_in_first p ps t k (omega (arith, ltb→lt _ _ inside))
  | inr past ↦ rw (drop_all k t (ltb→le _ _ past)) (unfold begins in refl)
]

-- How the contents split at the first line break, or that there is none.
abbrev pub Finds : Buffer → Option ℕ → Type 0
Finds b none = (k : ℕ) → begins crlf (drop k (contents b)) ≡ false
Finds b (some at) =
    (line : Bytes) × (rest : Bytes) × (at ≡ b.reader_index + length line)
    × (contents b ≡ line ++ (crlf ++ rest))
    × ((k : ℕ) → k < length line → begins crlf (drop k (contents b)) ≡ false)

-- `findCrlf` of a valid buffer points to the first line break of the contents, which then split
-- there, and returns the null pointer exactly where they have none.
pub find_crlf-Finds : (b : Buffer) → IsValid b → Finds b (find_crlf b)
unfolding find_crlf
find_crlf-Finds b v =
    elim (Bool-cases (b.reader_index + search_in crlf (contents b) == b.writer_index)) [
      | inl end ↦ rw end (λ k. search_in_none b'\r' (b'\n' ∷ []) (contents b) k (
          omega (arith, length-contents b v, readable_bytes-eq b v, (==_iff _ _).0 end, v.ordered)))
      | inr inside ↦ rw inside (
          let t = contents b in
          let n = search_in crlf t in
          let bound = search_in-le b'\r' (b'\n' ∷ []) t in
          let lt : n < length t =
            ground (arith, bound, inside, length-contents b v, readable_bytes-eq b v, v.ordered) in
          let len : length (take n t) ≡ n = omega (arith, length-take n t) in
          (
            take n t,
            drop 2 (drop n t),
            omega arith,
            sym (take-append-drop n t)
                ∙ ap (◌++◌ (take n t))
                    (begins-splits crlf (drop n t) (search_in_found b'\r' (b'\n' ∷ []) t lt)),
            λ k h. search_in_first b'\r' (b'\n' ∷ []) t k (omega arith),
          ))
    ]

-- A text with no carriage return has no break, and the search ends at its end.
pub search_in-Lacks : (text : Bytes) → Lacks b'\r' text → search_in crlf text ≡ length text
unfolding search_in begins
search_in-Lacks [] h = refl
search_in-Lacks (c ∷ cs) h = ground (arith, search_in-Lacks cs h.1)

-- It finds the break behind a line that has no carriage return.
pub search_in-line :
    (line rest : Bytes) → Lacks b'\r' line → search_in crlf (line ++ (crlf ++ rest)) ≡ length line
unfolding search_in begins
search_in-line [] rest h = refl
search_in-line (c ∷ cs) rest h = ground (arith, search_in-line cs rest h.1)
