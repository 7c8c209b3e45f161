-- ===== src/Http/Parser/Pairs.antt =====
-- `k=v&k=v`: the loop ends, and reads back what such a text was made from.
use budd.Common.{
  ℕ, zero, suc, ◌+◌, ◌<◌, ◌≡◌, inl, inr, ap, Bool, true, false, List, [], ◌∷◌, ◌++◌, arith, length,
  take, drop, length-drop, length-append, Bytes, Lacks, find, find-append, find-Lacks, find-le,
  take-append_self, drop-append_past, Lacks-append, ◌==◌, Bool-cases,
}
use budd.Outcome.{ok, ◌>>=◌}
use budd.Http.Dict.{Dict, assign}
use budd.Http.Parser.{pairs_loop, last_pair, parse_pairs}

-- With more fuel than bytes the loop ends by one of its tests.
pairs_loop_total :
    (fuel : ℕ) (text : Bytes) (d : Dict Bytes)
    → length text < fuel
    → (r : Bool × Bytes × Dict Bytes) × (pairs_loop fuel text d ≡ ok r)
unfolding pairs_loop
pairs_loop_total zero text d h = absurd (omega arith)
pairs_loop_total (suc fuel) text d h = elim (Bool-cases (find b'&' text == length text)) [
  | inl end ↦ ((true, text, d), rw end)
  | inr more ↦ elim (Bool-cases (eq == length pair)) [
    | inl bad ↦ ((false, text, d), rw (more, bad))
    | inr good ↦
        let (r, e) =
          pairs_loop_total fuel (drop (suc et) text) (assign (take eq pair) (drop (suc eq) pair) d)
            (ground (arith, length-drop (suc et) text, find-le b'&' text)) in
        (r, rw (more, good) e)
  ]
]
  where
    et : ℕ
    et = find b'&' text

    pair : Bytes
    pair = take et text

    eq : ℕ
    eq = find b'=' pair

pub parse_pairs_total :
    (text : Bytes) (d : Dict Bytes) → (r : Bool × Dict Bytes) × (parse_pairs text d ≡ ok r)
unfolding parse_pairs
parse_pairs_total text d =
    let ((success, rest, d'), e) = pairs_loop_total (suc (length text)) text d (omega arith) in
    (last_pair success rest d', rw e)

-- A pair as it is sent.
abbrev pub encode_pair : Bytes × Bytes → Bytes
encode_pair (k, v) = k ++ b'=' ∷ v

-- Pairs as they are sent, the first of them apart.
abbrev pub encode : Bytes × Bytes → List (Bytes × Bytes) → Bytes
encode p [] = encode_pair p
encode p (q ∷ qs) = encode_pair p ++ b'&' ∷ encode q qs

abbrev pub IsPlain : Bytes × Bytes → Type 0
IsPlain (k, v) = Lacks b'=' k × Lacks b'&' k × Lacks b'&' v

abbrev pub ArePlain : List (Bytes × Bytes) → Type 0
ArePlain [] = Unit {0}
ArePlain (p ∷ ps) = IsPlain p × ArePlain ps

-- The map after assigning the pairs in order.
abbrev pub assign_all : Dict Bytes → List (Bytes × Bytes) → Dict Bytes
assign_all d [] = d
assign_all d ((k, v) ∷ ps) = assign_all (assign k v d) ps

module _ (k v : Bytes) (plain : IsPlain (k, v)) where
  abbrev pair : Bytes
  pair = encode_pair (k, v)

  Lacks-pair : Lacks b'&' pair
  Lacks-pair = Lacks-append b'&' k (b'=' ∷ v) plain.1 (λ e. omega arith, plain.2)

  length-pair : length pair ≡ length k + suc (length v)
  length-pair = length-append k (b'=' ∷ v)

  find_equal : find b'=' pair ≡ length k
  find_equal = find-append b'=' k v plain.0

  equal_inside : (length k == length pair) ≡ false
  equal_inside = ground (arith, length-pair)

  pairs_loop-pair :
      (fuel : ℕ) (rest : Bytes) (d : Dict Bytes)
      → pairs_loop (suc fuel) (pair ++ b'&' ∷ rest) d ≡ pairs_loop fuel rest (assign k v d)
  unfolding pairs_loop
  pairs_loop-pair fuel rest d =
      let inside : (length pair == length (pair ++ b'&' ∷ rest)) ≡ false =
        ground (arith, length-append pair (b'&' ∷ rest)) in
      rw (find-append b'&' pair rest Lacks-pair) (
        rw (inside, take-append_self pair (b'&' ∷ rest), drop-append_past pair b'&' rest)
          (rw (find_equal, equal_inside, take-append_self k (b'=' ∷ v), drop-append_past k b'=' v)))

  pairs_loop_end : (fuel : ℕ) (d : Dict Bytes) → pairs_loop (suc fuel) pair d ≡ ok (true, pair, d)
  unfolding pairs_loop
  pairs_loop_end fuel d =
      let end : (length pair == length pair) ≡ true = ground arith in
      rw (find-Lacks b'&' pair Lacks-pair, end)

  last_pair-pair : (d : Dict Bytes) → last_pair true pair d ≡ (true, assign k v d)
  unfolding last_pair
  last_pair-pair d =
      rw (find_equal, equal_inside, take-append_self k (b'=' ∷ v), drop-append_past k b'=' v)

pairs_loop-encode :
    (fuel : ℕ) (k v : Bytes) (ps : List (Bytes × Bytes)) (d : Dict Bytes)
    → length (encode (k, v) ps) < fuel
    → IsPlain (k, v)
    → ArePlain ps
    → (pairs_loop fuel (encode (k, v) ps) d >>= λ (s, rest, d'). ok (last_pair s rest d'))
      ≡ ok (true, assign_all d ((k, v) ∷ ps))
pairs_loop-encode zero k v ps d h p q = absurd (omega arith)
pairs_loop-encode (suc fuel) k v [] d h p q =
    rw (pairs_loop_end k v p fuel d) (ap ok (last_pair-pair k v p d))
pairs_loop-encode (suc fuel) k v ((k', v') ∷ ps) d h p q =
    rw (pairs_loop-pair k v p fuel (encode (k', v') ps) d) (
      pairs_loop-encode fuel k' v' ps (assign k v d)
        (omega (arith, length-append (encode_pair (k, v)) (b'&' ∷ encode (k', v') ps))) q.0 q.1)

-- A text made from pairs, keys without `=` and `&` and values without `&`, is read back: all the
-- pairs are assigned, in order, and the parsing succeeds.
pub parse_pairs-encode :
    (p : Bytes × Bytes) (ps : List (Bytes × Bytes)) (d : Dict Bytes)
    → IsPlain p
    → ArePlain ps
    → parse_pairs (encode p ps) d ≡ ok (true, assign_all d (p ∷ ps))
unfolding parse_pairs
parse_pairs-encode (k, v) ps d plain plains =
    pairs_loop-encode (suc (length (encode (k, v) ps))) k v ps d (omega arith) plain plains
