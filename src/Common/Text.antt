-- ===== src/Common/Text.antt =====
-- Byte strings, which stand for `std::string` and for ranges of `char`.
use Prim.Native.Char.{code}
use Prim.Native.Nat.{ℕ, zero, suc, ◌+◌, ◌/◌, ◌%◌, ◌≤◌}
use Prim.Native.String.{String}
use mathlib.Core.Bool.{Bool, true, false, ◌&&◌}
use mathlib.Core.List.{List, [], ◌∷◌, ◌++◌}
use mathlib.Core.Logic.{◌↔◌, ◌≢◌}
use mathlib.Core.Path.{◌≡◌}
use native.Mathlib.Omega.{arith}
use budd.Common.Lists.{length, length-append}
use budd.Common.Tests.{◌==◌, ltb, if◌then◌else◌}

abbrev pub Bytes : Type 0
Bytes = List ℕ

-- The bytes of an ASCII literal.
abbrev pub codes : String → Bytes
codes String.[] = []
codes (String.◌∷◌ c s) = code c ∷ codes s

-- `operator==` of `std::string`, and `std::equal` on ranges of one length.
unfoldable pub equal : Bytes → Bytes → Bool
equal [] [] = true
equal [] (c ∷ right) = false
equal (c ∷ left) [] = false
equal (c ∷ left) (d ∷ right) = equal left right && c == d

pub equal_iff : (left right : Bytes) → (equal left right ≡ true) ↔ (left ≡ right)
unfolding equal
equal_iff [] [] = ground arith
equal_iff [] (d ∷ right) = ground arith
equal_iff (c ∷ left) [] = ground arith
equal_iff (c ∷ left) (d ∷ right) = ground (arith, equal_iff left right)

-- `std::find`: the index of the first byte `c`, and the length if there is none.
unfoldable pub find : ℕ → Bytes → ℕ
find c [] = 0
find c (x ∷ xs) = if x == c then 0 else suc (find c xs)

abbrev pub Lacks : ℕ → Bytes → Type 0
Lacks c [] = Unit {0}
Lacks c (x ∷ xs) = (x ≢ c) × Lacks c xs

pub find-append : (c : ℕ) (xs rest : Bytes) → Lacks c xs → find c (xs ++ c ∷ rest) ≡ length xs
unfolding find
find-append c [] rest h = ground arith
find-append c (x ∷ xs) rest h = ground (arith, find-append c xs rest h.1)

pub find-Lacks : (c : ℕ) (xs : Bytes) → Lacks c xs → find c xs ≡ length xs
unfolding find
find-Lacks c [] h = ground arith
find-Lacks c (x ∷ xs) h = ground (arith, find-Lacks c xs h.1)

pub Lacks-append : (c : ℕ) (xs ys : Bytes) → Lacks c xs → Lacks c ys → Lacks c (xs ++ ys)
Lacks-append c [] ys h k = k
Lacks-append c (x ∷ xs) ys h k = (h.0, Lacks-append c xs ys h.1 k)

pub find-le : (c : ℕ) (xs : Bytes) → find c xs ≤ length xs
unfolding find
find-le c [] = omega arith
find-le c (x ∷ xs) = ground (arith, find-le c xs)

-- The tests of a position against the end.
pub inside_test : (xs ys : Bytes) (c : ℕ) → (length xs == length (xs ++ c ∷ ys)) ≡ false
inside_test xs ys c = ground (arith, length-append xs (c ∷ ys))

pub end_test : (xs : Bytes) → (length xs == length xs) ≡ true
end_test xs = ground arith

-- `%d` and `%zd` of a number that is not negative; twenty digits are enough for 64 bits.
unfoldable pub digits : ℕ → ℕ → Bytes
digits zero n = []
digits (suc fuel) n =
    let more = digits fuel (n / 10) in
    if ltb n 10 then (b'0' + n) ∷ [] else more ++ (b'0' + n % 10) ∷ []

abbrev pub decimal : ℕ → Bytes
decimal n = digits 20 n
