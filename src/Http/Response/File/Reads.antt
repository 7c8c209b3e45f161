-- ===== src/Http/Response/File/Reads.antt =====
-- The loop of `setFile` over what `readsome` returns, and the body while it is filled.
use budd.Common.{
  ℕ, zero, suc, ap₂, ◌^◌, ◌+◌, ◌-◌, ◌≤◌, ◌<◌, ◌≡◌, refl, ap, sym, ◌∙◌, ◌⊎◌, inl, inr, Bool-cases,
  List, [], ◌∷◌, ◌++◌, append-nil, append_assoc, arith, length, length-append, length-replicate,
  drop, replicate, leb, ltb, ltb→lt, lt→ltb, subst, leb→le, leb→lt, take_all, take-append_self,
  drop-append_ge, Bytes,
}
use budd.Outcome.{Outcome, ok, err, out_of_bounds, overflow}
use budd.Buffer.{copy_in}
use budd.Buffer.Contents.{copy_in-ok}
use budd.Http.Response.{read_chunks}

-- What the calls return, one after another.
abbrev pub joined : List Bytes → Bytes
joined [] = []
joined (chunk ∷ chunks) = chunk ++ joined chunks

drop-replicate : (m n : ℕ) → drop {A = ℕ} m (replicate n 0) ≡ replicate (n - m) 0
unfolding replicate
drop-replicate zero n = ap (λ k. replicate k 0) (omega arith)
drop-replicate (suc m) zero = ap (λ (k : ℕ). replicate {A = ℕ} k 0) {x = 0} (omega arith)
drop-replicate (suc m) (suc n) = drop-replicate m n ∙ ap (λ k. replicate k 0) (omega arith)

-- The body while it is filled: what was read stands in front of zeros.
abbrev pub filled : Bytes → ℕ → Bytes
filled done size = done ++ replicate (size - length done) 0

copy_in-filled :
    (done chunk : Bytes) (size : ℕ)
    → length done + length chunk ≤ size
    → copy_in (filled done size) (length done) chunk (length chunk)
      ≡ ok (filled (done ++ chunk) size)
copy_in-filled done chunk size h =
    let zeros : Bytes = replicate (size - length done) 0 in
    let room : length done + length chunk ≤ length (done ++ zeros) =
      omega (arith, length-append done zeros, length-replicate {A = ℕ} (size - length done) 0) in
    let rest : drop (length done + length chunk) (done ++ zeros)
        ≡ replicate (size - length (done ++ chunk)) 0 =
      drop-append_ge (length done + length chunk) done zeros (omega arith)
      ∙ (drop-replicate (length done + length chunk - length done) (size - length done)
          ∙ ap (λ k. replicate k 0) (omega (arith, length-append done chunk))) in
    copy_in-ok (done ++ zeros) (length done) chunk (length chunk) (omega arith) room
    ∙ ap ok (
        ap₂ ◌++◌ (take-append_self done zeros)
          (ap₂ ◌++◌ (take_all (length chunk) chunk (omega arith)) rest)
        ∙ sym (append_assoc done chunk (replicate (size - length (done ++ chunk)) 0)))

copy_in-past :
    (v : Bytes) (at : ℕ) (src : Bytes)
    → length v < at + length src
    → copy_in v at src (length src) ≡ err out_of_bounds
unfolding copy_in
copy_in-past v at src short = ground arith

-- A piece that is longer than what is left of the body.
short-filled :
    (done chunk : Bytes) (size : ℕ)
    → length done ≤ size
    → size < length done + length chunk
    → length (filled done size) < length done + length chunk
short-filled done chunk size k h =
    let zeros : Bytes = replicate (size - length done) 0 in
    omega (arith, length-append done zeros, length-replicate {A = ℕ} (size - length done) 0)

pub read_chunks-filled :
    (done : Bytes) (size : ℕ) (chunks : List Bytes)
    → length done + length (joined chunks) ≤ size
    → length done + length (joined chunks) < 2 ^ 31
    → read_chunks (filled done size) (length done) chunks ≡ ok (filled (done ++ joined chunks) size)
unfolding read_chunks
read_chunks-filled done size [] h small = ap (λ d. ok (filled d size)) (sym (append-nil done))
read_chunks-filled done size (chunk ∷ chunks) h small =
    let grown = length-append done chunk in
    let all = length-append chunk (joined chunks) in
    rw
      (
        copy_in-filled done chunk size (omega (arith, all)),
        lt→ltb (length done + length chunk) (2 ^ 31) (omega (arith, all)),
      )
      (ap (λ n. read_chunks (filled (done ++ chunk) size) n chunks) (sym grown)
        ∙ (read_chunks-filled (done ++ chunk) size chunks (omega (arith, grown, all))
              (omega (arith, grown, all))
            ∙ ap (λ d. ok (filled d size)) (append_assoc done chunk (joined chunks))))

pub read_chunks-over :
    (done : Bytes) (size : ℕ) (chunks : List Bytes)
    → size < length done + length (joined chunks)
    → length done ≤ size
    → size < 2 ^ 31
    → read_chunks (filled done size) (length done) chunks ≡ err out_of_bounds
unfolding read_chunks
read_chunks-over done size [] h k small = absurd (omega arith)
read_chunks-over done size (chunk ∷ chunks) h k small =
    let grown = length-append done chunk in
    let all = length-append chunk (joined chunks) in
    elim (Bool-cases (leb (length done + length chunk) size)) [
      | inl fits ↦
          let within = leb→le _ _ fits in
          rw
            (
              copy_in-filled done chunk size within,
              lt→ltb (length done + length chunk) (2 ^ 31) (omega arith),
            )
            (ap (λ n. read_chunks (filled (done ++ chunk) size) n chunks) (sym grown)
              ∙ read_chunks-over (done ++ chunk) size chunks (omega (arith, grown, all))
                  (omega (arith, grown)) small)
      | inr past ↦
          rw
            (copy_in-past (filled done size) (length done) chunk
              (short-filled done chunk size k (leb→lt _ _ past)))
            refl
    ]

-- The two ways in which a file of 2 ^ 31 bytes or more goes wrong.
abbrev pub IsTooMuch : {V : Type 0} → Outcome V → Type 0
IsTooMuch o = (o ≡ err overflow) ⊎ (o ≡ err out_of_bounds)

pub read_chunks-IsTooMuch :
    (done : Bytes) (size : ℕ) (chunks : List Bytes)
    → length done < 2 ^ 31
    → length done ≤ size
    → 2 ^ 31 ≤ length done + length (joined chunks)
    → IsTooMuch (read_chunks (filled done size) (length done) chunks)
unfolding read_chunks
read_chunks-IsTooMuch done size [] small k large = absurd (omega arith)
read_chunks-IsTooMuch done size (chunk ∷ chunks) small k large =
    let grown = length-append done chunk in
    let all = length-append chunk (joined chunks) in
    let total : ℕ = length done + length chunk in
    elim (Bool-cases (leb total size)) [
      | inl fits ↦ elim (Bool-cases (ltb total (2 ^ 31))) [
        | inl below ↦
            rw (copy_in-filled done chunk size (leb→le _ _ fits), below)
              (subst (λ n. IsTooMuch (read_chunks (filled (done ++ chunk) size) n chunks)) grown
                (read_chunks-IsTooMuch (done ++ chunk) size chunks
                  (omega (arith, grown, ltb→lt _ _ below)) (omega (arith, grown, leb→le _ _ fits))
                  (omega (arith, grown, all))))
        | inr above ↦ rw (copy_in-filled done chunk size (leb→le _ _ fits), above) (inl refl)
      ]
      | inr past ↦
          rw
            (copy_in-past (filled done size) (length done) chunk
              (short-filled done chunk size k (leb→lt _ _ past)))
            (inr refl)
    ]
