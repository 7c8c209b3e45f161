-- ===== src/Buffer/Refine.antt =====
-- A buffer seen as a queue of bytes: no client can tell them apart.
use budd.Common.{
  ℕ, ◌+◌, ◌≤◌, ◌≡◌, inl, inr, refl, List, [], ◌∷◌, ◌++◌, arith, length, take, drop, Bytes, leb,
  if◌then◌else◌, Bool-cases, leb→le, leb→lt,
}
use budd.Outcome.{Outcome, ok, err, ◌>>=◌, assertion}
use budd.Buffer.{
  Buffer, max_size, append_string, retrieve, retrieve_as_string, retrieve_all_as_string,
}
use budd.Buffer.Contents.{IsValid, contents}
use budd.Buffer.Append.{append_string_lem}
use budd.Buffer.Retrieve.{
  retrieve-Leaves, retrieve_as_string-ok, retrieve_as_string-err, retrieve_all_as_string-ok,
}

-- What a client asks of a buffer.
pub data Op : Type 0 where
  add : Bytes → Op
  skip : ℕ → Op
  take_string : ℕ → Op
  take_all_bytes : Op

-- The calls in order, with the strings that they return.
unfoldable pub run : Buffer → List Op → Outcome (List Bytes)
run b [] = ok []
run b (add s ∷ ops) = do b' ← append_string b s; run b' ops
run b (skip n ∷ ops) = do b' ← retrieve b n; run b' ops
run b (take_string n ∷ ops) = do (s, b') ← retrieve_as_string b n; rest ← run b' ops; ok (s ∷ rest)
run b (take_all_bytes ∷ ops) = do
  (s, b') ← retrieve_all_as_string b
  rest ← run b' ops
  ok (s ∷ rest)

-- The same of a plain string of bytes.
unfoldable pub run_queue : Bytes → List Op → Outcome (List Bytes)
run_queue q [] = ok []
run_queue q (add s ∷ ops) = run_queue (q ++ s) ops
run_queue q (skip n ∷ ops) = run_queue (drop n q) ops
run_queue q (take_string n ∷ ops) =
    let later = run_queue (drop n q) ops in
    if leb n (length q) then (later >>= λ rest. ok (take n q ∷ rest)) else err assertion
run_queue q (take_all_bytes ∷ ops) = run_queue [] ops >>= λ rest. ok (q ∷ rest)

-- How many bytes the calls add.
abbrev pub added : List Op → ℕ
added [] = 0
added (add s ∷ ops) = length s + added ops
added (_ ∷ ops) = added ops

-- A valid buffer answers every sequence of calls as the string of its contents does, as long as
-- the bytes added cannot carry its vector past its largest size: the same strings come out, and
-- the run stops by a failed assertion exactly when the string does.
pub run_refines :
    (ops : List Op) (b : Buffer)
    → IsValid b
    → b.writer_index + added ops ≤ max_size
    → run b ops ≡ run_queue (contents b) ops
unfolding run run_queue
run_refines [] b v h = refl
run_refines (add s ∷ ops) b v h = elim (append_string_lem b s v (omega arith)) [
  | inl (b', e, valid, same, no_later) ↦
      rw (e, ◌>>=◌) (rw (← same) (run_refines ops b' valid (omega arith)))
  | inr (e, over) ↦ absurd (omega arith)
]
run_refines (skip n ∷ ops) b v h =
    let (b', e, valid, same, no_later) = retrieve-Leaves b v n in
    rw (e, ◌>>=◌) (rw (← same) (run_refines ops b' valid (omega arith)))
run_refines (take_string n ∷ ops) b v h = elim (Bool-cases (leb n (length (contents b)))) [
  | inl held ↦
      let (b', e, valid, same, no_later) = retrieve_as_string-ok b v n (leb→le _ _ held) in
      rw (e, held, ← same, run_refines ops b' valid (omega arith))
  | inr short ↦ rw (retrieve_as_string-err b v n (leb→lt _ _ short), short)
]
run_refines (take_all_bytes ∷ ops) b v h =
    let (b', e, valid, same, no_later) = retrieve_all_as_string-ok b v in
    rw (e, ← same, run_refines ops b' valid (omega arith))
