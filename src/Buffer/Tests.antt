-- ===== src/Buffer/Tests.antt =====
-- Runs of the buffer, and its theorems at concrete inputs.
use budd.Common.{◌≡◌, refl, some, List, [], ◌∷◌, arith, length-replicate, replicate, Bytes, codes}
use budd.Outcome.{ok, err, assertion}
use budd.Buffer.{
  Buffer, resize, copy_in, writeable_bytes, readable_bytes, prependable_bytes, move_to_front,
  reserve, ensure_writerable_bytes, append, append_string, begins, search_in, find_crlf, failed,
  received, extra_size, read_fd,
}
use budd.Buffer.Contents.{IsValid}
use budd.Buffer.Refine.{add, skip, take_string, take_all_bytes, Op, run, run_queue, run_refines}
use budd.Buffer.Read.{Reads, read_fd-Reads}
use budd.Buffer.ReadError.{read_fd-failed}

-- A vector of 16 bytes that holds "b", behind a byte that was taken.
abbrev small : Buffer
small = record {
  reader_index = 9;
  writer_index = 10;
  buffer = 0 ∷ 0 ∷ 0 ∷ 0 ∷ 0 ∷ 0 ∷ 0 ∷ 0 ∷ b'a' ∷ b'b' ∷ 0 ∷ 0 ∷ 0 ∷ 0 ∷ 0 ∷ 0 ∷ [];
}

small-IsValid : IsValid small
small-IsValid = omega arith

-- Seven bytes fit only after the contents are moved, eight only after the vector grows.
append_moves :
    append_string small (codes "1234567")
    ≡ ok (record {
      reader_index = 8;
      writer_index = 16;
      buffer = 0 ∷ 0 ∷ 0 ∷ 0 ∷ 0 ∷ 0 ∷ 0 ∷ 0 ∷ codes "b1234567";
    })
unfolding append_string append ensure_writerable_bytes reserve move_to_front copy_in writeable_bytes
    readable_bytes prependable_bytes
append_moves = refl

append_grows :
    append_string small (codes "12345678")
    ≡ ok (record {
      reader_index = 9;
      writer_index = 18;
      buffer = 0 ∷ 0 ∷ 0 ∷ 0 ∷ 0 ∷ 0 ∷ 0 ∷ 0 ∷ b'a' ∷ codes "b12345678";
    })
unfolding append_string append ensure_writerable_bytes reserve resize copy_in writeable_bytes
    readable_bytes prependable_bytes replicate
append_grows = refl

abbrev script : List Op
script = add (codes "cd") ∷ take_string 2 ∷ skip 5 ∷ add (codes "e") ∷ take_all_bytes ∷ []

run_queue-script : run_queue (codes "b") script ≡ ok (codes "bc" ∷ codes "e" ∷ [])
unfolding run_queue
run_queue-script = refl

run_refines_example : run small script ≡ run_queue (codes "b") script
run_refines_example = run_refines script small small-IsValid (omega arith)

abbrev stack : Bytes
stack = replicate extra_size 0

read_fd-Reads_example :
    Reads small 0 (codes "1234567890") (read_fd small 0 stack (received (codes "1234567890")))
read_fd-Reads_example =
    read_fd-Reads small 0 stack (codes "1234567890") small-IsValid (length-replicate extra_size 0)
      (omega arith)

-- `EAGAIN` is 11.
read_fd-failed_example : read_fd small 0 stack (failed 11) ≡ err assertion
read_fd-failed_example =
    read_fd-failed small 0 11 stack small-IsValid (length-replicate extra_size 0)

-- `peek()` is at 8, and the break at 10.
abbrev two_lines : Buffer
two_lines = record { reader_index = 8; writer_index = 16; buffer = codes "12345678ab\r\ncd\r\n" }

find_crlf-two_lines : find_crlf two_lines ≡ some 10
unfolding find_crlf search_in begins
find_crlf-two_lines = refl
