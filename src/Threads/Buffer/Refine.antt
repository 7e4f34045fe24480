-- ===== src/Threads/Buffer/Refine.antt =====
-- Sequences of calls of BufferWriter.h and BufferReader.h, beside a bounded queue of bytes that drops
-- what does not fit.
use multithreading_io.Base.{
  ℕ, ◌-◌, ◌≡◌, refl, Option, none, some, List, [], ◌∷◌, ◌++◌, length, take, arith,
}
use multithreading_io.Threads.Buffer.{CircularBuffer, buffer_write, buffer_read}
use multithreading_io.Threads.Buffer.Bounds.{IsValid}
use multithreading_io.Threads.Buffer.Contents.{contents, length-contents}
use multithreading_io.Threads.Buffer.Transfer.{
  buffer_write-Wrote, buffer_write_lem, buffer_read_lem,
}

-- A call of one of the two threads.
pub data Call : Type 0 where
  put : List ℕ → Call
  get : Call

-- What the calls `get` return; `none` is an access outside the cells.
unfoldable pub run : CircularBuffer → List Call → Option (List (List ℕ))
run b [] = some []
run b (put values ∷ calls) = run (buffer_write b values) calls
run b (get ∷ calls) = elim (buffer_read b) [
  | none ↦ none
  | some (chunk, c) ↦ elim (run c calls) [ none ↦ none | some chunks ↦ some (chunk ∷ chunks) ]
]

-- The same calls of a queue with room for `room` bytes.
unfoldable pub run_queue : ℕ → List ℕ → List Call → List (List ℕ)
run_queue room q [] = []
run_queue room q (put values ∷ calls) = run_queue room (q ++ take (room - length q) values) calls
run_queue room q (get ∷ calls) = q ∷ run_queue room [] calls

-- Started on a valid buffer, the calls return what the queue of one byte less than the capacity
-- returns, and no access leaves the cells.
pub run_refines :
    (calls : List Call) {b : CircularBuffer}
    → IsValid b
    → run b calls ≡ some (run_queue (b.capacity - 1) (contents b) calls)
unfolding run run_queue
run_refines [] v = refl
run_refines (put values ∷ calls) {b} v = ground (
  arith,
  run_refines calls (buffer_write_lem values v).2,
  buffer_write_lem values v,
  buffer_write-Wrote values v.bounded,
  length-contents b,
)
run_refines (get ∷ calls) {b} v =
    let (c, out, empty, same, st, vc) = buffer_read_lem v in
    ground (arith, out, empty, same, run_refines calls vc)
