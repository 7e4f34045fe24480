-- ===== src/Tests/Pipeline.antt =====
-- Interleavings of the two threads: such as bring the file over, stop too early, hang, or leave a
-- hole in the file.
use multithreading_io.Base.{
  true, ok, ℕ, ◌≡◌, ◌≢◌, refl, List, [], ◌∷◌, ◌++◌, flatten, All, replicate, arith,
}
use multithreading_io.Threads.Buffer.{create, at}
use multithreading_io.Threads.Buffer.Bounds.{IsBounded}
use multithreading_io.Threads.Buffer.Contents.{contents}
use multithreading_io.Threads.Pipeline.{
  put_fault, producer_done, consumer_done, fault, start, Thread, reader, writer, run,
}
use multithreading_io.Threads.Pipeline.Invariant.{NonEmpty, in_hand, todo, offered, kept, lost}
use multithreading_io.Command.{default_chunk_size, buffer_size}
use multithreading_io.FileStream.{create_reader}
use multithreading_io.Whole.{file_reader, file_chunks, copy_possible}
use multithreading_io.Threads.Pipeline.Safety.{
  bytes_accounted, no_fault, transfer_complete, ends_in_order,
}
use multithreading_io.Threads.Pipeline.Flow.{turns}
use multithreading_io.Threads.Pipeline.Fair.{fair_run_ends}
use multithreading_io.Threads.Pipeline.Hole.{Holed, overflow_leaves_hole}
use multithreading_io.Threads.Pipeline.Loss.{premature_stop, Stuck}
use multithreading_io.Threads.Pipeline.Hang.{hang_possible}

abbrev file : List (List ℕ)
file = (1 ∷ 2 ∷ []) ∷ (3 ∷ []) ∷ []

file-NonEmpty : All NonEmpty file
file-NonEmpty = ((λ h. cc), ((λ h. cc), tt))

-- The reader puts the first chunk into the buffer, the writer takes it out, the reader puts the
-- second one in and waits, the writer takes it out, and both stop.
abbrev in_turn : List Thread
in_turn =
    replicate 13 reader
    ++ (replicate 15 writer
        ++ (replicate 9 reader
            ++ (replicate 14 writer ++ (replicate 4 reader ++ replicate 2 writer))))

in_turn_ends :
    let s = run in_turn (start 4 file) in
    (s.mem.dest ≡ 1 ∷ 2 ∷ 3 ∷ [])
    × (s.producer ≡ producer_done)
    × (s.consumer ≡ consumer_done)
    × (lost s.mem.log ≡ [])
unfolding run start create at lost
in_turn_ends = (refl, refl, refl, refl)

bytes_accounted_example :
    let s = run in_turn (start 4 file) in
    (s.mem.dest ++ (in_hand s.consumer ++ contents s.mem.buffer) ≡ kept s.mem.log)
    × (offered s.mem.log ++ (todo s.producer ++ flatten s.mem.source) ≡ flatten file)
bytes_accounted_example = bytes_accounted 4 file (omega arith) (omega arith) file-NonEmpty in_turn

no_fault_example :
    let s = run in_turn (start 4 file) in
    (s.consumer ≢ fault) × (s.producer ≢ put_fault) × IsBounded s.mem.buffer
no_fault_example = no_fault 4 file (omega arith) (omega arith) file-NonEmpty in_turn

transfer_complete_example :
    let s = run in_turn (start 4 file) in
    s.mem.dest ++ (in_hand s.consumer ++ contents s.mem.buffer) ≡ flatten file
transfer_complete_example =
    transfer_complete 4 file (omega arith) (omega arith) file-NonEmpty in_turn in_turn_ends.3
      in_turn_ends.1

ends_in_order_example :
    let s = run in_turn (start 4 file) in (s.producer ≡ producer_done) × (s.mem.source ≡ [])
ends_in_order_example =
    ends_in_order 4 file (omega arith) (omega arith) file-NonEmpty in_turn in_turn_ends.2

premature_stop_example :
    (ts : List Thread) × let s = run ts (start 4 file) in
      (s.producer ≡ producer_done) × (s.consumer ≡ consumer_done) × (s.mem.dest ≡ [])
premature_stop_example = premature_stop 4 file (omega arith) file-NonEmpty (omega arith)

-- The reader meets a full buffer and is about to switch writing off; the writer empties the buffer,
-- switches writing on and reading off, and waits; then the reader switches writing off.
abbrev hang : List Thread
hang = replicate 10 reader ++ (replicate 15 writer ++ replicate 3 reader)

abbrev one_chunk : List (List ℕ)
one_chunk = (1 ∷ 2 ∷ []) ∷ []

hang-Stuck : Stuck (run hang (start 2 one_chunk))
unfolding run start create at
hang-Stuck = record { running = refl; writing = refl; reading = refl; producer = tt; consumer = tt }

-- Two full chunks, one byte more together than the buffer can hold.
abbrev two_chunks : List (List ℕ)
two_chunks = (1 ∷ 2 ∷ []) ∷ (3 ∷ 4 ∷ []) ∷ []

two_chunks-NonEmpty : All NonEmpty two_chunks
two_chunks-NonEmpty = ((λ h. cc), ((λ h. cc), tt))

hang_possible_example :
    (ts : List Thread) × ((us : List Thread) → Stuck (run (ts ++ us) (start 4 two_chunks)))
hang_possible_example =
    hang_possible 4 two_chunks (omega arith) (omega arith) two_chunks-NonEmpty refl

-- Thread after thread, each for as long as the bounds say: three bytes in two chunks and a buffer of
-- eight cells.
fair_run_ends_example :
    let s = run (replicate 26 reader ++ replicate 18 writer) (start 8 file) in
    (s.producer ≡ producer_done)
    × (s.consumer ≡ consumer_done)
    × (lost s.mem.log ≡ [])
    × (s.mem.dest ++ contents s.mem.buffer ≡ flatten file)
unfolding turns
fair_run_ends_example =
    fair_run_ends 8 file (omega arith) file-NonEmpty (omega arith) (replicate 26 reader)
      (replicate 18 writer) (omega arith) (omega arith)

overflow_leaves_hole_example : (ts : List Thread) × Holed 3 (1 ∷ 2 ∷ 3 ∷ []) (run ts (start 3 file))
overflow_leaves_hole_example =
    overflow_leaves_hole 3 file (omega arith) (omega arith) file-NonEmpty
      (omega arith, (omega arith, tt)) (omega arith)

copy_possible_example :
    (create_reader true (1 ∷ 2 ∷ 3 ∷ []) default_chunk_size ≡ ok (file_reader (1 ∷ 2 ∷ 3 ∷ [])))
    × (ts : List Thread) × let s = run ts (start buffer_size (file_chunks (1 ∷ 2 ∷ 3 ∷ []))) in
        (s.producer ≡ producer_done) × (s.consumer ≡ consumer_done) × (s.mem.dest ≡ 1 ∷ 2 ∷ 3 ∷ [])
copy_possible_example = copy_possible (1 ∷ 2 ∷ 3 ∷ [])
