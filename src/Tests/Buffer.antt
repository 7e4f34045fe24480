-- ===== src/Tests/Buffer.antt =====
-- A buffer with room for three bytes, filled round its end.
use multithreading_io.Base.{
  ◌≡◌, refl, true, false, some, replicate, List, [], ◌∷◌, ◌++◌, take, leb, if◌then◌else◌, arith,
}
use multithreading_io.Threads.Buffer.{
  CircularBuffer, initial_sync, create, at, get_data_size, read_chunk, set_head, write,
  buffer_write, buffer_read,
}
use multithreading_io.Threads.Buffer.Bounds.{IsValid, create-IsValid}
use multithreading_io.Threads.Buffer.Contents.{contents}
use multithreading_io.Threads.Buffer.Transfer.{free_space, buffer_write_lem}
use multithreading_io.Threads.Buffer.Refine.{Call, put, get, run, run_queue, run_refines}

abbrev fresh : CircularBuffer
fresh = record { cells = replicate 4 0; capacity = 4; head = 0; tail = 0; state = initial_sync }

fresh-IsValid : IsValid fresh
unfolding create
fresh-IsValid = create-IsValid 4 (omega arith) (omega arith)

abbrev calls : List Call
calls = put (1 ∷ 2 ∷ []) ∷ get ∷ put (3 ∷ 4 ∷ 5 ∷ 6 ∷ 7 ∷ []) ∷ get ∷ get ∷ []

calls_return : run fresh calls ≡ some ((1 ∷ 2 ∷ []) ∷ (3 ∷ 4 ∷ 5 ∷ []) ∷ [] ∷ [])
unfolding run buffer_write buffer_read write at get_data_size read_chunk set_head
calls_return = refl

run_refines_example : run fresh calls ≡ some (run_queue 3 (contents fresh) calls)
run_refines_example = run_refines calls fresh-IsValid

buffer_write_example :
    let c = buffer_write fresh (1 ∷ 2 ∷ 3 ∷ 4 ∷ []) in
    (contents c ≡ contents fresh ++ take (free_space fresh) (1 ∷ 2 ∷ 3 ∷ 4 ∷ []))
    × (c.state.writing_enabled ≡ (if leb 4 (free_space fresh) then true else false))
    × IsValid c
buffer_write_example = buffer_write_lem (1 ∷ 2 ∷ 3 ∷ 4 ∷ []) fresh-IsValid

abbrev two_bytes : CircularBuffer
two_bytes = buffer_write fresh (1 ∷ 2 ∷ [])
