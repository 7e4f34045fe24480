-- ===== src/Threads/Pipeline.antt =====
-- The two threads that multy/src/Threads/MultiThreadTask.cpp starts, one shared access at a time:
-- FileDataTransferTask.h over SyncWriteDataAccess.h over BufferWriter.h fills the circular buffer,
-- BufferTransferTask.h over SyncReadDataAccess.h over BufferReader.h empties it. Each load or store
-- of an atomic and each access to a cell is one step, and the steps of the threads interleave in
-- any order (the code's own orderings are sequentially consistent or acquire and release on flags).
-- No operation throws here.
pub mod Invariant
pub mod Produce
pub mod Consume
pub mod Safety
pub mod Calm
pub mod Fill
pub mod Loss
pub mod Read
pub mod Deliver
pub mod Hang
pub mod Flow
pub mod Closing
pub mod Fair
pub mod History
pub mod Overflow
pub mod Hole
use multithreading_io.Base.{
  ℕ, ◌+◌, ◌%◌, Bool, true, false, Option, none, some, List, [], ◌∷◌, ◌++◌, ltb, ◌==◌, if◌then◌else◌,
  add_size, length, set,
}
use multithreading_io.Threads.Buffer.{
  is_writing_enabled, is_reading_enabled, BufferStateSync, initial_sync, enable_writing,
  enable_reading, disable_writing, disable_reading, CircularBuffer, create, at, size_between,
}

-- What has become of a byte that `CircularBuffer::Write` was called with.
pub data Offer : Type 0 where
  taken : ℕ → Offer
  dropped : ℕ → Offer

-- `source` holds the chunks that the file reader will still return, `dest` what the file writer has
-- written. `log` is a history that no step reads.
pub record Shared : Type 0 where
  pub buffer : CircularBuffer
  pub running : Bool
  pub source : List (List ℕ)
  pub dest : List ℕ
  pub log : List Offer

-- Where the reading thread stands, with its live locals.
pub data Producer : Type 0 where
  fetch : Producer  -- `reader_->Read()`
  await_writing : List ℕ → Producer  -- `IsWritingEnabled()`
  poll_writing : List ℕ → Producer  -- `IsRunning()`
  check_writing : List ℕ → Producer  -- `if (!running_.load()) return`
  putting : List ℕ → Producer  -- the loop of `BufferWriter::Write`, `tail_.load()`
  put_tail : ℕ → List ℕ → ℕ → Producer  -- `head_.load()`
  put_disable : ℕ → List ℕ → Producer  -- `DisableWriting()`
  put_cell : ℕ → List ℕ → ℕ → ℕ → Producer  -- `data_[tail] = item`
  put_store : ℕ → List ℕ → ℕ → Producer  -- `tail_.store(nextTail)`
  put_enable : List ℕ → Producer  -- `EnableReading()`
  stop_waiting : Producer  -- `Stop()`, its loop
  stop_store : Producer  -- `running_.store(false)`
  producer_done : Producer
  put_fault : Producer  -- a cell outside the vector was written

-- Where the writing thread stands.
pub data Consumer : Type 0 where
  top : Consumer  -- `while (IsRunning())`
  await_reading : Consumer  -- `IsReadingEnabled()`
  poll_reading : Consumer  -- `IsRunning()`
  check_reading : Consumer  -- `if (!running_.load()) return {}`
  size_head : Consumer  -- `GetDataSize()`, `head_.load()`
  size_tail : ℕ → Consumer  -- `tail_.load()`
  load_head : ℕ → Consumer  -- `GetHead()`
  copying : ℕ → ℕ → ℕ → List ℕ → Consumer  -- the loop of `BufferReader::Read`
  set_load : ℕ → List ℕ → Consumer  -- `SetHead(dataSize)`, `head_.load()`
  set_store : ℕ → List ℕ → Consumer  -- `head_.store(newHead)`
  set_enable : ℕ → List ℕ → Consumer  -- `EnableWriting()`
  set_test : ℕ → List ℕ → Consumer  -- `newHead == tail_.load()`
  set_disable : List ℕ → Consumer  -- `DisableReading()`
  deliver : List ℕ → Consumer  -- `writer_->Write(data)`
  consumer_done : Consumer
  fault : Consumer  -- a cell outside the vector was read

abbrev pub on_buffer : Shared → CircularBuffer → Shared
on_buffer m b = record m { buffer = b }

abbrev pub on_state : Shared → BufferStateSync → Shared
on_state m st = on_buffer m (record m.buffer { state = st })

next_chunk : List (List ℕ) → Shared → Producer × Shared
next_chunk [] m = (stop_waiting, m)
next_chunk ([] ∷ chunks) m = (stop_waiting, record m { source = chunks })
next_chunk ((x ∷ xs) ∷ chunks) m = (await_writing (x ∷ xs), record m { source = chunks })

unfoldable pub produce : Producer → Shared → Producer × Shared
unfolding next_chunk enable_reading disable_writing
produce fetch m = next_chunk m.source m
produce (await_writing c) m =
    (if is_writing_enabled m.buffer.state then check_writing c else poll_writing c, m)
produce (poll_writing c) m = (if m.running then await_writing c else check_writing c, m)
produce (check_writing c) m = (if m.running then putting c else fetch, m)
produce (putting []) m = (fetch, m)
produce (putting (x ∷ xs)) m = (put_tail x xs m.buffer.tail, m)
produce (put_tail x xs tail) m =
    let next_tail = add_size tail 1 % m.buffer.capacity in
    (if next_tail == m.buffer.head then put_disable x xs else put_cell x xs tail next_tail, m)
produce (put_disable x xs) m = (
  putting xs,
  record (on_state m (disable_writing m.buffer.state)) { log = m.log ++ (dropped x ∷ []) },
)
produce (put_cell x xs tail next_tail) m =
    if ltb tail (length m.buffer.cells)
    then (
      put_store x xs next_tail,
      on_buffer m (record m.buffer { cells = set m.buffer.cells tail x }),
    )
    else (put_fault, m)
produce (put_store x xs next_tail) m = (
  put_enable xs,
  record m { buffer = record m.buffer { tail = next_tail }; log = m.log ++ (taken x ∷ []) },
)
produce (put_enable xs) m = (putting xs, on_state m (enable_reading m.buffer.state))
produce stop_waiting m = (if is_writing_enabled m.buffer.state then stop_store else stop_waiting, m)
produce stop_store m = (producer_done, record m { running = false })
produce producer_done m = (producer_done, m)
produce put_fault m = (put_fault, m)

copy_cell : Option ℕ → ℕ → ℕ → ℕ → List ℕ → Consumer
copy_cell none n head i acc = fault
copy_cell (some c) n head i acc = copying n head (i + 1) (acc ++ (c ∷ []))

write_out : List ℕ → List ℕ → List ℕ
write_out dest [] = dest
write_out dest (x ∷ xs) = dest ++ x ∷ xs

unfoldable pub consume : Consumer → Shared → Consumer × Shared
unfolding copy_cell write_out enable_writing disable_reading
consume top m = (if m.running then await_reading else consumer_done, m)
consume await_reading m =
    (if is_reading_enabled m.buffer.state then check_reading else poll_reading, m)
consume poll_reading m = (if m.running then await_reading else check_reading, m)
consume check_reading m = (if m.running then size_head else top, m)
consume size_head m = (size_tail m.buffer.head, m)
consume (size_tail head) m = (load_head (size_between m.buffer.capacity head m.buffer.tail), m)
consume (load_head n) m = (copying n m.buffer.head 0 [], m)
consume (copying n head i acc) m =
    (if ltb i n then copy_cell (at m.buffer (add_size head i)) n head i acc else set_load n acc, m)
consume (set_load n acc) m = (set_store (add_size m.buffer.head n % m.buffer.capacity) acc, m)
consume (set_store new_head acc) m =
    (set_enable new_head acc, on_buffer m (record m.buffer { head = new_head }))
consume (set_enable new_head acc) m =
    (set_test new_head acc, on_state m (enable_writing m.buffer.state))
consume (set_test new_head acc) m =
    (if new_head == m.buffer.tail then set_disable acc else deliver acc, m)
consume (set_disable acc) m = (deliver acc, on_state m (disable_reading m.buffer.state))
consume (deliver acc) m = (top, record m { dest = write_out m.dest acc })
consume consumer_done m = (consumer_done, m)
consume fault m = (fault, m)

pub record System : Type 0 where
  pub mem : Shared
  pub producer : Producer
  pub consumer : Consumer

-- `MultiThreadTask::Create` and the start of the threads: a buffer of `capacity` bytes, and a file
-- that is read in these chunks.
unfoldable pub start : ℕ → List (List ℕ) → System
unfolding create
start capacity chunks = record {
  mem = record {
    buffer = create capacity initial_sync none;
    running = true;
    source = chunks;
    dest = [];
    log = [];
  };
  producer = fetch;
  consumer = top;
}

pub data Thread : Type 0 where
  reader writer : Thread

unfoldable pub step : Thread → System → System
unfolding produce consume
step reader s = let (p, m) = produce s.producer s.mem in record s { mem = m; producer = p }
step writer s = let (c, m) = consume s.consumer s.mem in record s { mem = m; consumer = c }

-- An interleaving is the sequence of the threads that step.
unfoldable pub run : List Thread → System → System
unfolding step
run [] s = s
run (t ∷ ts) s = run ts (step t s)
