-- ===== src/Process.antt =====
-- The two processes that multy/src/MultiProcess/MultiProcessTask.cpp starts over one shared memory:
-- the one that sends runs FileDataTransferTask.h over SharedWriteDataAccess.h over SharedWriteData.h,
-- the one that receives runs BufferTransferTask.h over SharedReadDataAccess.h over SharedReadData.h.
-- Each operation on a semaphore, on the shared memory or on a file is one step, and the steps of the
-- processes interleave in any order. No operation throws here.
pub mod Invariant
pub mod Handover
pub mod Loss
pub mod Prompt
pub mod Role
pub mod Names
pub mod Restart
pub mod Rounds
pub mod Faults
pub mod Copy
use multithreading_io.Base.{
  ℕ, ◌+◌, ◌-◌, List, [], ◌∷◌, ◌++◌, ltb, if◌then◌else◌, length, take, drop, replicate,
}

-- The three named semaphores and the bytes of the shared memory object. `source` holds the chunks
-- that the file reader will still return, `dest` what the file writer has written. `mapped` is a
-- history that no step reads: what the memory held each time it was mapped to be read.
pub record SharedState : Type 0 where
  pub space : ℕ
  pub available : ℕ
  pub stop : ℕ
  pub memory : List ℕ
  pub source : List (List ℕ)
  pub dest : List ℕ
  pub mapped : List (List ℕ)

-- `truncate`: new bytes are zero. A mapped page shows zeros behind the end of the object as well.
abbrev pub resize : ℕ → List ℕ → List ℕ
resize n bytes = take n (bytes ++ replicate n 0)

-- Where the sending process stands.
pub data Sender : Type 0 where
  fetch : Sender  -- `reader_->Read()`
  wait_space : List ℕ → Sender  -- `spaceAvailableSemaphore_->wait()`
  truncating : List ℕ → Sender  -- `sharedMemory_->truncate(data.size())`
  copying : List ℕ → Sender  -- `new (region_.get_address()) DataBuffer(data)`
  post_data : Sender  -- `dataAvailableSemaphore_->post()`
  stop_post : Sender  -- `Stop()`, `stopSemaphore_->post()`
  stop_try : Sender  -- `spaceAvailableSemaphore_->try_wait()`
  sender_done : Sender

-- Where the receiving process stands. The span that `Read` returns is the mapped memory itself, of
-- which only the size is fixed.
pub data Receiver : Type 0 where
  top : Receiver  -- `IsRunning()`, `stopSemaphore_->try_wait()`
  try_data : Receiver  -- `dataAvailableSemaphore_->try_wait()`
  mapping : Receiver  -- `handler_->Read()`
  post_space : ℕ → Receiver  -- `spaceAvailableSemaphore_->post()`
  deliver : ℕ → Receiver  -- `writer_->Write(data)`
  receiver_done : Receiver

send_next : List (List ℕ) → SharedState → Sender × SharedState
send_next [] m = (stop_post, m)
send_next ([] ∷ chunks) m = (stop_post, record m { source = chunks })
send_next ((x ∷ xs) ∷ chunks) m = (wait_space (x ∷ xs), record m { source = chunks })

-- `SharedWriteDataHandler::Write` in two steps.
truncate_memory : ℕ → SharedState → SharedState
truncate_memory size m = record m { memory = resize size m.memory }

-- The constructor of `DataBuffer`, on the bytes that the mapped memory holds.
abbrev pub data_buffer : List ℕ → List ℕ → List ℕ
data_buffer c memory = c ++ drop (length c) memory

copy_chunk : List ℕ → SharedState → SharedState
copy_chunk c m = record m { memory = data_buffer c m.memory }

unfoldable pub send : Sender → SharedState → Sender × SharedState
unfolding send_next truncate_memory copy_chunk
send fetch m = send_next m.source m
send (wait_space c) m =
    if ltb 0 m.space then (truncating c, record m { space = m.space - 1 }) else (wait_space c, m)
send (truncating c) m = (copying c, truncate_memory (length c) m)
send (copying c) m = (post_data, copy_chunk c m)
send post_data m = (fetch, record m { available = m.available + 1 })
send stop_post m = (stop_try, record m { stop = m.stop + 1 })
send stop_try m =
    if ltb 0 m.space then (sender_done, record m { space = m.space - 1 }) else (stop_post, m)
send sender_done m = (sender_done, m)

-- `SharedReadDataHandler::Read`.
map_region : SharedState → Receiver × SharedState
map_region m = (post_space (length m.memory), record m { mapped = m.mapped ++ (m.memory ∷ []) })

unfoldable pub receive : Receiver → SharedState → Receiver × SharedState
unfolding map_region
receive top m =
    if ltb 0 m.stop then (receiver_done, record m { stop = m.stop - 1 }) else (try_data, m)
receive try_data m =
    if ltb 0 m.available then (mapping, record m { available = m.available - 1 }) else (top, m)
receive mapping m = map_region m
receive (post_space n) m = (deliver n, record m { space = m.space + 1 })
receive (deliver n) m = (top, record m { dest = m.dest ++ resize n m.memory })
receive receiver_done m = (receiver_done, m)

pub record Processes : Type 0 where
  pub mem : SharedState
  pub sender : Sender
  pub receiver : Receiver

-- The semaphores as they are created, and a file that is read in these chunks.
unfoldable pub launch : List (List ℕ) → Processes
launch chunks = record {
  mem = record {
    space = 1;
    available = 0;
    stop = 0;
    memory = [];
    source = chunks;
    dest = [];
    mapped = [];
  };
  sender = fetch;
  receiver = top;
}

pub data Side : Type 0 where
  sending receiving : Side

unfoldable pub advance : Side → Processes → Processes
unfolding send receive
advance sending s = let (p, m) = send s.sender s.mem in record s { mem = m; sender = p }
advance receiving s = let (r, m) = receive s.receiver s.mem in record s { mem = m; receiver = r }

-- An interleaving is the sequence of the processes that step.
unfoldable pub interleave : List Side → Processes → Processes
unfolding advance
interleave [] s = s
interleave (t ∷ ts) s = interleave ts (advance t s)
