-- ===== src/Threads/Objects.antt =====
-- The objects that MultiThreadTask::Create puts together for multi-thread mode: BufferStateSetter.h,
-- BufferStateGetter.h, BufferReader.h, BufferWriter.h, SyncWriteDataAccess.h, SyncReadDataAccess.h,
-- FileDataTransferTask.h, BufferTransferTask.h and MultiThreadTask.h, with what they refer to. What
-- several objects refer to, and some of them change, is in a store, under an address; a file reader
-- or writer is given by the name of its file.
pub mod Creation
pub mod Writes
use Prim.Native.String.{String}
use multithreading_io.Base.{
  ℕ, ◌+◌, ◌%◌, Bool, true, false, Option, none, some, List, [], ◌∷◌, ◌++◌, Result, ok, throw,
  logic_error, runtime_error, ◌>>=◌, ◌>>◌, ◌==◌, if◌then◌else◌, add_size, length, get_elem?, set,
  replicate,
}
use multithreading_io.Command.{SCommand, buffer_size}
use multithreading_io.Factory.{Environment, check, value}
use multithreading_io.Threads.Buffer.{
  BufferStateSync, initial_sync, enable_reading, disable_writing, enable_writing, disable_reading,
  CircularBuffer, read_chunk, get_head, get_data_size,
}

abbrev pub Address : Type 0
Address = ℕ

-- Both hold a reference to the two flags.
pub record BufferStateSetter : Type 0 where
  pub sync : Address

pub record BufferStateGetter : Type 0 where
  pub sync : Address

-- A `CircularBuffer` in the store; its flags are behind the setter.
pub record StoredBuffer : Type 0 where
  pub cells : List ℕ
  pub capacity : ℕ
  pub head : ℕ
  pub tail : ℕ
  pub state : BufferStateSetter

pub record BufferWriter : Type 0 where
  pub buffer : Address

pub record BufferReader : Type 0 where
  pub buffer : Address

pub record SafeWriteDataAccess : Type 0 where
  pub running : Address
  pub writer : BufferWriter
  pub buffer_state : BufferStateGetter

pub record SafeReadDataAccess : Type 0 where
  pub running : Address
  pub reader : BufferReader
  pub buffer_state : BufferStateGetter

pub record FileDataTransferTask : Type 0 where
  pub sync_data_access : SafeWriteDataAccess
  pub reader : String

pub record BufferTransferTask : Type 0 where
  pub sync_data_access : SafeReadDataAccess
  pub writer : String

-- The flags and `running_` are members of this object, so that they have addresses.
pub record MultiThreadTask : Type 0 where
  pub reader : FileDataTransferTask
  pub writer : BufferTransferTask
  pub buffer_sync : Address
  pub running : Address

pub record Store : Type 0 where
  pub syncs : List BufferStateSync
  pub flags : List Bool
  pub buffers : List StoredBuffer

abbrev pub new_sync : BufferStateSync → Store → Address × Store
new_sync x s = (length s.syncs, record s { syncs = s.syncs ++ (x ∷ []) })

abbrev pub new_flag : Bool → Store → Address × Store
new_flag x s = (length s.flags, record s { flags = s.flags ++ (x ∷ []) })

abbrev pub new_buffer : StoredBuffer → Store → Address × Store
new_buffer x s = (length s.buffers, record s { buffers = s.buffers ++ (x ∷ []) })

-- `dataVec_`.
pub fresh_cells : ℕ → List ℕ
fresh_cells size = replicate size 0

-- The constructor of CircularBuffer without a mapped view.
create_buffer : ℕ → BufferStateSetter → StoredBuffer
create_buffer size state = record {
  cells = fresh_cells size;
  capacity = size;
  head = 0;
  tail = 0;
  state = state;
}

module _ (env : Environment) where
  -- `ReaderFactory::CreateTask` in multi-thread mode, with its three further arguments.
  multi_thread_reader :
      Option (List String)
      → Address
      → BufferWriter
      → BufferStateGetter
      → Result FileDataTransferTask
  multi_thread_reader none running writer state = throw logic_error
  multi_thread_reader (some []) running writer state = throw logic_error
  multi_thread_reader (some (source ∷ sources)) running writer state =
      let access : SafeWriteDataAccess = record {
        running = running;
        writer = writer;
        buffer_state = state;
      } in
      do
        check (env.can_read source) runtime_error
        ok (record { sync_data_access = access; reader = source })

  -- `WriterFactory::CreateTask` in this mode.
  multi_thread_writer :
      Option String → Address → BufferReader → BufferStateGetter → Result BufferTransferTask
  multi_thread_writer dest running reader state =
      let access : SafeReadDataAccess = record {
        running = running;
        reader = reader;
        buffer_state = state;
      } in
      do
        name ← value dest
        check (env.can_write name) runtime_error
        ok (record { sync_data_access = access; writer = name })

  -- `MultiThreadTask::Create`.
  unfoldable pub create_multi_thread : SCommand → Store → Result (MultiThreadTask × Store)
  unfolding multi_thread_reader multi_thread_writer create_buffer
  create_multi_thread c s =
      let (sync, s₁) = new_sync initial_sync s in
      let (running, s₂) = new_flag true s₁ in
      let getter : BufferStateGetter = record { sync = sync } in
      let (buffer, s₃) = new_buffer (create_buffer buffer_size (record { sync = sync })) s₂ in
      do
        reader ← multi_thread_reader c.sources running (record { buffer = buffer }) getter
        writer ← multi_thread_writer c.dest running (record { buffer = buffer }) getter
        ok (record { reader = reader; writer = writer; buffer_sync = sync; running = running }, s₃)

-- What a method does to the flags that a setter refers to; `none` is a dangling reference.
unfoldable pub set_state :
    BufferStateSetter → (BufferStateSync → BufferStateSync) → Store → Option Store
set_state setter change s = elim (get_elem? s.syncs setter.sync) [
  | none ↦ none
  | some x ↦ some (record s { syncs = set s.syncs setter.sync (change x) })
]

-- `CircularBuffer::Write` on the buffer at an address.
put_item : Address → StoredBuffer → ℕ → Store → Option Store
unfolding set_state
put_item a b item s =
    let next_tail = add_size b.tail 1 % b.capacity in
    if next_tail == b.head
    then set_state b.state disable_writing s
    else set_state b.state enable_reading (record s {
      buffers = set s.buffers a (record b { cells = set b.cells b.tail item; tail = next_tail });
    })

unfoldable pub write_item : Address → ℕ → Store → Option Store
unfolding put_item
write_item a item s = elim (get_elem? s.buffers a) [ none ↦ none | some b ↦ put_item a b item s ]

-- `BufferWriter::Write`.
unfoldable pub write_through : BufferWriter → List ℕ → Store → Option Store
write_through w [] s = some s
write_through w (item ∷ items) s = elim (write_item w.buffer item s) [
  | none ↦ none
  | some s' ↦ write_through w items s'
]

-- `CircularBuffer::SetHead`.
move_head : Address → StoredBuffer → ℕ → Store → Option Store
unfolding set_state
move_head a b value s =
    let new_head = add_size b.head value % b.capacity in
    let moved = record s { buffers = set s.buffers a (record b { head = new_head }) } in
    set_state b.state
      (λ x. if new_head == b.tail then disable_reading (enable_writing x) else enable_writing x)
      moved

unfoldable pub set_head_at : Address → ℕ → Store → Option Store
unfolding move_head
set_head_at a value s = elim (get_elem? s.buffers a) [
  | none ↦ none
  | some b ↦ move_head a b value s
]

-- What a method of the buffer at an address works on.
abbrev pub as_buffer : StoredBuffer → BufferStateSync → CircularBuffer
as_buffer b state = record {
  cells = b.cells;
  capacity = b.capacity;
  head = b.head;
  tail = b.tail;
  state = state;
}

unfoldable pub load_buffer : Address → Store → Option CircularBuffer
load_buffer a s = elim (get_elem? s.buffers a) [
  | none ↦ none
  | some b ↦ elim (get_elem? s.syncs b.state.sync) [ none ↦ none | some st ↦ some (as_buffer b st) ]
]

-- `BufferReader::Read`.
unfoldable pub read_through : BufferReader → Store → Option (List ℕ × Store)
read_through r s = elim (load_buffer r.buffer s) [
  | none ↦ none
  | some b ↦ elim (read_chunk b (get_head b) 0 (get_data_size b)) [
    | none ↦ none
    | some chunk ↦ elim (set_head_at r.buffer (get_data_size b) s) [
      | none ↦ none
      | some s' ↦ some (chunk, s')
    ]
  ]
]

-- The two loads of BufferStateGetter.h.
unfoldable pub load_sync : BufferStateGetter → Store → Option BufferStateSync
load_sync g s = get_elem? s.syncs g.sync
