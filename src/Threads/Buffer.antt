-- ===== src/Threads/Buffer.antt =====
-- multy/src/Threads/CircularBuffer.h, BufferReader.h, BufferWriter.h and the two flags of
-- BufferStateSync.h that the buffer switches through BufferStateSetter.h and that the threads read
-- through BufferStateGetter.h.
pub mod Bounds
pub mod Contents
pub mod Transfer
pub mod Refine
pub mod Stores
use multithreading_io.Base.{
  ℕ, zero, suc, ◌+◌, ◌%◌, Bool, true, false, Option, none, some, List, [], ◌∷◌, leb, ◌==◌,
  if◌then◌else◌, add_size, sub_size, get_elem?, set, replicate,
}

pub record BufferStateSync : Type 0 where
  pub writing_enabled : Bool
  pub reading_enabled : Bool

abbrev pub initial_sync : BufferStateSync
initial_sync = record { writing_enabled = true; reading_enabled = false }

-- The getter's two loads.
abbrev pub is_writing_enabled : BufferStateSync → Bool
is_writing_enabled s = s.writing_enabled

abbrev pub is_reading_enabled : BufferStateSync → Bool
is_reading_enabled s = s.reading_enabled

unfoldable pub enable_writing : BufferStateSync → BufferStateSync
enable_writing s = record s { writing_enabled = true }

unfoldable pub enable_reading : BufferStateSync → BufferStateSync
enable_reading s = record s { reading_enabled = true }

unfoldable pub disable_writing : BufferStateSync → BufferStateSync
disable_writing s = record s { writing_enabled = false }

unfoldable pub disable_reading : BufferStateSync → BufferStateSync
disable_reading s = record s { reading_enabled = false }

-- `cells` is what `data_` points to; a cell is a byte, only moved. `state` is the record that the
-- setter refers to. `% capacity` at capacity 0 is a fault of the program, which no caller meets.
pub record CircularBuffer : Type 0 where
  pub cells : List ℕ
  pub capacity : ℕ
  pub head : ℕ
  pub tail : ℕ
  pub state : BufferStateSync

-- Without a mapped view the cells are a fresh vector of `size` zeros. The two atomic indices start
-- at 0.
unfoldable pub create : ℕ → BufferStateSync → Option (List ℕ) → CircularBuffer
create size st none = record {
  cells = replicate size 0;
  capacity = size;
  head = 0;
  tail = 0;
  state = st;
}
create size st (some view) = record {
  cells = view;
  capacity = size;
  head = 0;
  tail = 0;
  state = st;
}

-- `operator[]`; `none` is an access outside the cells.
unfoldable pub at : CircularBuffer → ℕ → Option ℕ
at b index = get_elem? b.cells (index % b.capacity)

-- The size from the two loaded indices.
abbrev pub size_between : ℕ → ℕ → ℕ → ℕ
size_between capacity head tail =
    if leb head tail then sub_size tail head else add_size (sub_size capacity head) tail

unfoldable pub get_data_size : CircularBuffer → ℕ
get_data_size b = size_between b.capacity b.head b.tail

unfoldable pub write : CircularBuffer → ℕ → CircularBuffer
unfolding disable_writing enable_reading
write b item =
    let next_tail = add_size b.tail 1 % b.capacity in
    if next_tail == b.head then record b { state = disable_writing b.state } else record b {
      cells = set b.cells b.tail item;
      tail = next_tail;
      state = enable_reading b.state;
    }

unfoldable pub get_head : CircularBuffer → ℕ
get_head b = b.head

unfoldable pub set_head : CircularBuffer → ℕ → CircularBuffer
unfolding enable_writing disable_reading
set_head b value =
    let new_head = add_size b.head value % b.capacity in
    let st = enable_writing b.state in
    record b { head = new_head; state = if new_head == b.tail then disable_reading st else st }

-- The loop of `BufferReader::Read` from index `i` on, with `k` rounds left.
unfoldable pub read_chunk : CircularBuffer → ℕ → ℕ → ℕ → Option (List ℕ)
read_chunk b head i zero = some []
read_chunk b head i (suc k) = elim (at b (add_size head i)) [
  | none ↦ none
  | some c ↦ elim (read_chunk b head (i + 1) k) [ none ↦ none | some cs ↦ some (c ∷ cs) ]
]

-- `BufferReader::Read`: the bytes of the span, and the buffer afterwards.
unfoldable pub buffer_read : CircularBuffer → Option (List ℕ × CircularBuffer)
unfolding get_head
buffer_read b =
    let data_size = get_data_size b in
    elim (read_chunk b (get_head b) 0 data_size) [
      | none ↦ none
      | some chunk ↦ some (chunk, set_head b data_size)
    ]

-- `BufferWriter::Write`.
unfoldable pub buffer_write : CircularBuffer → List ℕ → CircularBuffer
buffer_write b [] = b
buffer_write b (value ∷ values) = buffer_write (write b value) values
