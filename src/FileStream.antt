-- ===== src/FileStream.antt =====
-- multy/src/FileStream/FileDataReader.h: a file read in chunks, with the `std::ifstream` it uses.
pub mod Chunks
pub mod Disk
pub mod Writer
use multithreading_io.Base.{
  ℕ, zero, suc, ◌-◌, Bool, true, false, ◌||◌, List, [], ◌∷◌, Result, ok, throw, runtime_error, leb,
  ltb, ◌==◌, if◌then◌else◌, length, take, drop, Exception,
}

-- The stream: the bytes from its position on, and whether neither `eofbit` nor `failbit` is set.
pub record Stream : Type 0 where
  pub rest : List ℕ
  pub good : Bool

-- `stream.read(p, n)`: the bytes extracted (`gcount()` is their number), whether the stream tests
-- true afterwards, and the stream.
unfoldable pub stream_read : ℕ → Stream → List ℕ × Bool × Stream
stream_read n s =
    if s.good
    then (if leb n (length s.rest)
        then (take n s.rest, true, record s { rest = drop n s.rest })
        else (s.rest, false, record { rest = []; good = false }))
    else ([], false, s)

-- `chunk_size` is the size of `chunkBuffer`.
pub record FileDataReader : Type 0 where
  pub stream : Stream
  pub chunk_size : ℕ

-- `Create` for a file with these bytes; `opened` says whether the system could open it.
unfoldable pub create_reader : Bool → List ℕ → ℕ → Result FileDataReader
create_reader opened bytes chunk_size =
    if opened
    then ok (record { stream = record { rest = bytes; good = true }; chunk_size = chunk_size })
    else throw runtime_error

-- `Read`. The buffer shrinks to what was read, and stays so.
unfoldable pub read : FileDataReader → List ℕ × FileDataReader
unfolding stream_read
read r =
    let (bytes, test, s) = stream_read r.chunk_size r.stream in
    let bytes_read = length bytes in
    if test || ltb 0 bytes_read
    then (
      bytes,
      record { stream = s; chunk_size = if bytes_read == 0 then r.chunk_size else bytes_read },
    )
    else ([], record r { stream = s })

-- The chunks that a caller gets who reads until a span is empty, in at most `fuel` calls of `Read`;
-- the flag says whether the empty span came.
unfoldable pub read_to_end : ℕ → FileDataReader → List (List ℕ) × Bool
read_to_end zero r = ([], false)
read_to_end (suc fuel) r =
    let (bytes, r') = read r in
    elim bytes [
      | [] ↦ ([], true)
      | x ∷ xs ↦ let (chunks, over) = read_to_end fuel r' in ((x ∷ xs) ∷ chunks, over)
    ]
