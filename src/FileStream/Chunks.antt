-- ===== src/FileStream/Chunks.antt =====
-- FileDataReader.h: the chunks that a file is read in.
use multithreading_io.Base.{
  ℕ, zero, suc, ◌+◌, ◌≤◌, ◌<◌, ◌≡◌, ◌≢◌, refl, Bool, true, false, List, [], ◌∷◌, length, take, drop,
  flatten, All, arith, length-take, length-drop, take-append-drop,
}
use mathlib.Core.List.{append-nil}
use native.Mathlib.Decide.{dec_le}
use multithreading_io.FileStream.{FileDataReader, read, read_to_end}

-- A reader that has not met the end of its file.
abbrev reader : List ℕ → Bool → ℕ → FileDataReader
reader bytes good size = record { stream = record { rest = bytes; good = good }; chunk_size = size }

-- A chunk of the file: some bytes, and no more than the buffer holds.
abbrev pub IsChunk : ℕ → List ℕ → Type 0
IsChunk size chunk = (0 < length chunk) × (length chunk ≤ size)

read_full :
    (bytes : List ℕ) (size : ℕ)
    → 0 < size
    → size ≤ length bytes
    → read (reader bytes true size) ≡ (take size bytes, reader (drop size bytes) true size)
unfolding read
read_full bytes size h k = ground (arith, length-take size bytes)

read_last :
    (bytes : List ℕ) (size : ℕ)
    → 0 < length bytes
    → length bytes < size
    → read (reader bytes true size) ≡ (bytes, reader [] false (length bytes))
unfolding read
read_last bytes size h k = ground arith

read_end : (size : ℕ) → 0 < size → (read (reader [] true size)).0 ≡ []
unfolding read
read_end size h = ground arith

read_again : (size : ℕ) → (read (reader [] false size)).0 ≡ []
unfolding read
read_again size = refl

pub read_step :
    (fuel : ℕ) (r r' : FileDataReader) (chunk : List ℕ)
    → read r ≡ (chunk, r')
    → chunk ≢ []
    → read_to_end (suc fuel) r ≡ (chunk ∷ (read_to_end fuel r').0, (read_to_end fuel r').1)
unfolding read_to_end
read_step fuel r r' [] e h = absurd (h refl)
read_step fuel r r' (x ∷ xs) e h = ground (arith, e)

pub read_stop :
    (fuel : ℕ) (r : FileDataReader) → (read r).0 ≡ [] → read_to_end (suc fuel) r ≡ ([], true)
unfolding read_to_end
read_stop fuel r e = rw (e, read_to_end)

-- Read with enough calls, the chunks put together are the file, each of them holds some bytes and at
-- most as many as the buffer, and the reader ends with an empty span.
pub read_to_end_lem :
    (fuel size : ℕ) (bytes : List ℕ)
    → 0 < size
    → length bytes + 1 < fuel
    → let (chunks, over) = read_to_end fuel (reader bytes true size) in
      (flatten chunks ≡ bytes) × All (IsChunk size) chunks × (over ≡ true)
read_to_end_lem zero size bytes h lt = absurd (omega arith)
read_to_end_lem (suc fuel) size [] h lt =
    ground (arith, read_stop fuel (reader [] true size) (read_end size h))
read_to_end_lem (suc zero) size (x ∷ xs) h lt = absurd (omega arith)
read_to_end_lem (suc (suc fuel)) size (x ∷ xs) h lt = elim (dec_le size (length (x ∷ xs))) [
  | yes full ↦ ground (
    arith,
    read_step (suc fuel) (reader (x ∷ xs) true size) (reader (drop size (x ∷ xs)) true size)
        (take size (x ∷ xs)) (read_full (x ∷ xs) size h full),
    length-take size (x ∷ xs),
    length-drop size (x ∷ xs),
    take-append-drop size (x ∷ xs),
    read_to_end_lem (suc fuel) size (drop size (x ∷ xs)) h,
  )
  | no less ↦ ground (
    arith,
    read_step (suc fuel) (reader (x ∷ xs) true size) (reader [] false (length (x ∷ xs))) (x ∷ xs)
        (read_last (x ∷ xs) size (omega arith) (omega arith)),
    read_stop fuel (reader [] false (length (x ∷ xs))) (read_again (length (x ∷ xs))),
    append-nil (x ∷ xs),
  )
]
