-- ===== src/Whole.antt =====
-- The parts together: FileDataReader.h in front of the two threads of MultiThreadTask.cpp, and in
-- front of the segments that a client sends to the server.
use multithreading_io.Base.{
  ℕ, suc, ◌+◌, ◌<◌, ◌≡◌, true, some, List, [], ◌∷◌, ok, flatten, All, All-append, length,
  if◌then◌else◌, refl, ap, subst, sym, ◌∙◌, arith,
}
use multithreading_io.Wire.Cipher.{CtrMode, IsByte, Encryption}
use multithreading_io.Wire.Serializer.RoundTrip.{IsPayload}
use multithreading_io.Command.{default_chunk_size, buffer_size}
use multithreading_io.FileStream.{FileDataReader, create_reader, read_to_end}
use multithreading_io.FileStream.Chunks.{IsChunk, read_to_end_lem}
use multithreading_io.FileStream.Disk.{FilePath, Disk, same_path}
use multithreading_io.FileStream.Writer.{FileDataWriter, create_writer, target}
use multithreading_io.Threads.Pipeline.{producer_done, consumer_done, start, Thread, run}
use multithreading_io.Threads.Pipeline.Invariant.{NonEmpty}
use multithreading_io.Threads.Pipeline.Deliver.{transfer_possible}
use multithreading_io.Network.{
  DataHandler, handled, client_folder, handle_spans, read_name, data_segments,
}
use multithreading_io.Network.Session.{IsBlock, IsItem, chunks_of, file_session}

-- The reader that `CreateFileDataReader` returns for a file with these bytes.
abbrev pub file_reader : List ℕ → FileDataReader
file_reader bytes = record {
  stream = record { rest = bytes; good = true };
  chunk_size = default_chunk_size;
}

-- The spans that a task gets from it until the file ends.
abbrev pub file_chunks : List ℕ → List (List ℕ)
file_chunks bytes = (read_to_end (length bytes + 2) (file_reader bytes)).0

pub file_chunks_lem :
    (bytes : List ℕ)
    → (flatten (file_chunks bytes) ≡ bytes) × All (IsChunk default_chunk_size) (file_chunks bytes)
file_chunks_lem bytes =
    let (whole, chunks, over) =
      read_to_end_lem (length bytes + 2) default_chunk_size bytes (omega arith) (omega arith) in
    (whole, chunks)

chunks-NonEmpty : (cs : List (List ℕ)) → All (IsChunk default_chunk_size) cs → All NonEmpty cs
chunks-NonEmpty [] h = tt
chunks-NonEmpty ([] ∷ cs) h = absurd (omega (arith, h.0.0))
chunks-NonEmpty ((x ∷ xs) ∷ cs) h = ((λ e. cc), chunks-NonEmpty cs h.1)

chunks_fit :
    (cs : List (List ℕ))
    → All (IsChunk default_chunk_size) cs
    → All (λ c. length c < buffer_size) cs
chunks_fit [] h = tt
chunks_fit (c ∷ cs) h = (omega (arith, h.0.1), chunks_fit cs h.1)

-- With the sizes of the program, every file can be copied: the reader opens, and for the chunks that
-- it reads until the file ends there is an interleaving of the two threads after which both have
-- finished and the output file has the bytes of the input file.
pub copy_possible :
    (bytes : List ℕ)
    → (create_reader true bytes default_chunk_size ≡ ok (file_reader bytes))
      × (ts : List Thread) × let s = run ts (start buffer_size (file_chunks bytes)) in
          (s.producer ≡ producer_done) × (s.consumer ≡ consumer_done) × (s.mem.dest ≡ bytes)
unfolding create_reader
copy_possible bytes =
    let (whole, chunks) = file_chunks_lem bytes in
    let (ts, (p, c, d)) =
      transfer_possible buffer_size (file_chunks bytes) (omega arith) (omega arith)
        (chunks-NonEmpty (file_chunks bytes) chunks) (chunks_fit (file_chunks bytes) chunks) in
    (refl, ts, (p, c, d ∙ whole))

-- The chunks, each with the block that the generator gives for it.
abbrev pub with_blocks : (ℕ → List ℕ) → ℕ → List (List ℕ) → List (List ℕ × List ℕ)
with_blocks random n [] = []
with_blocks random n (c ∷ cs) = (random n, c) ∷ with_blocks random (suc n) cs

pub chunks_of-with_blocks :
    (random : ℕ → List ℕ) (n : ℕ) (cs : List (List ℕ)) → chunks_of (with_blocks random n cs) ≡ cs
chunks_of-with_blocks random n [] = refl
chunks_of-with_blocks random n (c ∷ cs) = ap (◌∷◌ c) (chunks_of-with_blocks random (suc n) cs)

pub items-IsItem :
    (random : ℕ → List ℕ) (n : ℕ) (cs : List (List ℕ))
    → ((k : ℕ) → IsBlock (random k))
    → All (IsChunk default_chunk_size) cs
    → All IsByte (flatten cs)
    → All IsItem (with_blocks random n cs)
items-IsItem random n [] hb h b = tt
items-IsItem random n ([] ∷ cs) hb h b = absurd (omega (arith, h.0.0))
items-IsItem random n ((x ∷ xs) ∷ cs) hb h b =
    let (one, rest) = All-append IsByte (x ∷ xs) (flatten cs) b in
    (
      (hb n, record { some_bytes = λ e. cc; bytes = one; short = omega (arith, h.0.1) }),
      items-IsItem random (suc n) cs hb h.1 rest,
    )

-- A client that can send a name and a file of bytes, read in chunks of the program's size and each
-- sealed with a block from the generator, has it arrive as it is: if the server can open the
-- file, then its handler takes all the segments, the file there has the bytes of the
-- client's file, and every other file is as before.
pub file_arrives :
    (ctr : CtrMode) (random : ℕ → List ℕ) (e : Encryption) (name bytes : List ℕ)
    → ((k : ℕ) → IsBlock (random k))
    → IsPayload name
    → All IsByte bytes
    → (h : DataHandler) (d d₀ : Disk) (w : FileDataWriter)
    → create_writer name (client_folder h.id) d ≡ (ok w, d₀)
    → (first : List ℕ) × (segments : List (List ℕ)) × (h' : DataHandler) × (d' : Disk) × (read_name
          ctr
          (ok (random 0))
          e
          name
        ≡ ok (first, record { iv = random 0 }))
      × (data_segments ctr (record { iv = random 0 }) (with_blocks random 1 (file_chunks bytes))
          ≡ ok segments)
      × (handle_spans ctr (first ∷ segments) h d ≡ (handled, h', d'))
      × ((q : FilePath)
          → d'.files q
            ≡ (if same_path (target d name (client_folder h.id)) q then some bytes else d.files q))
file_arrives ctr random e name bytes hb p all_bytes h d d₀ w made =
    let (whole, chunks) = file_chunks_lem bytes in
    let cs = file_chunks bytes in
    let (first, segments, h', d', a, b, c, files) =
      file_session ctr (random 0) e name (with_blocks random 1 cs) (hb 0) p
        (items-IsItem random 1 cs hb chunks (subst (All IsByte) (sym whole) all_bytes)) h d d₀ w
        made in
    (
      first,
      segments,
      h',
      d',
      a,
      b,
      c,
      λ q.
          files q
          ∙ ap (λ l. if same_path (target d name (client_folder h.id)) q then some l else d.files q)
              (ap flatten (chunks_of-with_blocks random 1 cs) ∙ whole),
    )
