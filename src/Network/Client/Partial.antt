-- ===== src/Network/Client/Partial.antt =====
-- TCPClient.h and DataHandler.h when only the first of a client's spans have arrived.
use multithreading_io.Base.{
  ℕ, zero, suc, ◌+◌, ◌≡◌, Bool, true, false, some, Result, throw, ◌>>=◌, List, [], ◌∷◌, ok,
  if◌then◌else◌, take, drop, flatten, flatten_front, length, All, All-take, All-append, ap, ap₂,
  sym, subst, ◌∙◌, refl, arith,
}
use multithreading_io.Wire.Cipher.{CtrMode, IsByte, Encryption, new_encryption}
use multithreading_io.Wire.Serializer.RoundTrip.{IsPayload}
use multithreading_io.Command.{default_chunk_size}
use multithreading_io.FileStream.Chunks.{IsChunk}
use multithreading_io.FileStream.Disk.{FilePath, Disk, same_path}
use multithreading_io.FileStream.Writer.{FileDataWriter, create_writer, target}
use multithreading_io.Transfer.{done}
use multithreading_io.Network.{
  DataHandler, handled, client_folder, handle_spans, read_data, data_segments,
}
use multithreading_io.Network.Session.{IsBlock, file_session}
use multithreading_io.Network.Client.{TcpClient, Sending, handler_called, create_sending, send_file}
use multithreading_io.Network.Client.Send.{connected_lem}
use multithreading_io.Whole.{
  file_chunks, file_chunks_lem, with_blocks, items-IsItem, chunks_of-with_blocks,
}

-- The first segments of a file are the segments of its first chunks.
Takes : CtrMode → ℕ → List (List ℕ × List ℕ) → Type 0
Takes ctr n items =
    (e : Encryption) (segments : List (List ℕ))
    → data_segments ctr e items ≡ ok segments
    → data_segments ctr e (take n items) ≡ ok (take n segments)

segment_first :
    (ctr : CtrMode) (n : ℕ) (items : List (List ℕ × List ℕ)) (segment : List ℕ) (e : Encryption)
    (segments : List (List ℕ)) (later : Result (List (List ℕ)))
    → Takes ctr n items
    → data_segments ctr e items ≡ later
    → (later >>= λ l. ok (segment ∷ l)) ≡ ok segments
    → (data_segments ctr e (take n items) >>= λ l. ok (segment ∷ l)) ≡ ok (take (suc n) segments)
unfolding Takes
segment_first ctr n items segment e segments (ok later) takes q h = ground (arith, takes e later q)
segment_first ctr n items segment e segments (throw z) takes q h = cc

chunk_first :
    (ctr : CtrMode) (n : ℕ) (block chunk : List ℕ) (items : List (List ℕ × List ℕ)) (e : Encryption)
    (segments : List (List ℕ)) (r : Result (List ℕ × Encryption))
    → Takes ctr n items
    → read_data ctr (ok block) e chunk ≡ r
    → data_segments ctr e ((block, chunk) ∷ items) ≡ ok segments
    → data_segments ctr e ((block, chunk) ∷ take n items) ≡ ok (take (suc n) segments)
unfolding data_segments
chunk_first ctr n block chunk items e segments (ok (segment, e')) takes q h = rw q (
    segment_first ctr n items segment e' segments (data_segments ctr e' items) takes refl
      (rw q at h))
chunk_first ctr n block chunk items e segments (throw z) takes q h = absurd (ground (arith, q, h))

data_segments-take :
    (ctr : CtrMode) (n : ℕ) (items : List (List ℕ × List ℕ)) (e : Encryption)
    (segments : List (List ℕ))
    → data_segments ctr e items ≡ ok segments
    → data_segments ctr e (take n items) ≡ ok (take n segments)
unfolding data_segments Takes
data_segments-take ctr zero items e segments h = refl
data_segments-take ctr (suc n) [] e segments h = ground arith
data_segments-take ctr (suc n) ((block, chunk) ∷ items) e segments h =
    chunk_first ctr n block chunk items e segments (read_data ctr (ok block) e chunk)
      (data_segments-take ctr n items) refl h

take-with_blocks :
    (random : ℕ → List ℕ) (k n : ℕ) (cs : List (List ℕ))
    → take n (with_blocks random k cs) ≡ with_blocks random k (take n cs)
take-with_blocks random k zero cs = refl
take-with_blocks random k (suc n) [] = refl
take-with_blocks random k (suc n) (c ∷ cs) =
    ap (◌∷◌ (random k, c)) (take-with_blocks random (suc k) n cs)

-- A client that has connected sends a file as it does for `client_to_server`. When the server's handler
-- has been given the first spans, the name's and those of `n` chunks, the file holds these chunks.
pub client_partial :
    (ctr : CtrMode) (random : ℕ → List ℕ) (accepts : List ℕ → List ℕ → ℕ)
    (present : FilePath → Bool) (opened : Bool) (name bytes : List ℕ) (w : Sending) (n : ℕ)
    → ((k : ℕ) → IsBlock (random k))
    → IsPayload name
    → All IsByte bytes
    → create_sending ctr present opened name bytes (handler_called false true) ≡ ok w
    → (h : DataHandler) (d d₀ : Disk) (fw : FileDataWriter)
    → create_writer name (client_folder h.id) d ≡ (ok fw, d₀)
    → (w' : Sending) × (h' : DataHandler) × (d' : Disk) × (send_file ctr
          (λ k. ok (random k))
          accepts
          (length bytes + 1)
          name
          w
        ≡ (done tt, w'))
      × (handle_spans ctr (take (suc n) w'.client.pending) h d ≡ (handled, h', d'))
      × ((q : FilePath)
          → d'.files q ≡ (
              if same_path (target d name (client_folder h.id)) q
              then some (flatten (take n (file_chunks bytes)))
              else d.files q))
client_partial ctr random accepts present opened name bytes w n hb p all_bytes made h d d₀ fw
      opens =
    let (first, segments, w', named, sealed, sent, client) =
      connected_lem ctr random accepts present opened name bytes w made in
    let cs = file_chunks bytes in
    let front = take n cs in
    let (whole, chunks) = file_chunks_lem bytes in
    let front_bytes : All IsByte (flatten front) =
      (All-append IsByte (flatten front) (flatten (drop n cs))
        (subst (All IsByte) (sym (flatten_front n cs ∙ whole)) all_bytes)).0 in
    let (first', segments', h', d', named', sealed', taken_up, files) =
      file_session ctr (random 0) new_encryption name (with_blocks random 1 front) (hb 0) p
        (items-IsItem random 1 front hb (All-take (IsChunk default_chunk_size) n cs chunks)
          front_bytes)
        h d d₀ fw opens in
    let sealed_front : data_segments ctr (record { iv = random 0 }) (with_blocks random 1 front)
        ≡ ok (take n segments) =
      ap (data_segments ctr (record { iv = random 0 })) (sym (take-with_blocks random 1 n cs))
      ∙ data_segments-take ctr n (with_blocks random 1 cs) (record { iv = random 0 }) segments
          sealed in
    let same : (first' ∷ segments') ≡ (first ∷ take n segments) = ap₂ ◌∷◌ (cc) (cc) in
    (
      w',
      h',
      d',
      sent,
      ap (λ l. handle_spans ctr l h d)
            (ap (λ (c : TcpClient). take (suc n) c.pending) client ∙ sym same)
          ∙ taken_up,
      λ q.
          files q
          ∙ ap
              (λ l.
                if same_path (target d name (client_folder h.id)) q
                then some (flatten l)
                else d.files q)
              (chunks_of-with_blocks random 1 front),
    )
