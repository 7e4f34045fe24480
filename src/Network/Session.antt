-- ===== src/Network/Session.antt =====
-- DataHandler.h on the segments that the segment readers of multy/src/FileStream pack.
use multithreading_io.Base.{
  ℕ, ◌≡◌, ◌≢◌, refl, ap, sym, ◌∙◌, true, some, List, [], ◌∷◌, ◌++◌, append-nil, append_assoc, ok,
  if◌then◌else◌, All, flatten, length, arith,
}
use multithreading_io.Wire.Cipher.{CtrMode, IsByte, Encryption, block_size}
use multithreading_io.Wire.Serializer.{DataType, file_name, file_data, pack, unpack}
use multithreading_io.Wire.Serializer.RoundTrip.{IsSent, IsPayload, unpack-pack, unpack-pack_append}
use multithreading_io.FileStream.Disk.{Disk, FilePath, same_path, same_path_iff}
use multithreading_io.FileStream.Writer.{FileDataWriter, create_writer, write_file, target}
use multithreading_io.FileStream.Writer.Laws.{create_writer_lem, write_file_lem}
use multithreading_io.Network.{
  after_unpack, DataHandler, handled, client_folder, handle_span, handle_spans, read_name,
  read_data, data_segments,
}

abbrev pub IsBlock : List ℕ → Type 0
IsBlock block = length block ≡ block_size

-- The payload of a data segment, with the block that the generator gives for it.
abbrev pub IsItem : List ℕ × List ℕ → Type 0
IsItem (block, chunk) = IsBlock block × IsPayload chunk

abbrev pub chunks_of : List (List ℕ × List ℕ) → List (List ℕ)
chunks_of [] = []
chunks_of ((block, chunk) ∷ items) = chunk ∷ chunks_of items

module _ (ctr : CtrMode) where
  -- A name segment opens the file.
  pub handle_name :
      (block : List ℕ) (e : Encryption) (name : List ℕ)
      → IsBlock block
      → IsPayload name
      → (segment : List ℕ) × (read_name ctr (ok block) e name ≡ ok (segment, record { iv = block }))
        × ((h : DataHandler) (d d' : Disk) (w : FileDataWriter)
            → create_writer name (client_folder h.id) d ≡ (ok w, d')
            → handle_span ctr segment h d
              ≡ (handled, record h { type = file_name; data_writer = some w }, d'))
  unfolding read_name handle_span client_folder
  handle_name block e [] hb p = absurd (p.some_bytes refl)
  handle_name block e (c ∷ name) hb p =
      let (segment, packed, back) = unpack-pack ctr file_name block e (c ∷ name) tt hb p in
      (segment, packed, λ h d d' w made. ground (arith, back h.type, made))

  handle_data :
      (block : List ℕ) (e : Encryption) (chunk : List ℕ)
      → IsBlock block
      → IsPayload chunk
      → (segment : List ℕ) × (read_data ctr (ok block) e chunk
          ≡ ok (segment, record { iv = block }))
        × ((h : DataHandler) (d : Disk) (w : FileDataWriter)
            → h.data_writer ≡ some w
            → handle_span ctr segment h d
              ≡ (handled, record h { type = file_data }, write_file w chunk d))
  unfolding read_data handle_span
  handle_data block e [] hb p = absurd (p.some_bytes refl)
  handle_data block e (c ∷ chunk) hb p =
      let (segment, packed, back) = unpack-pack ctr file_data block e (c ∷ chunk) tt hb p in
      (segment, packed, λ h d w made. ground (arith, back h.type, made))

  -- What a handler with an open writer, on a file that holds `old`, does with the segments of a
  -- file's chunks.
  record Appended (segments : List (List ℕ)) (old text : List ℕ) (h : DataHandler) (d : Disk)
      (w : FileDataWriter) : Type 0 where
    handler : DataHandler
    disk : Disk
    run : handle_spans ctr segments h d ≡ (handled, handler, disk)
    files :
        (q : FilePath)
        → disk.files q ≡ (if same_path w.path q then some (old ++ text) else d.files q)

  no_chunk :
      (h : DataHandler) (d : Disk) (w : FileDataWriter) (old : List ℕ) (q : FilePath)
      → d.files w.path ≡ some old
      → d.files q ≡ (if same_path w.path q then some (old ++ []) else d.files q)
  no_chunk h d w old q now = ground (arith, same_path_iff w.path q, append-nil old, now)

  data_session :
      (items : List (List ℕ × List ℕ)) (e : Encryption)
      → All IsItem items
      → (segments : List (List ℕ)) × (data_segments ctr e items ≡ ok segments)
        × ((h : DataHandler) (d : Disk) (w : FileDataWriter) (old : List ℕ)
            → h.data_writer ≡ some w
            → w.is_open ≡ true
            → d.files w.path ≡ some old
            → Appended segments old (flatten (chunks_of items)) h d w)
  unfolding data_segments handle_spans
  data_session [] e ok_items = (
    [],
    refl,
    λ h d w old made opened now. record {
      handler = h;
      disk = d;
      run = refl;
      files = λ q. no_chunk h d w old q now;
    },
  )
  data_session ((block, chunk) ∷ items) e ok_items =
      let (segment, packed, one) = handle_data block e chunk ok_items.0.0 ok_items.0.1 in
      let (segments, rest_packed, rest) = data_session items (record { iv = block }) ok_items.1 in
      (
        segment ∷ segments,
        ground (arith, packed, rest_packed),
        λ h d w old made opened now.
            let h' = record h { type = file_data } in
            let grew = write_file_lem w chunk d opened ok_items.0.1.some_bytes in
            let a =
              rest h' (write_file w chunk d) w (old ++ chunk) made opened
                (ground (arith, grew w.path, same_path_iff w.path w.path, now)) in
            record {
              handler = a.handler;
              disk = a.disk;
              run = ground (arith, one h d w made, a.run);
              files = λ q. ground (
                arith,
                a.files q,
                grew q,
                append_assoc old chunk (flatten (chunks_of items)),
                now,
              );
            },
      )

  -- A client sends the segment of a file's name and then, chunk by chunk, those of its bytes, each
  -- under a block of its own from the generator. If the server can open the file, then
  -- all segments can be packed, and the server takes all of them, whatever its handler
  -- did before: the file then holds exactly the chunks in order, and every other file is as before.
  pub file_session :
      (block : List ℕ) (e : Encryption) (name : List ℕ) (items : List (List ℕ × List ℕ))
      → IsBlock block
      → IsPayload name
      → All IsItem items
      → (h : DataHandler) (d d₀ : Disk) (w : FileDataWriter)
      → create_writer name (client_folder h.id) d ≡ (ok w, d₀)
      → (first : List ℕ) × (segments : List (List ℕ)) × (h' : DataHandler) × (d' : Disk)
        × (read_name ctr (ok block) e name ≡ ok (first, record { iv = block }))
        × (data_segments ctr (record { iv = block }) items ≡ ok segments)
        × (handle_spans ctr (first ∷ segments) h d ≡ (handled, h', d'))
        × ((q : FilePath)
            → d'.files q ≡ (
                if same_path (target d name (client_folder h.id)) q
                then some (flatten (chunks_of items))
                else d.files q))
  unfolding handle_spans
  file_session block e name items hb p ok_items h d d₀ w made =
      let (first, packed, open_it) = handle_name block e name hb p in
      let (segments, rest_packed, rest) = data_session items (record { iv = block }) ok_items in
      let h' = record h { type = file_name; data_writer = some w } in
      let (opened, path, others) = create_writer_lem name (client_folder h.id) d d₀ w made in
      let a =
        rest h' d₀ w [] refl opened (ground (arith, others w.path, same_path_iff w.path w.path)) in
      (
        first,
        segments,
        a.handler,
        a.disk,
        packed,
        rest_packed,
        ground (arith, open_it h d d₀ w made, a.run),
        λ q. ground (arith, a.files q, others q, path),
      )

  -- Whatever follows a segment in the same span is lost without an error: the handler does the same
  -- as on the segment alone.
  pub joined_spans_lose :
      (type : DataType) (block : List ℕ) (e : Encryption) (plain : List ℕ)
      → IsSent type
      → IsBlock block
      → plain ≢ []
      → All IsByte plain
      → (rest : List ℕ) (h : DataHandler) (d : Disk)
      → (segment : List ℕ) × (pack ctr type (ok block) e plain
          ≡ ok (segment, record { iv = block }))
        × (handle_span ctr (segment ++ rest) h d ≡ handle_span ctr segment h d)
  unfolding handle_span
  joined_spans_lose type block e plain sent hb ne bytes rest h d =
      let (segment, packed, size, back) =
        unpack-pack_append ctr type block e plain sent hb ne bytes in
      (
        segment,
        packed,
        ap (λ u. after_unpack u.0 u.1 h d)
            (back h.type rest ∙ sym (back h.type []) ∙ ap (unpack ctr h.type) (append-nil segment)),
      )
