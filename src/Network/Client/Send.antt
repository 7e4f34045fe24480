-- ===== src/Network/Client/Send.antt =====
-- FileTransferTask.h over TCPClient.h: what the client writes for one file.
use multithreading_io.Base.{
  ℕ, suc, ◌+◌, ◌≡◌, Bool, true, false, List, [], ◌∷◌, ok, length, refl, ap, subst, sym, ◌∙◌, arith,
}
use multithreading_io.Wire.Cipher.{CtrMode, new_encryption}
use multithreading_io.FileStream.{create_reader, read, read_to_end}
use multithreading_io.Transfer.{done}
use multithreading_io.FileStream.Disk.{FilePath}
use multithreading_io.Network.{create_name_reader, read_name, data_segments}
use multithreading_io.Network.Client.{
  Attempt, create_sending, create_client, unresolved, handler_called, run_throws, TcpClient, write,
  Sending, send_file,
}
use multithreading_io.Whole.{with_blocks, file_reader, file_chunks}
use multithreading_io.Network.Client.Writes.{write_all, sent_after, client_after, stop-write_all}
use multithreading_io.Network.Client.Pump.{pump_from, read_name_some, send_file_next, over_lem}

create_sending_inv :
    (ctr : CtrMode) (present : FilePath → Bool) (opened : Bool) (name bytes : List ℕ)
    (attempt : Attempt) (w : Sending)
    → create_sending ctr present opened name bytes attempt ≡ ok w
    → (c : ℕ) × (rest : List ℕ) × (name ≡ c ∷ rest)
      × (w ≡ record {
        reader = file_reader bytes;
        encryption = new_encryption;
        packs = 0;
        client = w.client;
      })
unfolding create_sending create_name_reader create_reader create_client
create_sending_inv ctr present opened [] bytes attempt w made = absurd (ground (arith, made))
create_sending_inv ctr present opened (c ∷ rest) bytes attempt w made =
    (c, rest, refl, go attempt made)
  where
    go :
        (a : Attempt)
        → create_sending ctr present opened (c ∷ rest) bytes a ≡ ok w
        → w ≡ record {
          reader = file_reader bytes;
          encryption = new_encryption;
          packs = 0;
          client = w.client;
        }
    go unresolved made = absurd (ground (arith, made))
    go (handler_called error is_open) made = ground (arith, made)
    go (run_throws is_open) made = ground (arith, made)

abbrev starting : List ℕ → TcpClient → Sending
starting bytes client = record {
  reader = file_reader bytes;
  encryption = new_encryption;
  packs = 0;
  client = client;
}

module _ (ctr : CtrMode) (random : ℕ → List ℕ) (accepts : List ℕ → List ℕ → ℕ)
    (bytes : List ℕ) where
  abbrev SendsFile : List ℕ → Sending → Type 0
  SendsFile name w =
      (first : List ℕ) × (segments : List (List ℕ)) × (w' : Sending) × (read_name ctr
          (ok (random 0)) new_encryption name
        ≡ ok (first, record { iv = random 0 }))
      × (data_segments ctr (record { iv = random 0 }) (with_blocks random 1 (file_chunks bytes))
          ≡ ok segments)
      × (send_file ctr (λ n. ok (random n)) accepts (length bytes + 1) name w ≡ (done tt, w'))
      × (w'.client ≡ client_after accepts (first ∷ segments) w.client)

  starting-SendsFile :
      (c : ℕ) (rest : List ℕ) (client : TcpClient) → SendsFile (c ∷ rest) (starting bytes client)
  unfolding write_all
  starting-SendsFile c rest client =
      let rounds : length bytes + 2 ≡ suc (length bytes + 1) = omega arith in
      let (t, ts, named) = read_name_some ctr random accepts (random 0) new_encryption c rest in
      let w : Sending = record {
        reader = file_reader bytes;
        encryption = record { iv = random 0 };
        packs = 1;
        client = write accepts (t ∷ ts) client;
      } in
      let s =
        pump_from ctr random accepts (length bytes + 1) w (read w.reader).0 refl
          (over_lem ctr random accepts bytes) in
      (
        t ∷ ts,
        s.segments,
        s.after,
        named,
        ap
              (λ n.
                data_segments ctr (record { iv = random 0 })
                  (with_blocks random 1 (read_to_end n (file_reader bytes)).0))
              rounds
            ∙ s.sealed,
        send_file_next ctr random accepts (length bytes + 1) (c ∷ rest) (starting bytes client) t ts
            named s,
        s.client ∙ stop-write_all accepts ((t ∷ ts) ∷ s.segments) client,
      )

-- While the random generator does not fail, the task of the client for one file comes to its end,
-- however the connecting went and whatever the system takes at once, with the rounds that the reading
-- needs, and without an exception. If the client is connected, the name segment and then the segments of all chunks have been written, and
-- of each the part is sent that the system took at once; no handler of a write has been called.
-- Otherwise nothing is sent. After that the client counts as not connected, and its socket is as
-- before.
pub send_file_lem :
    (ctr : CtrMode) (random : ℕ → List ℕ) (accepts : List ℕ → List ℕ → ℕ)
    (present : FilePath → Bool) (opened : Bool) (name bytes : List ℕ) (attempt : Attempt)
    (w : Sending)
    → create_sending ctr present opened name bytes attempt ≡ ok w
    → (first : List ℕ) × (segments : List (List ℕ)) × (w' : Sending) × (read_name ctr
          (ok (random 0))
          new_encryption
          name
        ≡ ok (first, record { iv = random 0 }))
      × (data_segments ctr (record { iv = random 0 }) (with_blocks random 1 (file_chunks bytes))
          ≡ ok segments)
      × (send_file ctr (λ n. ok (random n)) accepts (length bytes + 1) name w ≡ (done tt, w'))
      × (w'.client ≡ client_after accepts (first ∷ segments) w.client)
send_file_lem ctr random accepts present opened name bytes attempt w made =
    let (c, rest, named, started) =
      create_sending_inv ctr present opened name bytes attempt w made in
    subst (λ n. SendsFile ctr random accepts bytes n w) (sym named)
      (subst (SendsFile ctr random accepts bytes (c ∷ rest)) (sym started)
        (starting-SendsFile ctr random accepts bytes c rest w.client))

connected_client :
    (ctr : CtrMode) (present : FilePath → Bool) (opened : Bool) (name bytes : List ℕ) (w : Sending)
    → create_sending ctr present opened name bytes (handler_called false true) ≡ ok w
    → w.client ≡ record { is_connected_to_server = true; is_open = true; sent = []; pending = [] }
unfolding create_sending create_name_reader create_reader create_client
connected_client ctr present opened [] bytes w made = absurd (ground (arith, made))
connected_client ctr present opened (c ∷ rest) bytes w made = ground (arith, made)

-- The client of a connection that has just been made, when the file has been sent.
pub connected_lem :
    (ctr : CtrMode) (random : ℕ → List ℕ) (accepts : List ℕ → List ℕ → ℕ)
    (present : FilePath → Bool) (opened : Bool) (name bytes : List ℕ) (w : Sending)
    → create_sending ctr present opened name bytes (handler_called false true) ≡ ok w
    → (first : List ℕ) × (segments : List (List ℕ)) × (w' : Sending) × (read_name ctr
          (ok (random 0))
          new_encryption
          name
        ≡ ok (first, record { iv = random 0 }))
      × (data_segments ctr (record { iv = random 0 }) (with_blocks random 1 (file_chunks bytes))
          ≡ ok segments)
      × (send_file ctr (λ n. ok (random n)) accepts (length bytes + 1) name w ≡ (done tt, w'))
      × (w'.client ≡ record {
        is_connected_to_server = false;
        is_open = true;
        sent = sent_after accepts [] (first ∷ segments);
        pending = first ∷ segments;
      })
connected_lem ctr random accepts present opened name bytes w made =
    let (first, segments, w', named, sealed, run, client) =
      send_file_lem ctr random accepts present opened name bytes (handler_called false true) w
        made in
    (
      first,
      segments,
      w',
      named,
      sealed,
      run,
      client
          ∙ ap (client_after accepts (first ∷ segments))
              (connected_client ctr present opened name bytes w made),
    )
