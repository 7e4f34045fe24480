-- ===== src/Network/Client/Deliver.antt =====
-- The client's tasks over TCPClient.h, and DataHandler.h on the other side: a file on its way from
-- the one disk to the other.
use multithreading_io.Base.{
  ℕ, ◌+◌, ◌≡◌, Bool, true, false, some, List, [], ◌∷◌, ◌++◌, append-nil, append_assoc, ok,
  if◌then◌else◌, take, take_all, flatten, length, All, ap, ap₂, sym, ◌∙◌, arith,
}
use multithreading_io.Wire.Cipher.{CtrMode, IsByte, new_encryption}
use multithreading_io.Wire.Serializer.RoundTrip.{IsPayload}
use multithreading_io.FileStream.Disk.{FilePath, Disk, same_path}
use multithreading_io.FileStream.Writer.{FileDataWriter, create_writer, target}
use multithreading_io.Transfer.{done}
use multithreading_io.Network.{DataHandler, handled, client_folder, handle_spans}
use multithreading_io.Network.Session.{IsBlock}
use multithreading_io.Network.Client.{TcpClient, Sending, handler_called, create_sending, send_file}
use multithreading_io.Network.Client.Writes.{sent_after}
use multithreading_io.Network.Client.Send.{connected_lem}
use multithreading_io.Whole.{file_arrives}

pub sent_after_all :
    (accepts : List ℕ → List ℕ → ℕ)
    → ((sent bytes : List ℕ) → accepts sent bytes ≡ length bytes)
    → (sent : List ℕ) (ss : List (List ℕ)) → sent_after accepts sent ss ≡ sent ++ flatten ss
unfolding sent_after
sent_after_all accepts whole sent [] = sym (append-nil sent)
sent_after_all accepts whole sent (s ∷ ss) =
    ap (λ l. sent_after accepts (sent ++ l) ss)
      (ap (λ n. take n s) (whole sent s) ∙ take_all (length s) s (omega arith))
    ∙ sent_after_all accepts whole (sent ++ s) ss
    ∙ append_assoc sent s (flatten ss)

-- A client that has connected sends a file whose name has some bytes, fewer than 2 ^ 32, read in
-- chunks of the program's size and each segment sealed with a block from the generator, and the
-- system takes every span whole. Then the task ends
-- without an exception; exactly the spans that were written have been sent; and if the server can
-- open the file and gets each span by itself, its handler takes all of them,
-- the file there has the bytes of the client's file, and every other file is as before.
pub client_to_server :
    (ctr : CtrMode) (random : ℕ → List ℕ) (accepts : List ℕ → List ℕ → ℕ)
    (present : FilePath → Bool) (opened : Bool) (name bytes : List ℕ) (w : Sending)
    → ((k : ℕ) → IsBlock (random k))
    → ((sent span : List ℕ) → accepts sent span ≡ length span)
    → IsPayload name
    → All IsByte bytes
    → create_sending ctr present opened name bytes (handler_called false true) ≡ ok w
    → (h : DataHandler) (d d₀ : Disk) (fw : FileDataWriter)
    → create_writer name (client_folder h.id) d ≡ (ok fw, d₀)
    → (w' : Sending) × (h' : DataHandler) × (d' : Disk) × (send_file ctr
          (λ n. ok (random n))
          accepts
          (length bytes + 1)
          name
          w
        ≡ (done tt, w'))
      × (w'.client.sent ≡ flatten w'.client.pending)
      × (handle_spans ctr w'.client.pending h d ≡ (handled, h', d'))
      × ((q : FilePath)
          → d'.files q
            ≡ (if same_path (target d name (client_folder h.id)) q then some bytes else d.files q))
client_to_server ctr random accepts present opened name bytes w hb whole p all_bytes made h d d₀ fw
      opens =
    let (first, segments, w', named, sealed, sent, client) =
      connected_lem ctr random accepts present opened name bytes w made in
    let (first', segments', h', d', named', sealed', taken_up, files) =
      file_arrives ctr random new_encryption name bytes hb p all_bytes h d d₀ fw opens in
    let same : (first' ∷ segments') ≡ (first ∷ segments) = ap₂ ◌∷◌ (cc) (cc) in
    let spans = ap (λ (c : TcpClient). c.pending) client in
    (
      w',
      h',
      d',
      sent,
      ap (λ (c : TcpClient). c.sent) client
          ∙ sent_after_all accepts whole [] (first ∷ segments)
          ∙ ap flatten (sym spans),
      ap (λ l. handle_spans ctr l h d) (spans ∙ sym same) ∙ taken_up,
      files,
    )
