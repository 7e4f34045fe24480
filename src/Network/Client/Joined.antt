-- ===== src/Network/Client/Joined.antt =====
-- TCPClient.h and DataHandler.h when all that the client sends comes out of one `async_read_some`.
use multithreading_io.Base.{
  ℕ, ◌+◌, ◌≡◌, Bool, true, false, some, List, [], ◌∷◌, ◌++◌, ok, if◌then◌else◌, flatten, length, ap,
  sym, ◌∙◌, arith,
}
use multithreading_io.Wire.Cipher.{CtrMode, new_encryption}
use multithreading_io.Wire.Serializer.{file_name}
use multithreading_io.Wire.Serializer.RoundTrip.{IsPayload}
use multithreading_io.FileStream.Disk.{FilePath, Disk, same_path}
use multithreading_io.FileStream.Writer.{FileDataWriter, create_writer, target}
use multithreading_io.FileStream.Writer.Laws.{create_writer_lem}
use multithreading_io.Transfer.{done}
use multithreading_io.Network.{
  DataHandler, handled, client_folder, handle_spans, handle_span, read_name,
}
use multithreading_io.Network.Session.{IsBlock, handle_name, joined_spans_lose}
use multithreading_io.Network.Client.{TcpClient, Sending, handler_called, create_sending, send_file}
use multithreading_io.Network.Client.Send.{connected_lem}
use multithreading_io.Network.Client.Deliver.{sent_after_all}

-- A name segment with anything behind it.
name_with_more :
    (ctr : CtrMode) (block : List ℕ) (name first more : List ℕ)
    → IsBlock block
    → IsPayload name
    → read_name ctr (ok block) new_encryption name ≡ ok (first, record { iv = block })
    → (h : DataHandler) (d d₀ : Disk) (w : FileDataWriter)
    → create_writer name (client_folder h.id) d ≡ (ok w, d₀)
    → handle_spans ctr ((first ++ more) ∷ []) h d
      ≡ (handled, record h { type = file_name; data_writer = some w }, d₀)
unfolding handle_spans read_name
name_with_more ctr block name first more hb p packed h d d₀ w opens =
    let (segment, named, takes) = handle_name ctr block new_encryption name hb p in
    let (segment', named', loses) =
      joined_spans_lose ctr file_name block new_encryption name tt hb p.some_bytes p.bytes more h
        d in
    let one : segment ≡ first = cc in
    let same : segment' ≡ first = cc in
    let e : handle_span ctr (first ++ more) h d
        ≡ (handled, record h { type = file_name; data_writer = some w }, d₀) =
      ap (λ s. handle_span ctr (s ++ more) h d) (sym same)
      ∙ loses
      ∙ ap (λ s. handle_span ctr s h d) (same ∙ sym one)
      ∙ takes h d d₀ w opens in
    ground (arith, e)

-- The server's handler gets all that a connected client has sent for a file in one span: it takes the
-- name, without an error, and the file stays empty.
pub joined_stream :
    (ctr : CtrMode) (random : ℕ → List ℕ) (accepts : List ℕ → List ℕ → ℕ)
    (present : FilePath → Bool) (opened : Bool) (name content : List ℕ) (w : Sending)
    → ((k : ℕ) → IsBlock (random k))
    → ((sent span : List ℕ) → accepts sent span ≡ length span)
    → IsPayload name
    → create_sending ctr present opened name content (handler_called false true) ≡ ok w
    → (h : DataHandler) (d d₀ : Disk) (fw : FileDataWriter)
    → create_writer name (client_folder h.id) d ≡ (ok fw, d₀)
    → (w' : Sending) × (h' : DataHandler) × (send_file ctr
          (λ n. ok (random n))
          accepts
          (length content + 1)
          name
          w
        ≡ (done tt, w'))
      × (handle_spans ctr (w'.client.sent ∷ []) h d ≡ (handled, h', d₀))
      × ((q : FilePath)
          → d₀.files q
            ≡ (if same_path (target d name (client_folder h.id)) q then some [] else d.files q))
joined_stream ctr random accepts present opened name content w hb whole p made h d d₀ fw opens =
    let (first, segments, w', named, sealed, sent, client) =
      connected_lem ctr random accepts present opened name content w made in
    let (_, path, files) = create_writer_lem name (client_folder h.id) d d₀ fw opens in
    let bytes : w'.client.sent ≡ first ++ flatten segments =
      ap (λ (c : TcpClient). c.sent) client ∙ sent_after_all accepts whole [] (first ∷ segments) in
    (
      w',
      record h { type = file_name; data_writer = some fw },
      sent,
      ap (λ s. handle_spans ctr (s ∷ []) h d) bytes
          ∙ name_with_more ctr (random 0) name first (flatten segments) (hb 0) p named h d d₀ fw
              opens,
      λ q. files q ∙ ap (λ x. if same_path x q then some [] else d.files q) path,
    )
