-- ===== src/Arrival.antt =====
-- The way of a file over the network: the tasks of NetworkTask.cpp for a client, over TCPClient.h,
-- and on the other side TCPServer.h, which serves other clients at the same time.
mod Spans
use multithreading_io.Base.{
  append-nil, take, flatten, suc, ℕ, ◌+◌, ◌≡◌, ◌<◌, Bool, true, false, some, List, [], ◌∷◌, ◌++◌,
  map, ok, if◌then◌else◌, length, All, size_mod, ap, sym, ◌∙◌, subst, refl, arith,
}
use multithreading_io.Wire.Cipher.{CtrMode, IsByte}
use multithreading_io.Wire.Serializer.RoundTrip.{IsPayload}
use multithreading_io.FileStream.Disk.{has_drive, current_path, FilePath, Disk, same_path, filename}
use multithreading_io.FileStream.Writer.{FileDataWriter, create_writer, target}
use multithreading_io.Transfer.{Outcome}
use multithreading_io.Network.{
  DataHandler, Reply, handled, failed, null_writer, client_folder, handle_span, handle_spans,
}
use multithreading_io.Network.Agree.{home_path}
use multithreading_io.Network.Folders.{client_folder_named}
use multithreading_io.Network.Session.{IsBlock}
use multithreading_io.Network.Client.{Sending, handler_called, create_sending, send_file}
use multithreading_io.Network.Client.Deliver.{client_to_server}
use multithreading_io.Network.Client.Joined.{joined_stream}
use multithreading_io.Network.Server.{
  bytes, Received, Connection, Event, running, on_receive, run_network_server,
}
use multithreading_io.Network.Server.Keep.{IsHome}
use multithreading_io.Network.Server.Isolation.{serve-Home, starting, starting-Home}
use multithreading_io.Network.Server.Lookup.{find, found_with}
use multithreading_io.Network.Server.Single.{of_client, serve_alone}
use multithreading_io.Network.Server.Projection.{served_as_alone}
use multithreading_io.Network.Client.Partial.{client_partial}
use multithreading_io.Whole.{file_chunks}
use multithreading_io.Arrival.Spans.{IsEnd, own_number, spans_reach}

-- A client that has connected sends a file whose name has some bytes, fewer than 2 ^ 32, with no
-- drive in its last part; its generator gives blocks, and the system takes every span whole. On the
-- server, where the client has the number `k` and its connection reads, other clients come and go
-- meanwhile and send what they like, with fewer events than the server's identifiers can count. If
-- each span of the client arrives by itself, the server could open the file before the first, and
-- it still runs after the last, then the file under this last part in the client's folder has the
-- bytes of the client's file, and every other file in the client's folder or below is as before.
pub file_reaches_server :
    (ctr : CtrMode) (random : ℕ → List ℕ) (accepts : List ℕ → List ℕ → ℕ)
    (present : FilePath → Bool) (opened : Bool) (name content : List ℕ) (w : Sending)
    → ((n : ℕ) → IsBlock (random n))
    → ((sent span : List ℕ) → accepts sent span ≡ length span)
    → IsPayload name
    → All IsByte content
    → create_sending ctr present opened name content (handler_called false true) ≡ ok w
    → (es es' : List Event) (d d₀ : Disk) (k : ℕ) (c : Connection) (fw : FileDataWriter)
    → length es + length es' + 3 < size_mod
    → find k (run_network_server ctr es d).server.clients ≡ some c
    → c.reading ≡ true
    → has_drive (filename name) ≡ false
    → create_writer name (client_folder k) (run_network_server ctr es d).disk ≡ (ok fw, d₀)
    → of_client k es'
      ≡ map bytes
          (send_file ctr (λ n. ok (random n)) accepts (length content + 1) name w).1.client.pending
    → (run_network_server ctr (es ++ es') d).status ≡ running
    → (p : FilePath)
    → (run_network_server ctr (es ++ es') d).disk.files (home_path (current_path d) k p) ≡ (
        if same_path (home_path (current_path d) k (filename name)) (home_path (current_path d) k p)
        then some content
        else (run_network_server ctr es d).disk.files (home_path (current_path d) k p))
file_reaches_server ctr random accepts present opened name content w hb whole payload all made es
      es' d d₀ k c fw small found reads drive opens came runs p =
    let t = run_network_server ctr es d in
    let (w', h', d', sent, _, arrived, files) =
      client_to_server ctr random accepts present opened name content w hb whole payload all made
        c.handler t.disk d₀ fw
        (subst (λ n. create_writer name (client_folder n) t.disk ≡ (ok fw, d₀))
          (sym (own_number ctr es d k c found)) opens) in
    spans_reach ctr w'.client.pending [] name content es es' d k c d' h' small found reads tt
      (came
        ∙ ap (λ (x : Outcome (Unit {0}) × Sending). map bytes x.1.client.pending) sent
        ∙ sym (append-nil (map bytes w'.client.pending)))
      runs arrived drive files p

-- A client that has connected sends a file whose name has some bytes, fewer than 2 ^ 32, with no
-- drive in its last part; its generator gives blocks, and the system takes every span whole. On the
-- server, where the client has the number `k` and its connection reads, other clients come and go
-- meanwhile and send what they like, with fewer events than the server's identifiers can count. If
-- all that the client sends, the file's name and its bytes, comes out of one read, the server could
-- open the file before it, and it still runs at the end, then the file under this last part in the
-- client's folder is empty, and every other file in the client's folder or below is as before.
pub joined_file_is_empty :
    (ctr : CtrMode) (random : ℕ → List ℕ) (accepts : List ℕ → List ℕ → ℕ)
    (present : FilePath → Bool) (opened : Bool) (name content : List ℕ) (w : Sending)
    → ((n : ℕ) → IsBlock (random n))
    → ((sent span : List ℕ) → accepts sent span ≡ length span)
    → IsPayload name
    → create_sending ctr present opened name content (handler_called false true) ≡ ok w
    → (es es' : List Event) (d d₀ : Disk) (k : ℕ) (c : Connection) (fw : FileDataWriter)
    → length es + length es' + 3 < size_mod
    → find k (run_network_server ctr es d).server.clients ≡ some c
    → c.reading ≡ true
    → has_drive (filename name) ≡ false
    → create_writer name (client_folder k) (run_network_server ctr es d).disk ≡ (ok fw, d₀)
    → of_client k es'
      ≡ bytes (send_file ctr (λ n. ok (random n)) accepts (length content + 1) name w).1.client.sent
        ∷ []
    → (run_network_server ctr (es ++ es') d).status ≡ running
    → (p : FilePath)
    → (run_network_server ctr (es ++ es') d).disk.files (home_path (current_path d) k p) ≡ (
        if same_path (home_path (current_path d) k (filename name)) (home_path (current_path d) k p)
        then some []
        else (run_network_server ctr es d).disk.files (home_path (current_path d) k p))
joined_file_is_empty ctr random accepts present opened name content w hb whole payload made es es' d
      d₀ k c fw small found reads drive opens came runs p =
    let t = run_network_server ctr es d in
    let (w', h', sent, arrived, files) =
      joined_stream ctr random accepts present opened name content w hb whole payload made c.handler
        t.disk d₀ fw
        (subst (λ n. create_writer name (client_folder n) t.disk ≡ (ok fw, d₀))
          (sym (own_number ctr es d k c found)) opens) in
    spans_reach ctr (w'.client.sent ∷ []) [] name [] es es' d k c d₀ h' small found reads tt
      (came ∙ ap (λ (x : Outcome (Unit {0}) × Sending). bytes x.1.client.sent ∷ []) sent) runs
      arrived drive files p

-- A client that has connected sends a file whose name has some bytes, fewer than 2 ^ 32, with no
-- drive in its last part, and its generator gives blocks. On the server, where the client has the
-- number `k` and its connection reads, other clients come and go meanwhile and send what they like,
-- with fewer events than the server's identifiers can count. If of the client only the spans of the
-- name and of the first `n` chunks have come, each by itself, and then perhaps the end of the
-- connection, the server could open the file before the first, and it still runs, then the file
-- under this last part in the client's folder is the first `n` chunks of the client's file, and
-- every other file in the client's folder or below is as before.
pub partial_file :
    (ctr : CtrMode) (random : ℕ → List ℕ) (accepts : List ℕ → List ℕ → ℕ)
    (present : FilePath → Bool) (opened : Bool) (name content : List ℕ) (w : Sending) (n : ℕ)
    → ((i : ℕ) → IsBlock (random i))
    → IsPayload name
    → All IsByte content
    → create_sending ctr present opened name content (handler_called false true) ≡ ok w
    → (es es' : List Event) (d d₀ : Disk) (k : ℕ) (c : Connection) (fw : FileDataWriter)
      (ends : List Received)
    → length es + length es' + 3 < size_mod
    → find k (run_network_server ctr es d).server.clients ≡ some c
    → c.reading ≡ true
    → has_drive (filename name) ≡ false
    → create_writer name (client_folder k) (run_network_server ctr es d).disk ≡ (ok fw, d₀)
    → All IsEnd ends
    → of_client k es'
      ≡ map bytes (
          take
            (suc n)
            (send_file ctr
              (λ i. ok (random i))
              accepts
              (length content + 1)
              name
              w).1.client.pending)
        ++ ends
    → (run_network_server ctr (es ++ es') d).status ≡ running
    → (p : FilePath)
    → (run_network_server ctr (es ++ es') d).disk.files (home_path (current_path d) k p) ≡ (
        if same_path (home_path (current_path d) k (filename name)) (home_path (current_path d) k p)
        then some (flatten (take n (file_chunks content)))
        else (run_network_server ctr es d).disk.files (home_path (current_path d) k p))
partial_file ctr random accepts present opened name content w n hb payload all made es es' d d₀ k c
      fw ends small found reads drive opens over came runs p =
    let t = run_network_server ctr es d in
    let (w', h', d', sent, arrived, files) =
      client_partial ctr random accepts present opened name content w n hb payload all made
        c.handler t.disk d₀ fw
        (subst (λ n. create_writer name (client_folder n) t.disk ≡ (ok fw, d₀))
          (sym (own_number ctr es d k c found)) opens) in
    spans_reach ctr (take (suc n) w'.client.pending) ends name
      (flatten (take n (file_chunks content))) es es' d k c d' h' small found reads over
      (came
        ∙ ap
            (λ (x : Outcome (Unit {0}) × Sending).
              map bytes (take (suc n) x.1.client.pending) ++ ends)
            sent)
      runs arrived drive files p
