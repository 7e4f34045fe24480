-- ===== src/Arrival/Spans.antt =====
-- TCPConnection.h and TCPServer.h: what comes for one client, some spans and then perhaps the end of
-- the connection, while other clients are served.
use multithreading_io.Base.{
  ℕ, ◌+◌, ◌≡◌, ◌<◌, true, false, some, List, [], ◌∷◌, ◌++◌, map, if◌then◌else◌, length, All,
  size_mod, ap, ◌∙◌, refl, arith,
}
use multithreading_io.Wire.Cipher.{CtrMode}
use multithreading_io.FileStream.Disk.{
  has_drive, filename_flat, current_path, FilePath, Disk, same_path, filename,
}
use multithreading_io.FileStream.Writer.{target}
use multithreading_io.Network.{
  DataHandler, Reply, handled, failed, null_writer, client_folder, handle_span, handle_spans,
}
use multithreading_io.Network.Agree.{home_path}
use multithreading_io.Network.Folders.{client_folder-IsName}
use multithreading_io.FileStream.Disk.Folders.{join-inside}
use multithreading_io.FileStream.Writer.Laws.{target_named}
use multithreading_io.Network.Server.{
  bytes, eof, aborted, error, Received, Connection, Event, running, on_receive, run_network_server,
}
use multithreading_io.Network.Server.Keep.{IsHome}
use multithreading_io.Network.Server.Isolation.{serve-Home, starting, starting-Home}
use multithreading_io.Network.Server.Lookup.{find, found_with}
use multithreading_io.Network.Server.Single.{of_client, serve_alone}
use multithreading_io.Network.Server.Projection.{served_as_alone}

-- What tells the server that nothing more comes from a client.
abbrev pub IsEnd : Received → Type 0
IsEnd (bytes _) = ⊥
IsEnd _ = Unit

-- It leaves the disk alone.
ends_alone :
    (ctr : CtrMode) (ends : List Received) (c : Connection) (d : Disk)
    → All IsEnd ends
    → (c' : Connection) × (serve_alone ctr ends c d ≡ (handled, c', d))
unfolding serve_alone on_receive
ends_alone ctr [] c d h = (c, refl)
ends_alone ctr (bytes span ∷ ends) c d h = absurd h.0
ends_alone ctr (eof ∷ ends) c d h =
    let (c', e) = ends_alone ctr ends (record c { is_open = false; reading = false }) d h.1 in
    (if c.reading then c' else c, ground (arith, e))
ends_alone ctr (aborted ∷ ends) c d h =
    let (c', e) = ends_alone ctr ends (record c { reading = false }) d h.1 in
    (if c.reading then c' else c, ground (arith, e))
ends_alone ctr (error ∷ ends) c d h =
    let (c', e) = ends_alone ctr ends (record c { reading = false }) d h.1 in
    (if c.reading then c' else c, ground (arith, e))

-- A connection that reads hands each span to its handler, until the client has ended.
abbrev Through : CtrMode → List (List ℕ) → List Received → Connection → Disk → Disk → Type 0
Through ctr spans ends c d d' =
    (c' : Connection) × (serve_alone ctr (map bytes spans ++ ends) c d ≡ (handled, c', d'))

spans_alone :
    (ctr : CtrMode) (spans : List (List ℕ)) (ends : List Received) (c : Connection) (d d' : Disk)
    (h' : DataHandler)
    → c.reading ≡ true
    → All IsEnd ends
    → handle_spans ctr spans c.handler d ≡ (handled, h', d')
    → Through ctr spans ends c d d'
unfolding serve_alone handle_spans on_receive
spans_alone ctr [] ends c d d' h' reads over e =
    let same : d ≡ d' = ground (arith, e) in
    let (c', q) = ends_alone ctr ends c d over in (c', q ∙ ap (λ x. (handled, c', x)) same)
spans_alone ctr (span ∷ spans) ends c d d' h' reads over e =
    let o = handle_span ctr span c.handler d in
    go o.0 refl
      (spans_alone ctr spans ends (record c { handler = o.1; reading = true }) o.2 d' h' refl over)
  where
    go :
        (r : Reply)
        → (handle_span ctr span c.handler d).0 ≡ r
        → (let o = handle_span ctr span c.handler d in
            handle_spans ctr spans o.1 o.2 ≡ (handled, h', d')
            → Through ctr spans ends (record c { handler = o.1; reading = true }) o.2 d')
        → Through ctr (span ∷ spans) ends c d d'
    go handled q rest =
        let o = handle_span ctr span c.handler d in
        let e' : handle_spans ctr spans o.1 o.2 ≡ (handled, h', d') = ground (arith, e, q) in
        let (c', z) = rest e' in (c', ground (arith, q, reads, z))
    go (failed z) q rest = absurd (ground (arith, e, q))
    go null_writer q rest = absurd (ground (arith, e, q))

-- The handler of the connection that is found under a number has this number.
pub own_number :
    (ctr : CtrMode) (es : List Event) (d : Disk) (k : ℕ) (c : Connection)
    → find k (run_network_server ctr es d).server.clients ≡ some c
    → c.handler.id ≡ k
unfolding run_network_server
own_number ctr es d k c found =
    let here = current_path d in
    let t = run_network_server ctr es d in
    let home = (serve-Home ctr here es (starting d) (starting-Home d)).0 in
    let ((same, _), number) = found_with (IsHome here) k t.server.clients c home.clients found in
    same ∙ number

-- What comes for a client, if its handler takes all of it on its own, leaves the client's folder as it
-- would on its own.
pub spans_reach :
    (ctr : CtrMode) (spans : List (List ℕ)) (ends : List Received) (name : FilePath)
    (content : List ℕ) (es es' : List Event) (d : Disk) (k : ℕ) (c : Connection) (d' : Disk)
    (h' : DataHandler)
    → length es + length es' + 3 < size_mod
    → find k (run_network_server ctr es d).server.clients ≡ some c
    → c.reading ≡ true
    → All IsEnd ends
    → of_client k es' ≡ map bytes spans ++ ends
    → (run_network_server ctr (es ++ es') d).status ≡ running
    → handle_spans ctr spans c.handler (run_network_server ctr es d).disk ≡ (handled, h', d')
    → has_drive (filename name) ≡ false
    → (let t = run_network_server ctr es d in
        (q : FilePath)
        → d'.files q ≡ (
            if same_path (target t.disk name (client_folder c.handler.id)) q
            then some content
            else t.disk.files q))
    → (p : FilePath)
    → (run_network_server ctr (es ++ es') d).disk.files (home_path (current_path d) k p) ≡ (
        if same_path (home_path (current_path d) k (filename name)) (home_path (current_path d) k p)
        then some content
        else (run_network_server ctr es d).disk.files (home_path (current_path d) k p))
unfolding run_network_server
spans_reach ctr spans ends name content es es' d k c d' h' small found reads over came runs taken
      drive files p =
    let here = current_path d in
    let t = run_network_server ctr es d in
    let home = (serve-Home ctr here es (starting d) (starting-Home d)).0 in
    let own = own_number ctr es d k c found in
    let (c', served) = spans_alone ctr spans ends c t.disk d' h' reads over taken in
    let alone = ap (λ l. serve_alone ctr l c t.disk) came ∙ served in
    let (_, _, left) = served_as_alone ctr es es' d k c small found runs in
    let q = home_path here k p in
    let path =
      target_named t.disk name (client_folder c.handler.id) (client_folder-IsName c.handler.id)
      ∙ join-inside (current_path t.disk) (client_folder c.handler.id) (filename name)
          (client_folder-IsName c.handler.id) (filename_flat name) drive
      ∙ ap (λ a. home_path a c.handler.id (filename name)) home.current
      ∙ ap (λ n. home_path here n (filename name)) own in
    left p
    ∙ ap (λ (x : Reply × Connection × Disk). x.2.files q) alone
    ∙ files q
    ∙ ap (λ x. if same_path x q then some content else t.disk.files q) path
