-- ===== src/Network/Server/Single.antt =====
-- TCPConnection.h: one connection that is served alone.
use multithreading_io.Base.{
  ℕ, suc, ◌≡◌, ◌≢◌, ◌≤◌, true, false, Option, none, some, List, [], ◌∷◌, ◌==◌, if◌then◌else◌, refl,
  subst, arith,
}
use multithreading_io.Wire.Cipher.{CtrMode}
use multithreading_io.FileStream.Disk.{FilePath, Disk}
use multithreading_io.Network.{Reply, handled, failed, null_writer}
use multithreading_io.Network.Agree.{Agree}
use multithreading_io.Network.Alone.{handle_span-SameDone}
use multithreading_io.Network.Home.{InReach}
use multithreading_io.Network.Server.{
  Received, bytes, eof, aborted, error, Connection, Server, Event, received, running, status_of,
  on_receive, on_accept, run_server, start_read,
}
use multithreading_io.Network.Server.Identity.{Numbered, IsNewest}
use multithreading_io.Network.Server.Lookup.{find, found_le}

-- What the events bring for a client.
abbrev pub of_client : ℕ → List Event → List Received
of_client k [] = []
of_client k (received j r ∷ es) = if j == k then r ∷ of_client k es else of_client k es
of_client k (_ ∷ es) = of_client k es

-- A connection that is served alone, as long as it reads and nothing is thrown.
unfoldable pub serve_alone : CtrMode → List Received → Connection → Disk → Reply × Connection × Disk
serve_alone ctr [] c d = (handled, c, d)
serve_alone ctr (r ∷ rs) c d =
    let o = on_receive ctr r c d in
    let rest = serve_alone ctr rs o.1 o.2 in
    if c.reading
    then elim o.0 [
      | handled ↦ rest
      | failed e ↦ (failed e, o.1, o.2)
      | null_writer ↦ (null_writer, o.1, o.2)
    ]
    else (handled, c, d)

pub equal : (a b : ℕ) → (a == b) ≡ true → a ≡ b
equal a b h = ground (arith, h)

pub differ : (a b : ℕ) → (a == b) ≡ false → a ≢ b
differ a b h e = ground (arith, h, e)

pub running_handled : (r : Reply) → status_of r ≡ running → r ≡ handled
running_handled handled h = refl
running_handled (failed e) h = absurd (cc)
running_handled null_writer h = absurd (cc)

pub accept_find :
    (n k : ℕ) (s : Server) (c : Connection)
    → Numbered n s
    → find k s.clients ≡ some c
    → find k (on_accept s).clients ≡ some c
unfolding on_accept run_server start_read
accept_find n k s c v f = go s.pending refl
  where
    le : k ≤ n
    le = found_le n k s.clients c v.given f

    go : (o : Option Connection) → s.pending ≡ o → find k (on_accept s).clients ≡ some c
    go none e = ground (arith, e, f)
    go (some w) e =
        let i : w.id ≡ suc n = (subst (IsNewest (suc n)) e v.waiting).0 in
        let ne : (w.id == k) ≡ false = ground (arith, i, le) in ground (arith, e, f, ne)

module _ (ctr : CtrMode) where
  pub alone_idle :
      (rs : List Received) (c : Connection) (d : Disk)
      → c.reading ≡ false
      → serve_alone ctr rs c d ≡ (handled, c, d)
  unfolding serve_alone
  alone_idle [] c d h = refl
  alone_idle (r ∷ rs) c d h = ground (arith, h)

  pub alone_step :
      (r : Received) (rs : List Received) (c : Connection) (d : Disk)
      → c.reading ≡ true
      → (on_receive ctr r c d).0 ≡ handled
      → serve_alone ctr (r ∷ rs) c d
        ≡ serve_alone ctr rs (on_receive ctr r c d).1 (on_receive ctr r c d).2
  unfolding serve_alone
  alone_step r rs c d h q = ground (arith, h, q)

  pub on_receive-SameDone :
      (here : FilePath) (k : ℕ) (r : Received) (c : Connection) (d e : Disk)
      → c.handler.id ≡ k
      → InReach here k c.handler.data_writer
      → Agree here k d e
      → let o = on_receive ctr r c d in
        let o' = on_receive ctr r c e in (o.0 ≡ o'.0) × (o.1 ≡ o'.1) × Agree here k o.2 o'.2
  unfolding on_receive
  on_receive-SameDone here k (bytes span) c d e own w a =
      let s = handle_span-SameDone here k ctr span c.handler d e own w a in
      (s.replies, ground (arith, s.replies, s.handlers), s.disks)
  on_receive-SameDone here k eof c d e own w a = (refl, refl, a)
  on_receive-SameDone here k aborted c d e own w a = (refl, refl, a)
  on_receive-SameDone here k error c d e own w a = (refl, refl, a)
