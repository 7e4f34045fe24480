-- ===== src/Network/Server/Identity.antt =====
-- TCPServer.h: the numbers that the connections get.
use multithreading_io.Base.{
  ℕ, zero, suc, ◌+◌, ◌≤◌, ◌<◌, ◌≡◌, refl, sym, subst, Option, none, some, List, [], ◌∷◌, length,
  arith, size_mod, All,
}
use multithreading_io.Wire.Cipher.{CtrMode}
use multithreading_io.FileStream.Disk.{Disk}
use multithreading_io.Network.{DataHandler, handle_span}
use multithreading_io.Network.Server.{
  Received, bytes, eof, aborted, error, Connection, Server, Event, accepted, accept_failed,
  received, Status, running, Process, on_receive, deliver, on_event, on_accept, serve,
  run_network_server, run_server,
}

-- n, n - 1, …, 1.
abbrev pub countdown : ℕ → List ℕ
countdown zero = []
countdown (suc n) = suc n ∷ countdown n

abbrev pub ids : List Connection → List ℕ
ids [] = []
ids (c ∷ cs) = c.id ∷ ids cs

-- A connection's handler has the connection's own number, after which its folder is named.
abbrev pub IsOwn : Connection → Type 0
IsOwn c = c.handler.id ≡ c.id

-- The waiting connection, if there is one, has the newest number.
abbrev pub IsNewest : ℕ → Option Connection → Type 0
IsNewest n none = Unit
IsNewest n (some c) = (c.id ≡ n) × IsOwn c

pub record Numbered (n : ℕ) (s : Server) : Type 0 where
  pub newest : s.current_id ≡ suc n
  pub waiting : IsNewest (suc n) s.pending
  pub given : ids s.clients ≡ countdown n
  pub own : All IsOwn s.clients

id-handle_span :
    (ctr : CtrMode) (span : List ℕ) (h : DataHandler) (d : Disk)
    → (handle_span ctr span h d).1.id ≡ h.id
unfolding handle_span
id-handle_span ctr span h d = ground arith

pub on_receive_ids :
    (ctr : CtrMode) (r : Received) (c : Connection) (d : Disk)
    → let c' = (on_receive ctr r c d).1 in (c'.id ≡ c.id) × (c'.handler.id ≡ c.handler.id)
unfolding on_receive
on_receive_ids ctr (bytes span) c d = (refl, id-handle_span ctr span c.handler d)
on_receive_ids ctr eof c d = (refl, refl)
on_receive_ids ctr aborted c d = (refl, refl)
on_receive_ids ctr error c d = (refl, refl)

ids-deliver :
    (ctr : CtrMode) (id : ℕ) (r : Received) (cs : List Connection) (d : Disk)
    → All IsOwn cs
    → (ids (deliver ctr id r cs d).1 ≡ ids cs) × All IsOwn (deliver ctr id r cs d).1
unfolding deliver
ids-deliver ctr id r [] d own = (refl, tt)
ids-deliver ctr id r (c ∷ cs) d own =
    ground (arith, on_receive_ids ctr r c d, ids-deliver ctr id r cs d)

pub on_event-Numbered :
    (ctr : CtrMode) (e : Event) (n : ℕ) (s : Server) (d : Disk)
    → n + 3 < size_mod
    → Numbered n s
    → (m : ℕ) × (m ≤ n + 1) × Numbered m (on_event ctr e s d).server
unfolding on_event on_accept
on_event-Numbered ctr accepted n s d small v = accept s.pending refl
  where
    accept :
        (p : Option Connection)
        → s.pending ≡ p
        → (m : ℕ) × (m ≤ n + 1) × Numbered m (on_event ctr accepted s d).server
    accept none e = (n, omega arith, ground arith)
    accept (some c) e = (suc n, omega arith, ground arith)
on_event-Numbered ctr accept_failed n s d small v = (n, omega arith, ground arith)
on_event-Numbered ctr (received id r) n s d small v =
    (n, omega arith, ground (arith, ids-deliver ctr id r s.clients d v.own))

serve_running :
    (ctr : CtrMode) (e : Event) (es : List Event) (p : Process)
    → p.status ≡ running
    → serve ctr (e ∷ es) p ≡ serve ctr es (on_event ctr e p.server p.disk)
unfolding serve
serve_running ctr e es p q = ground (arith, q)

pub serve-Numbered :
    (ctr : CtrMode) (es : List Event) (n : ℕ) (p : Process)
    → n + length es + 3 < size_mod
    → Numbered n p.server
    → (m : ℕ) × (m ≤ n + length es) × Numbered m (serve ctr es p).server
unfolding serve
serve-Numbered ctr [] n p small v = (n, omega arith, v)
serve-Numbered ctr (e ∷ es) n p small v =
    let (m, le, next) = on_event-Numbered ctr e n p.server p.disk (omega arith) v in
    let (l, le', last) =
      serve-Numbered ctr es m (on_event ctr e p.server p.disk) (omega arith) next in
    go p.status refl (l, omega (arith, le, le'), last)
  where
    go :
        (st : Status)
        → p.status ≡ st
        → (m : ℕ) × (m ≤ n + suc (length es))
          × Numbered m (serve ctr es (on_event ctr e p.server p.disk)).server
        → (m : ℕ) × (m ≤ n + suc (length es)) × Numbered m (serve ctr (e ∷ es) p).server
    go running q (m, le, w) =
        (m, le, subst (λ (t : Process). Numbered m t.server) (sym (serve_running ctr e es p q)) w)
    go st q r = (n, omega arith, ground arith)

-- After any events, fewer than the identifier can count, the connections that the server has accepted
-- have the numbers n, …, 2, 1, the last accepted first, each of them has a handler with its own
-- number, and the next connection gets the number n + 1.
pub run_network_server-Numbered :
    (ctr : CtrMode) (es : List Event) (d : Disk)
    → length es + 3 < size_mod
    → (n : ℕ) × Numbered n (run_network_server ctr es d).server
unfolding run_network_server run_server
run_network_server-Numbered ctr es d small =
    let (n, _, v) = serve-Numbered ctr es 0 _ (omega arith) (ground arith) in (n, v)
