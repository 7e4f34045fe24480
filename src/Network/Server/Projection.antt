-- ===== src/Network/Server/Projection.antt =====
-- TCPServer.h, TCPConnection.h and DataHandler.h: each client is served as if it were alone.
use multithreading_io.Base.{
  ℕ, ◌+◌, ◌≡◌, ◌<◌, some, List, [], ◌∷◌, ◌++◌, length, inl, inr, refl, ap, subst, sym, ◌∙◌, arith,
  size_mod,
}
use multithreading_io.Wire.Cipher.{CtrMode}
use multithreading_io.FileStream.Disk.{current_path, FilePath, Disk, join}
use multithreading_io.Network.{Reply, handled, client_folder}
use multithreading_io.Network.Agree.{home_path, Agree-refl}
use multithreading_io.Network.Server.{
  Connection, Event, running, Process, on_event, serve, run_network_server, run_server,
}
use multithreading_io.Network.Server.Identity.{serve-Numbered, Numbered, on_event-Numbered}
use multithreading_io.Network.Server.Isolation.{
  HomeProcess, on_event-Home, serve-Home, halted, serve_step, serve-append, starting, starting-Home,
}
use multithreading_io.Network.Server.Lookup.{find}
use multithreading_io.Network.Server.Single.{of_client, serve_alone}
use multithreading_io.Network.Server.Mirror.{Mirrors, any_Step}

module _ (ctr : CtrMode) where
  went_on : (es : List Event) (t : Process) → (serve ctr es t).status ≡ running → t.status ≡ running
  went_on es t q = elim (halted ctr t) [
    | inl h ↦ h
    | inr h ↦ ap (λ (u : Process). u.status) (sym (h es)) ∙ q
  ]

  abbrev Served : FilePath → ℕ → Process → Reply × Connection × Disk → Type 0
  Served here k u o = (o.0 ≡ handled) × Mirrors here k u o.1 o.2

  serve-Mirrors :
      (here : FilePath) (k : ℕ) (es : List Event) (n : ℕ) (t : Process) (c : Connection) (e : Disk)
      → n + length es + 3 < size_mod
      → Numbered n t.server
      → HomeProcess here t
      → Mirrors here k t c e
      → (serve ctr es t).status ≡ running
      → let o = serve_alone ctr (of_client k es) c e in
        (o.0 ≡ handled) × Mirrors here k (serve ctr es t) o.1 o.2
  unfolding serve serve_alone
  serve-Mirrors here k [] n t c e small v home m q = (refl, m)
  serve-Mirrors here k (ev ∷ es) n t c e small v home m q =
      let go = went_on (ev ∷ es) t q in
      let t' = on_event ctr ev t.server t.disk in
      let one = serve_step ctr t ev es go in
      let q' = ap (λ (u : Process). u.status) (sym one) ∙ q in
      let (n', le, v') = on_event-Numbered ctr ev n t.server t.disk (omega arith) v in
      let s = any_Step ctr here k n t c e v home m ev (went_on es t' q') in
      let rest =
        serve-Mirrors here k es n' t' s.connection s.disk (omega arith) v'
          (on_event-Home ctr here ev t.server t.disk home).0 s.mirrors q' in
      subst (λ u. Served here k u (serve_alone ctr (of_client k (ev ∷ es)) c e)) (sym one)
        (subst (Served here k (serve ctr es t')) (sym (s.alone es)) rest)

starting-Numbered : (d : Disk) → Numbered 0 (starting d).server
unfolding run_server
starting-Numbered d = ground arith

-- Each client is served as if it were alone. If the server still runs after some events, fewer than
-- its identifiers can count, then, whatever came for other clients in between, the connection of a
-- client that was there before is what it would be if it had been given only what came for it,
-- nothing of that has thrown, and the files in the client's folder or below, whatever names the clients
-- give to their files, are those that would be there then.
pub served_as_alone :
    (ctr : CtrMode) (es es' : List Event) (d : Disk) (k : ℕ) (c : Connection)
    → length es + length es' + 3 < size_mod
    → find k (run_network_server ctr es d).server.clients ≡ some c
    → (run_network_server ctr (es ++ es') d).status ≡ running
    → let o = serve_alone ctr (of_client k es') c (run_network_server ctr es d).disk in
      let t = run_network_server ctr (es ++ es') d in
      (o.0 ≡ handled)
      × (find k t.server.clients ≡ some o.1)
      × ((p : FilePath)
          → t.disk.files (join (current_path d) (client_folder k) ++ b'\\' ∷ p)
            ≡ o.2.files (join (current_path d) (client_folder k) ++ b'\\' ∷ p))
unfolding run_network_server
served_as_alone ctr es es' d k c small found q =
    let here = current_path d in
    let (n, le, v) = serve-Numbered ctr es 0 (starting d) (omega arith) (starting-Numbered d) in
    let home = (serve-Home ctr here es (starting d) (starting-Home d)).0 in
    let t = serve ctr es (starting d) in
    let joined = serve-append ctr es es' (starting d) in
    let (done, m) =
      serve-Mirrors ctr here k es' n t c t.disk (omega arith) v home
        (record { found = found; agree = Agree-refl t.disk home.current })
        (ap (λ (u : Process). u.status) (sym joined) ∙ q) in
    (
      done,
      ap (λ (u : Process). find k u.server.clients) joined ∙ m.found,
      λ p. ap (λ (u : Process). u.disk.files (home_path here k p)) joined ∙ m.agree.files p,
    )
