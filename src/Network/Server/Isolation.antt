-- ===== src/Network/Server/Isolation.antt =====
-- TCPServer.h, TCPConnection.h and DataHandler.h: what the spans of one client do to the files of
-- another.
use multithreading_io.Base.{
  ℕ, ◌≡◌, ◌≢◌, Option, none, some, List, [], ◌∷◌, ◌++◌, ◌⊎◌, All, inl, inr, refl, ap, subst, sym,
  ◌∙◌, arith,
}
use multithreading_io.Wire.Cipher.{CtrMode}
use multithreading_io.FileStream.Disk.{current_path, FilePath, Disk, join}
use multithreading_io.Network.{client_folder}
use multithreading_io.Network.Server.{
  Connection, Server, Event, accepted, accept_failed, received, Status, running, ended, crashed,
  Process, on_event, on_accept, serve, run_network_server, run_server, create_connection,
  start_read, no_server,
}
use multithreading_io.Network.Agree.{home_path, Agree, Agree-refl, Agree-trans}
use multithreading_io.Network.Server.Keep.{IsHome, deliver-Kept}

-- An event that is none of this client's.
abbrev pub NotFor : ℕ → Event → Type 0
NotFor k (received number r) = number ≢ k
NotFor k _ = Unit

abbrev pub IsWaiting : FilePath → Option Connection → Type 0
IsWaiting here none = Unit
IsWaiting here (some c) = IsHome here c

pub record Home (here : FilePath) (s : Server) (d : Disk) : Type 0 where
  pub clients : All (IsHome here) s.clients
  pub waiting : IsWaiting here s.pending
  pub current : current_path d ≡ here

abbrev pub HomeProcess : FilePath → Process → Type 0
HomeProcess here t = Home here t.server t.disk

on_accept-Home :
    (here : FilePath) (s : Server) (d : Disk) → Home here s d → Home here (on_accept s) d
unfolding on_accept run_server create_connection start_read
on_accept-Home here s d v = go s.pending refl
  where
    go : (o : Option Connection) → s.pending ≡ o → Home here (on_accept s) d
    go none e = subst (λ t. Home here t d) (ground (arith, e)) v
    go (some c) e =
        let all : run_server (record s { pending = none; clients = start_read c ∷ s.clients })
            ≡ on_accept s =
          ground (arith, e) in
        subst (λ t. Home here t d) all
          (record {
            clients = (subst (IsWaiting here) e v.waiting, v.clients);
            waiting = (refl, tt);
            current = v.current;
          })

module _ (ctr : CtrMode) where
  pub halted : (t : Process) → (t.status ≡ running) ⊎ ((es : List Event) → serve ctr es t ≡ t)
  unfolding serve
  halted t = go t.status refl
    where
      go :
          (st : Status)
          → t.status ≡ st
          → (t.status ≡ running) ⊎ ((es : List Event) → serve ctr es t ≡ t)
      go running q = inl q
      go (ended z) q =
          inr
            (λ es. elim es as (λ l. serve ctr l t ≡ t) [ [] ↦ refl | e ∷ rest ↦ ground (arith, q) ])
      go crashed q =
          inr
            (λ es. elim es as (λ l. serve ctr l t ≡ t) [ [] ↦ refl | e ∷ rest ↦ ground (arith, q) ])

  pub serve_step :
      (t : Process) (e : Event) (es : List Event)
      → t.status ≡ running
      → serve ctr (e ∷ es) t ≡ serve ctr es (on_event ctr e t.server t.disk)
  unfolding serve
  serve_step t e es q = ground (arith, q)

  pub serve-append :
      (es es' : List Event) (t : Process) → serve ctr (es ++ es') t ≡ serve ctr es' (serve ctr es t)
  unfolding serve
  serve-append [] es' t = refl
  serve-append (e ∷ es) es' t =
      let ih = serve-append es es' (on_event ctr e t.server t.disk) in
      elim (halted t) [
        | inl q ↦ serve_step t e (es ++ es') q ∙ ih ∙ ap (serve ctr es') (sym (serve_step t e es q))
        | inr q ↦ q (e ∷ (es ++ es')) ∙ sym (ap (serve ctr es') (q (e ∷ es)) ∙ q es')
      ]

module _ (ctr : CtrMode) (here : FilePath) where
  pub on_event-Home :
      (e : Event) (s : Server) (d : Disk)
      → Home here s d
      → let t = on_event ctr e s d in
        HomeProcess here t × ((k : ℕ) → NotFor k e → Agree here k d t.disk)
  unfolding on_event
  on_event-Home accepted s d v = (on_accept-Home here s d v, λ k _. Agree-refl d v.current)
  on_event-Home accept_failed s d v = (
    record { clients = v.clients; waiting = tt; current = v.current },
    λ k _. Agree-refl d v.current,
  )
  on_event-Home (received number r) s d v =
      let x = deliver-Kept ctr here number r s.clients d v.current v.clients in
      (record { clients = x.homes; waiting = v.waiting; current = x.current }, x.others)

  pub serve-Home :
      (es : List Event) (t : Process)
      → HomeProcess here t
      → HomeProcess here (serve ctr es t)
        × ((k : ℕ) → All (NotFor k) es → Agree here k t.disk (serve ctr es t).disk)
  unfolding serve
  serve-Home [] t v = (v, λ k _. Agree-refl t.disk v.current)
  serve-Home (e ∷ es) t v =
      let (next, one) = on_event-Home e t.server t.disk v in
      let (last, rest) = serve-Home es (on_event ctr e t.server t.disk) next in
      elim (halted ctr t) [
        | inl q ↦
            let s = serve_step ctr t e es q in
            (
              subst (HomeProcess here) (sym s) last,
              λ k h.
                  subst (λ (u : Process). Agree here k t.disk u.disk) (sym s)
                    (Agree-trans (one k h.0) (rest k h.1)),
            )
        | inr q ↦ (
          subst (HomeProcess here) (sym (q (e ∷ es))) v,
          λ k h.
              subst (λ (u : Process). Agree here k t.disk u.disk) (sym (q (e ∷ es)))
                (Agree-refl t.disk v.current),
        )
      ]

abbrev pub starting : Disk → Process
starting d = record { status = running; server = run_server no_server; disk = d }

pub starting-Home : (d : Disk) → HomeProcess (current_path d) (starting d)
unfolding run_server create_connection
starting-Home d = record { clients = tt; waiting = (refl, tt); current = refl }

-- Whatever the server has been through, as long as nothing comes in from a client after that, no other
-- client can change, add or remove a file in this client's folder or below, whatever it sends and
-- however it names its files.
pub others_leave_files :
    (ctr : CtrMode) (es es' : List Event) (d : Disk) (k : ℕ) (p : FilePath)
    → All (NotFor k) es'
    → let path = join (current_path d) (client_folder k) ++ b'\\' ∷ p in
      (run_network_server ctr (es ++ es') d).disk.files path
      ≡ (run_network_server ctr es d).disk.files path
unfolding run_network_server
others_leave_files ctr es es' d k p others =
    let here = current_path d in
    let (home, _) = serve-Home ctr here es (starting d) (starting-Home d) in
    let agree = (serve-Home ctr here es' (serve ctr es (starting d)) home).1 k others in
    ap (λ (u : Process). u.disk.files (home_path here k p)) (serve-append ctr es es' (starting d))
    ∙ sym (agree.files p)
