-- ===== src/Network/Server/Mirror.antt =====
-- TCPServer.h, TCPConnection.h and DataHandler.h: a connection among others beside the same
-- connection alone, through one event.
use multithreading_io.Base.{
  ℕ, ◌≡◌, true, false, some, List, ◌∷◌, ◌==◌, Bool-cases, inl, inr, refl, ap, subst, sym, ◌∙◌,
  arith,
}
use multithreading_io.Wire.Cipher.{CtrMode}
use multithreading_io.FileStream.Disk.{FilePath, Disk}
use multithreading_io.Network.{Reply}
use multithreading_io.Network.Agree.{Agree, Agree-trans, Agree-sym}
use multithreading_io.Network.Home.{InReach}
use multithreading_io.Network.Server.{
  Received, Connection, Event, accepted, accept_failed, received, running, Process, on_receive,
  deliver, on_event,
}
use multithreading_io.Network.Server.Identity.{Numbered}
use multithreading_io.Network.Server.Keep.{IsHome}
use multithreading_io.Network.Server.Isolation.{HomeProcess, on_event-Home}
use multithreading_io.Network.Server.Lookup.{
  find, countdown-Once, found_with, deliver_found, deliver_idle, deliver_other,
}
use multithreading_io.Network.Server.Single.{
  of_client, serve_alone, alone_idle, alone_step, on_receive-SameDone, running_handled, accept_find,
  equal, differ,
}

-- What holds between the server and the connection that is served alone.
pub record Mirrors (here : FilePath) (k : ℕ) (t : Process) (c : Connection) (e : Disk)
    : Type 0 where
  pub found : find k t.server.clients ≡ some c
  pub agree : Agree here k t.disk e

module _ (ctr : CtrMode) where
  -- An event after which the server still runs has done the same to both.
  pub record Step (here : FilePath) (k : ℕ) (ev : Event) (c : Connection) (e : Disk) (t : Process)
      : Type 0 where
    pub connection : Connection
    pub disk : Disk
    pub mirrors : Mirrors here k t connection disk
    pub alone :
        (es : List Event)
        → serve_alone ctr (of_client k (ev ∷ es)) c e
          ≡ serve_alone ctr (of_client k es) connection disk

  module _ (here : FilePath) (k n : ℕ) (t : Process) (c : Connection) (e : Disk)
      (v : Numbered n t.server) (home : HomeProcess here t) (m : Mirrors here k t c e) where
    home_connection : (c.handler.id ≡ k) × InReach here k c.handler.data_writer
    home_connection =
        let ((own, folder), i) =
          found_with (IsHome here) k t.server.clients c home.clients m.found in
        (own ∙ i, subst (λ x. InReach here x c.handler.data_writer) i folder)

    own_item :
        (j : ℕ) (r : Received) (es : List Event)
        → (j == k) ≡ true
        → of_client k (received j r ∷ es) ≡ r ∷ of_client k es
    own_item j r es mine = ground (arith, mine)

    other_item :
        (j : ℕ) (r : Received) (es : List Event)
        → (j == k) ≡ false
        → of_client k (received j r ∷ es) ≡ of_client k es
    other_item j r es h = ground (arith, h)

    own_Step :
        (j : ℕ) (r : Received)
        → j ≡ k
        → (on_event ctr (received j r) t.server t.disk).status ≡ running
        → Step here k (received j r) c e (on_event ctr (received j r) t.server t.disk)
    unfolding on_event
    own_Step j r same q =
        let once = countdown-Once n k t.server.clients v.given in
        let here_it = ap (λ x. deliver ctr x r t.server.clients t.disk) same in
        let mine : (j == k) ≡ true = ground (arith, same) in
        elim (Bool-cases c.reading) [
          | inl h ↦
              let (a, b, d) = deliver_found ctr k r t.server.clients c t.disk once m.found h in
              let (x, y, z) =
                on_receive-SameDone ctr here k r c t.disk e home_connection.0 home_connection.1
                  m.agree in
              let ok =
                sym x
                ∙ (sym a
                    ∙ (ap (λ (u : Reply × List Connection × Disk). u.0) (sym here_it)
                        ∙ running_handled _ q)) in
              record {
                connection = (on_receive ctr r c t.disk).1;
                disk = (on_receive ctr r c e).2;
                mirrors = record {
                  found = ap (λ (u : Reply × List Connection × Disk). find k u.1) here_it ∙ b;
                  agree =
                      subst (λ u. Agree here k u (on_receive ctr r c e).2)
                        (sym d ∙ ap (λ (u : Reply × List Connection × Disk). u.2) (sym here_it)) z;
                };
                alone = λ es.
                    ap (λ l. serve_alone ctr l c e) (own_item j r es mine)
                    ∙ alone_step ctr r (of_client k es) c e h ok
                    ∙ ap (λ u. serve_alone ctr (of_client k es) u (on_receive ctr r c e).2) (sym y);
              }
          | inr h ↦
              let idle = here_it ∙ deliver_idle ctr k r t.server.clients c t.disk once m.found h in
              record {
                connection = c;
                disk = e;
                mirrors = record {
                  found = ap (λ (u : Reply × List Connection × Disk). find k u.1) idle ∙ m.found;
                  agree =
                      subst (λ u. Agree here k u e)
                        (ap (λ (u : Reply × List Connection × Disk). u.2) (sym idle)) m.agree;
                };
                alone = λ es.
                    ap (λ l. serve_alone ctr l c e) (own_item j r es mine)
                    ∙ alone_idle ctr (r ∷ of_client k es) c e h
                    ∙ sym (alone_idle ctr (of_client k es) c e h);
              }
        ]

    pub any_Step :
        (ev : Event)
        → (on_event ctr ev t.server t.disk).status ≡ running
        → Step here k ev c e (on_event ctr ev t.server t.disk)
    unfolding on_event
    any_Step accepted q = record {
      connection = c;
      disk = e;
      mirrors = record { found = accept_find n k t.server c v m.found; agree = m.agree };
      alone = λ es. refl;
    }
    any_Step accept_failed q = record {
      connection = c;
      disk = e;
      mirrors = record { found = m.found; agree = m.agree };
      alone = λ es. refl;
    }
    any_Step (received j r) q = elim (Bool-cases (j == k)) [
      | inl h ↦ own_Step j r (equal j k h) q
      | inr h ↦
          let ne = differ j k h in
          let left = (on_event-Home ctr here (received j r) t.server t.disk home).1 k ne in
          record {
            connection = c;
            disk = e;
            mirrors = record {
              found = deliver_other ctr j k r t.server.clients t.disk ne ∙ m.found;
              agree = Agree-trans (Agree-sym left) m.agree;
            };
            alone = λ es. ap (λ l. serve_alone ctr l c e) (other_item j r es h);
          }
    ]
