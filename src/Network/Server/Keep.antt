-- ===== src/Network/Server/Keep.antt =====
-- TCPConnection.h: a callback of one connection and the files of another client.
use multithreading_io.Base.{
  ℕ, ◌≡◌, ◌≢◌, Bool, true, ◌&&◌, List, [], ◌∷◌, All, ◌==◌, Bool-cases, inl, inr, refl, subst, sym,
  ◌∙◌, arith,
}
use multithreading_io.Wire.Cipher.{CtrMode}
use multithreading_io.FileStream.Disk.{current_path, FilePath, Disk}
use multithreading_io.Network.{Reply, handle_span}
use multithreading_io.Network.Server.{
  Received, bytes, eof, aborted, error, Connection, on_receive, deliver,
}
use multithreading_io.Network.Agree.{Agree, Agree-refl}
use multithreading_io.Network.Home.{InReach, handle_span-Stays}

-- Every connection has its own handler, whose writer writes where the connection's client can.
abbrev pub IsHome : FilePath → Connection → Type 0
IsHome here c = (c.handler.id ≡ c.id) × InReach here c.id c.handler.data_writer

module _ (ctr : CtrMode) (here : FilePath) where
  -- A callback leaves the folders of the clients with other numbers alone.
  record Left (number : ℕ) (c : Connection) (d d' : Disk) : Type 0 where
    home : IsHome here c
    same : c.id ≡ number
    current : current_path d' ≡ here
    others : (k : ℕ) → number ≢ k → Agree here k d d'

  on_receive-Left :
      (r : Received) (c : Connection) (d : Disk)
      → (current_path d) ≡ here
      → IsHome here c
      → let (_, c', d') = on_receive ctr r c d in Left c.id c' d d'
  unfolding on_receive
  on_receive-Left (bytes span) c d at_home own =
      let (number, folder) = own in
      let s =
        handle_span-Stays ctr here span c.handler d at_home
          (subst (λ n. InReach here n c.handler.data_writer) (sym number) folder) in
      record {
        home = (
          s.same ∙ number,
          subst (λ n. InReach here n (handle_span ctr span c.handler d).1.data_writer) number
              s.writer,
        );
        same = refl;
        current = s.current;
        others = λ k ne. s.others k (λ e. ne (sym number ∙ e));
      }
  on_receive-Left eof c d at_home own = record {
    home = own;
    same = refl;
    current = at_home;
    others = λ k ne. Agree-refl d at_home;
  }
  on_receive-Left aborted c d at_home own = record {
    home = own;
    same = refl;
    current = at_home;
    others = λ k ne. Agree-refl d at_home;
  }
  on_receive-Left error c d at_home own = record {
    home = own;
    same = refl;
    current = at_home;
    others = λ k ne. Agree-refl d at_home;
  }

  pub record Kept (number : ℕ) (cs : List Connection) (d d' : Disk) : Type 0 where
    pub homes : All (IsHome here) cs
    pub current : current_path d' ≡ here
    pub others : (k : ℕ) → number ≢ k → Agree here k d d'

  abbrev pub KeptAfter : ℕ → Disk → Reply × List Connection × Disk → Type 0
  KeptAfter number d r = Kept number r.1 d r.2

  is_it : (a b : ℕ) (reading : Bool) → (a == b && reading) ≡ true → a ≡ b
  is_it a b reading h = ground (arith, h)

  pub deliver-Kept :
      (number : ℕ) (r : Received) (cs : List Connection) (d : Disk)
      → (current_path d) ≡ here
      → All (IsHome here) cs
      → KeptAfter number d (deliver ctr number r cs d)
  unfolding deliver
  deliver-Kept number r [] d at_home own = record {
    homes = tt;
    current = at_home;
    others = λ k ne. Agree-refl d at_home;
  }
  deliver-Kept number r (c ∷ cs) d at_home own =
      let later = deliver-Kept number r cs d at_home own.1 in
      elim (Bool-cases (c.id == number && c.reading)) [
        | inl h ↦
            let l = on_receive-Left r c d at_home own.0 in
            let o = on_receive ctr r c d in
            let all : (o.0, o.1 ∷ cs, o.2) ≡ deliver ctr number r (c ∷ cs) d = ground (arith, h) in
            subst (KeptAfter number d) all (record {
              homes = (l.home, own.1);
              current = l.current;
              others = λ k ne. l.others k (λ e. ne (sym (is_it c.id number c.reading h) ∙ e));
            })
        | inr h ↦
            let o = deliver ctr number r cs d in
            let all : (o.0, c ∷ o.1, o.2) ≡ deliver ctr number r (c ∷ cs) d = ground (arith, h) in
            subst (KeptAfter number d) all (record {
              homes = (own.0, later.homes);
              current = later.current;
              others = later.others;
            })
      ]
