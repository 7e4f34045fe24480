-- ===== src/Network/Alone.antt =====
-- DataHandler.h: a span does the same on two disks that agree on the folder of the handler's client.
use multithreading_io.Base.{
  suc, false, inl, inr, ℕ, ◌≡◌, Option, none, some, List, [], ◌∷◌, Result, ok, throw, refl, ap,
  subst, sym, ◌∙◌, arith,
}
use multithreading_io.Wire.Cipher.{CtrMode}
use multithreading_io.Wire.Serializer.{DataType, empty, file_name, file_data, other, unpack}
use multithreading_io.FileStream.Disk.{
  filename_flat, has_separator, current_path, FilePath, Disk, join, filename,
}
use multithreading_io.FileStream.Disk.Folders.{join_lands}
use multithreading_io.FileStream.Writer.Laws.{target_named, write_file_kept}
use multithreading_io.FileStream.Writer.{write_file, FileDataWriter, create_writer, target}
use multithreading_io.FileStream.Writer.Alike.{Alike, create_writer-Alike, write_file-Alike}
use multithreading_io.Network.{
  DataHandler, Reply, handled, failed, client_folder, handle_file_name, handle_file_data, dispatch,
  after_unpack, handle_span,
}
use multithreading_io.Network.Agree.{
  Agree-trans, Agree-sym, Lands, Touches-Agree, home_folder, home_path, Agree,
}
use multithreading_io.Network.Folders.{client_folder-IsName, client_folder_named}
use multithreading_io.Network.Home.{InReach}

module _ (here : FilePath) (k : ℕ) where
  -- The same has come of both.
  pub record SameDone (r r' : Reply × DataHandler × Disk) : Type 0 where
    pub replies : r.0 ≡ r'.0
    pub handlers : r.1 ≡ r'.1
    pub disks : Agree here k r.2 r'.2

  same_by :
      {r s r' s' : Reply × DataHandler × Disk} → r ≡ s → r' ≡ s' → SameDone r r' → SameDone s s'
  same_by {r} {s} {r'} {s'} p q x = subst (λ t. SameDone t s') p (subst (SameDone r) q x)

  Alike-Agree : {d e d' e' : Disk} → Agree here k d e → Alike d e d' e' → Agree here k d' e'
  Alike-Agree a l = record {
    current = (l.current.0 ∙ a.current.0, l.current.1 ∙ a.current.1);
    denied = λ q. l.denied q (a.denied q);
    folder = l.directories (home_folder here k) a.folder;
    plain = l.files (home_folder here k) a.plain;
    astray = λ q e. l.directories q (a.astray q e);
    files = λ p. l.files (home_path here k p) (a.files p);
    directories = λ p. l.directories (home_path here k p) (a.directories p);
  }

  -- Where the client can write there is a directory on both disks or on neither.
  Lands-same :
      (d e : Disk) (q : FilePath)
      → Agree here k d e
      → Lands here k q
      → d.directories q ≡ e.directories q
  Lands-same d e q a (inl (p, at)) =
      subst (λ x. d.directories x ≡ e.directories x) (sym at) (a.directories p)
  Lands-same d e q a (inr h) = a.astray q h

  create_same :
      (name : List ℕ) (d e : Disk)
      → Agree here k d e
      → ((create_writer name (client_folder k) d).0 ≡ (create_writer name (client_folder k) e).0)
        × Agree here k
            (create_writer name (client_folder k) d).1
            (create_writer name (client_folder k) e).1
  create_same name d e a =
      let named = client_folder-IsName k in
      let f = ap (λ x. home_folder x k) a.current.1 in
      let t = target_named e name (client_folder k) named in
      let lands =
        subst (λ q. Lands (current_path e) k q) (sym t)
          (join_lands (current_path e) (client_folder k) (filename name) named
            (filename_flat name)) in
      let (same, alike) =
        create_writer-Alike name (client_folder k) d e (client_folder_named k)
          (a.current.0 ∙ sym a.current.1) (a.denied (join (current_path e) (client_folder k)))
          (subst (λ q. d.directories q ≡ e.directories q) (sym f) a.folder)
          (subst (λ q. d.files q ≡ e.files q) (sym f) a.plain)
          (a.denied (target e name (client_folder k)))
          (Lands-same d e (target e name (client_folder k)) a
            (subst (λ x. Lands x k (target e name (client_folder k))) a.current.1 lands)) in
      (same, Alike-Agree a alike)

  file_name-SameDone :
      (name : List ℕ) (h : DataHandler) (d e : Disk)
      → h.id ≡ k
      → Agree here k d e
      → SameDone (handle_file_name name h d) (handle_file_name name h e)
  unfolding handle_file_name
  file_name-SameDone [] h d e own a = record { replies = refl; handlers = refl; disks = a }
  file_name-SameDone (c ∷ name) h d e own a =
      go (create_writer (c ∷ name) (client_folder h.id) d).0 refl
    where
      both :
          ((create_writer (c ∷ name) (client_folder h.id) d).0
            ≡ (create_writer (c ∷ name) (client_folder h.id) e).0)
          × Agree here k
              (create_writer (c ∷ name) (client_folder h.id) d).1
              (create_writer (c ∷ name) (client_folder h.id) e).1
      both =
          subst
            (λ n.
              ((create_writer (c ∷ name) (client_folder n) d).0
                ≡ (create_writer (c ∷ name) (client_folder n) e).0)
              × Agree here k (create_writer (c ∷ name) (client_folder n) d).1
                  (create_writer (c ∷ name) (client_folder n) e).1)
            (sym own) (create_same (c ∷ name) d e a)

      go :
          (r : Result FileDataWriter)
          → (create_writer (c ∷ name) (client_folder h.id) d).0 ≡ r
          → SameDone (handle_file_name (c ∷ name) h d) (handle_file_name (c ∷ name) h e)
      go (ok w) q =
          let p : (create_writer (c ∷ name) (client_folder h.id) e).0 ≡ ok w = sym both.0 ∙ q in
          let left : (
            handled,
            record h { data_writer = some w },
            (create_writer (c ∷ name) (client_folder h.id) d).1,
          )
              ≡ handle_file_name (c ∷ name) h d =
            ground (arith, q) in
          let right : (
            handled,
            record h { data_writer = some w },
            (create_writer (c ∷ name) (client_folder h.id) e).1,
          )
              ≡ handle_file_name (c ∷ name) h e =
            ground (arith, p) in
          same_by left right (record { replies = refl; handlers = refl; disks = both.1 })
      go (throw z) q =
          let p : (create_writer (c ∷ name) (client_folder h.id) e).0 ≡ throw z = sym both.0 ∙ q in
          let left : (failed z, h, (create_writer (c ∷ name) (client_folder h.id) d).1)
              ≡ handle_file_name (c ∷ name) h d =
            ground (arith, q) in
          let right : (failed z, h, (create_writer (c ∷ name) (client_folder h.id) e).1)
              ≡ handle_file_name (c ∷ name) h e =
            ground (arith, p) in
          same_by left right (record { replies = refl; handlers = refl; disks = both.1 })

  -- A write outside the folder changes nothing in it.
  strayed :
      (plain : List ℕ) (w : FileDataWriter) (d : Disk)
      → current_path d ≡ here
      → has_separator w.path ≡ false
      → Agree here k d (write_file w plain d)
  strayed plain w d at_home h =
      Touches-Agree here (suc k) k w.path d (write_file w plain d) at_home
        (λ e. absurd (omega (arith, e))) (inr h)
        (write_file_kept w plain (home_folder here (suc k)) d)

  written :
      (plain : List ℕ) (w : FileDataWriter) (d e : Disk)
      → Lands here k w.path
      → Agree here k d e
      → Agree here k (write_file w plain d) (write_file w plain e)
  written plain w d e (inl (p, at)) a =
      Alike-Agree a
        (write_file-Alike w plain d e (subst (λ q. d.files q ≡ e.files q) (sym at) (a.files p)))
  written plain w d e (inr h) a =
      Agree-trans (Agree-sym (strayed plain w d a.current.0 h))
        (Agree-trans a (strayed plain w e a.current.1 h))

  file_data-SameDone :
      (plain : List ℕ) (o : Option FileDataWriter) (h : DataHandler) (d e : Disk)
      → InReach here k o
      → Agree here k d e
      → SameDone (handle_file_data plain o h d) (handle_file_data plain o h e)
  unfolding handle_file_data
  file_data-SameDone plain none h d e own a = record { replies = refl; handlers = refl; disks = a }
  file_data-SameDone plain (some w) h d e own a = record {
    replies = refl;
    handlers = refl;
    disks = written plain w d e own a;
  }

  dispatch-SameDone :
      (type : DataType) (plain : List ℕ) (h : DataHandler) (d e : Disk)
      → h.id ≡ k
      → InReach here k h.data_writer
      → Agree here k d e
      → SameDone (dispatch type plain h d) (dispatch type plain h e)
  unfolding dispatch
  dispatch-SameDone file_name plain h d e own w a = file_name-SameDone plain h d e own a
  dispatch-SameDone file_data plain h d e own w a = file_data-SameDone plain h.data_writer h d e w a
  dispatch-SameDone empty plain h d e own w a = record {
    replies = refl;
    handlers = refl;
    disks = a;
  }
  dispatch-SameDone (other n) plain h d e own w a = record {
    replies = refl;
    handlers = refl;
    disks = a;
  }

  after_unpack-SameDone :
      (type : DataType) (r : Result (List ℕ)) (h : DataHandler) (d e : Disk)
      → h.id ≡ k
      → InReach here k h.data_writer
      → Agree here k d e
      → SameDone (after_unpack type r h d) (after_unpack type r h e)
  unfolding after_unpack
  after_unpack-SameDone type (throw z) h d e own w a = record {
    replies = refl;
    handlers = refl;
    disks = a;
  }
  after_unpack-SameDone type (ok []) h d e own w a = record {
    replies = refl;
    handlers = refl;
    disks = a;
  }
  after_unpack-SameDone type (ok (x ∷ xs)) h d e own w a =
      dispatch-SameDone type (x ∷ xs) (record h { type = type }) d e own w a

  -- `DataHandler::Write` does not look at the folders of others.
  pub handle_span-SameDone :
      (ctr : CtrMode) (span : List ℕ) (h : DataHandler) (d e : Disk)
      → h.id ≡ k
      → InReach here k h.data_writer
      → Agree here k d e
      → SameDone (handle_span ctr span h d) (handle_span ctr span h e)
  unfolding handle_span
  handle_span-SameDone ctr span h d e own w a =
      after_unpack-SameDone (unpack ctr h.type span).0 (unpack ctr h.type span).1 h d e own w a
