-- ===== src/Network/Home.antt =====
-- DataHandler.h: a span leaves the folders of all clients but the handler's own as they are, also if
-- the name of a file leads out of the client's folder.
use multithreading_io.Base.{
  sym, ℕ, ◌≡◌, ◌≢◌, Option, none, some, List, [], ◌∷◌, Result, ok, throw, refl, ap, subst, ◌∙◌,
  arith,
}
use multithreading_io.Wire.Cipher.{CtrMode}
use multithreading_io.Wire.Serializer.{DataType, empty, file_name, file_data, other, unpack}
use multithreading_io.FileStream.Disk.{filename_flat, current_path, FilePath, Disk, filename}
use multithreading_io.FileStream.Writer.{write_file, FileDataWriter, create_writer, target}
use multithreading_io.FileStream.Disk.Folders.{join_lands}
use multithreading_io.FileStream.Writer.Laws.{
  target_named, Touches, create_writer_lem, create_writer_kept, write_file_kept,
}
use multithreading_io.Network.{
  DataHandler, Reply, handled, failed, client_folder, handle_file_name, handle_file_data, dispatch,
  after_unpack, handle_span,
}
use multithreading_io.Network.Agree.{Lands, home_folder, Agree, Agree-refl, Touches-Agree}
use multithreading_io.Network.Folders.{client_folder-IsName}

-- The writer of a client's handler has a file where the client can write.
abbrev pub InReach : FilePath → ℕ → Option FileDataWriter → Type 0
InReach here id none = Unit
InReach here id (some w) = Lands here id w.path

-- What a span for the client with this number leaves: its handler, and the folders of the others.
pub record Stays (here : FilePath) (number : ℕ) (d : Disk) (h : DataHandler) (d' : Disk)
    : Type 0 where
  pub same : h.id ≡ number
  pub writer : InReach here number h.data_writer
  pub current : current_path d' ≡ here
  pub others : (k : ℕ) → number ≢ k → Agree here k d d'

module _ (here : FilePath) (h : DataHandler) (d : Disk) (at_home : current_path d ≡ here)
    (own : InReach here h.id h.data_writer) where
  unchanged : Stays here h.id d h d
  unchanged = record {
    same = refl;
    writer = own;
    current = at_home;
    others = λ k ne. Agree-refl d at_home;
  }

  name_Lands : (name : List ℕ) → Lands here h.id (target d name (client_folder h.id))
  name_Lands name =
      let named = client_folder-IsName h.id in
      let lands =
        join_lands (current_path d) (client_folder h.id) (filename name) named
          (filename_flat name) in
      subst (λ a. Lands a h.id (target d name (client_folder h.id))) at_home
        (subst (Lands (current_path d) h.id) (sym (target_named d name (client_folder h.id) named))
          lands)

  abbrev StaysAfter : Reply × DataHandler × Disk → Type 0
  StaysAfter r = Stays here h.id d r.1 r.2

  touched :
      (d' : Disk) (file folder : FilePath)
      → Touches file folder d d'
      → Lands here h.id file
      → folder ≡ home_folder here h.id
      → (current_path d' ≡ here) × ((k : ℕ) → h.id ≢ k → Agree here k d d')
  touched d' file folder t l f =
      let t' = subst (λ q. Touches file q d d') f t in
      (t.current ∙ at_home, λ k ne. Touches-Agree here h.id k file d d' at_home ne l t')

  file_name_Stays : (name : List ℕ) → StaysAfter (handle_file_name name h d)
  unfolding handle_file_name
  file_name_Stays [] = unchanged
  file_name_Stays (c ∷ name) = go (create_writer (c ∷ name) (client_folder h.id) d).0 refl
    where
      d' : Disk
      d' = (create_writer (c ∷ name) (client_folder h.id) d).1

      kept : ((current_path d') ≡ here) × ((k : ℕ) → h.id ≢ k → Agree here k d d')
      kept =
          touched d' (target d (c ∷ name) (client_folder h.id)) (home_folder (current_path d) h.id)
            (create_writer_kept (c ∷ name) (client_folder h.id) d) (name_Lands (c ∷ name))
            (ap (λ a. home_folder a h.id) at_home)

      go :
          (r : Result FileDataWriter)
          → (create_writer (c ∷ name) (client_folder h.id) d).0 ≡ r
          → StaysAfter (handle_file_name (c ∷ name) h d)
      go (ok w) e =
          let path =
            (create_writer_lem (c ∷ name) (client_folder h.id) d d' w (ap (λ r. (r, d')) e)).1 in
          let all : (handled, record h { data_writer = some w }, d')
              ≡ handle_file_name (c ∷ name) h d =
            ground (arith, e) in
          subst StaysAfter all (record {
            same = refl;
            writer = subst (Lands here h.id) (sym path) (name_Lands (c ∷ name));
            current = kept.0;
            others = kept.1;
          })
      go (throw z) e =
          let all : (failed z, h, d') ≡ handle_file_name (c ∷ name) h d = ground (arith, e) in
          subst StaysAfter all
            (record { same = refl; writer = own; current = kept.0; others = kept.1 })

  in_folder : (w : FileDataWriter) → h.data_writer ≡ some w → InReach here h.id (some w)
  in_folder w e = subst (InReach here h.id) e own

  file_data_Stays :
      (plain : List ℕ) (o : Option FileDataWriter)
      → h.data_writer ≡ o
      → StaysAfter (handle_file_data plain o h d)
  unfolding handle_file_data
  file_data_Stays plain none e = unchanged
  file_data_Stays plain (some w) e =
      let kept =
        touched (write_file w plain d) w.path (home_folder here h.id)
          (write_file_kept w plain (home_folder here h.id) d) (in_folder w e) refl in
      record { same = refl; writer = own; current = kept.0; others = kept.1 }

  dispatch-Stays : (type : DataType) (plain : List ℕ) → StaysAfter (dispatch type plain h d)
  unfolding dispatch
  dispatch-Stays file_name plain = file_name_Stays plain
  dispatch-Stays file_data plain = file_data_Stays plain h.data_writer refl
  dispatch-Stays empty plain = unchanged
  dispatch-Stays (other n) plain = unchanged

module _ (ctr : CtrMode) (here : FilePath) where
  after_unpack-Stays :
      (type : DataType) (r : Result (List ℕ)) (h : DataHandler) (d : Disk)
      → (current_path d) ≡ here
      → InReach here h.id h.data_writer
      → let (_, h', d') = after_unpack type r h d in Stays here h.id d h' d'
  unfolding after_unpack
  after_unpack-Stays type (throw e) h d at_home own = record {
    same = refl;
    writer = own;
    current = at_home;
    others = λ k ne. Agree-refl d at_home;
  }
  after_unpack-Stays type (ok []) h d at_home own = record {
    same = refl;
    writer = own;
    current = at_home;
    others = λ k ne. Agree-refl d at_home;
  }
  after_unpack-Stays type (ok (x ∷ xs)) h d at_home own =
      dispatch-Stays here (record h { type = type }) d at_home own type (x ∷ xs)

  pub handle_span-Stays :
      (span : List ℕ) (h : DataHandler) (d : Disk)
      → (current_path d) ≡ here
      → InReach here h.id h.data_writer
      → let (_, h', d') = handle_span ctr span h d in Stays here h.id d h' d'
  unfolding handle_span
  handle_span-Stays span h d at_home own =
      after_unpack-Stays (unpack ctr h.type span).0 (unpack ctr h.type span).1 h d at_home own
