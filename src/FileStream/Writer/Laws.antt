-- ===== src/FileStream/Writer/Laws.antt =====
-- FileDataWriter.h: what creating a writer and writing do to the files.
use multithreading_io.Base.{
  ◌&&◌, not, take, drop, ◌∙◌, ℕ, ◌≡◌, ◌≢◌, refl, true, false, Bool-cases, inl, inr, some, List, [],
  ◌∷◌, ◌++◌, ok, arith, take, drop, ◌∙◌, if◌then◌else◌,
}
use multithreading_io.FileStream.Disk.{
  FilePath, Disk, same_path, same_path_iff, current_path, join, filename, has_separator, has_drive,
  root_name, filename_flat,
}
use multithreading_io.FileStream.Disk.Folders.{IsName, join-inside, join_same, join_other}
use multithreading_io.FileStream.Writer.{FileDataWriter, create_writer, write_file, stored, target}

-- A writer starts on an empty file, under the path that `operator/` makes of its folder and the last
-- part of its file name, and creating it leaves all other files as they were.
pub create_writer_lem :
    (name sub : FilePath) (d d' : Disk) (w : FileDataWriter)
    → create_writer name sub d ≡ (ok w, d')
    → (w.is_open ≡ true)
      × (w.path ≡ target d name sub)
      × ((q : FilePath) → d'.files q ≡ (if same_path w.path q then some [] else d.files q))
unfolding create_writer
create_writer_lem name [] d d' w e = (ground arith, ground arith, λ q. ground arith)
create_writer_lem name (c ∷ sub) d d' w e = (ground arith, ground arith, λ q. ground arith)

pub target_named :
    (d : Disk) (name sub : FilePath)
    → IsName sub
    → target d name sub ≡ join (join (current_path d) sub) (filename name)
target_named d name [] v = absurd (omega (arith, v.long))
target_named d name (c ∷ sub) v = refl

-- A write of some bytes through an open writer appends them to the writer's own file, and leaves all
-- other files as they were.
pub write_file_lem :
    (w : FileDataWriter) (bytes : List ℕ) (d : Disk)
    → w.is_open ≡ true
    → bytes ≢ []
    → (q : FilePath)
    → (write_file w bytes d).files q
      ≡ (if same_path w.path q then some (stored (d.files w.path) ++ bytes) else d.files q)
unfolding write_file
write_file_lem w [] d h ne q = absurd (ne refl)
write_file_lem w (x ∷ xs) d h ne q = ground arith

-- Where a writer with a folder of its own writes, if the folder's name has three bytes or more, no
-- separator and no drive: whatever folders the file's name goes through, only its last part counts,
-- which has no separator. If this part starts with a drive that is not the folder's, the writer leaves
-- the folder, and its path is the part itself; otherwise it writes directly in the folder, under the
-- part without its drive.
pub create_writer-has_drive :
    (name sub : FilePath) (d d' : Disk) (w : FileDataWriter)
    → IsName sub
    → create_writer name sub d ≡ (ok w, d')
    → let part = filename name in
      let folder = join (current_path d) sub in
      (has_separator part ≡ false)
      × (w.path ≡ (
          if has_drive part && not (same_path (take 2 part) (root_name folder))
          then part
          else folder ++ b'\\' ∷ (if has_drive part then drop 2 part else part)))
create_writer-has_drive name sub d d' w v e =
    let (_, path, _) = create_writer_lem name sub d d' w e in
    (filename_flat name, path ∙ target_named d name sub v ∙ place)
  where
    part : FilePath
    part = filename name

    folder : FilePath
    folder = join (current_path d) sub

    place : join folder part ≡ (
        if has_drive part && not (same_path (take 2 part) (root_name folder))
        then part
        else folder ++ b'\\' ∷ (if has_drive part then drop 2 part else part))
    place = elim (Bool-cases (has_drive part)) [
      | inr h ↦ join-inside (current_path d) sub part v (filename_flat name) h ∙ ground (arith, h)
      | inl h ↦ elim (Bool-cases (same_path (take 2 part) (root_name folder))) [
        | inl q ↦
            join_same (current_path d) sub part v (filename_flat name) h q ∙ ground (arith, h, q)
        | inr q ↦ join_other folder part (filename_flat name) h q ∙ ground (arith, h, q)
      ]
    ]

pub apart : (p q : FilePath) → p ≢ q → same_path p q ≡ false
apart p q ne = elim (Bool-cases (same_path p q)) [
  | inl h ↦ absurd (ne ((same_path_iff p q).0 h))
  | inr h ↦ h
]

-- What changes on a disk: no file but this one, no directory but this one.
pub record Touches (file : FilePath) (folder : FilePath) (d d' : Disk) : Type 0 where
  pub current : current_path d' ≡ current_path d
  pub denied : (q : FilePath) → d'.denied q ≡ d.denied q
  pub files : (q : FilePath) → file ≢ q → d'.files q ≡ d.files q
  pub directories : (q : FilePath) → folder ≢ q → d'.directories q ≡ d.directories q

-- Creating a writer, whether it succeeds or not, changes no file but the target and no directory but
-- the writer's folder.
pub create_writer_kept :
    (name sub : FilePath) (d : Disk)
    → Touches (target d name sub) (join (current_path d) sub) d (create_writer name sub d).1
unfolding create_writer
create_writer_kept name [] d = record {
  current = ground arith;
  denied = λ q. ground arith;
  files = λ q ne. ground (arith, apart name q ne);
  directories = λ q ne. ground arith;
}
create_writer_kept name (c ∷ sub) d = record {
  current = ground arith;
  denied = λ q. ground arith;
  files = λ q ne. ground (arith, apart (target d name (c ∷ sub)) q ne);
  directories = λ q ne. ground (arith, apart (join (current_path d) (c ∷ sub)) q ne);
}

-- A write, whatever the writer, changes no file but the writer's.
pub write_file_kept :
    (w : FileDataWriter) (bytes : List ℕ) (folder : FilePath) (d : Disk)
    → Touches w.path folder d (write_file w bytes d)
unfolding write_file
write_file_kept w [] folder d = record {
  current = refl;
  denied = λ q. refl;
  files = λ q ne. refl;
  directories = λ q ne. refl;
}
write_file_kept w (x ∷ xs) folder d = record {
  current = ground arith;
  denied = λ q. ground arith;
  files = λ q ne. ground (arith, apart w.path q ne);
  directories = λ q ne. ground arith;
}
