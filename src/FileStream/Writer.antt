-- ===== src/FileStream/Writer.antt =====
-- multy/src/FileStream/FileDataWriter.h: a file written from its start, in a folder of its own if one
-- is named.
pub mod Laws
pub mod Alike
use multithreading_io.Base.{
  ℕ, ◌≡◌, Bool, true, false, not, ◌&&◌, ◌||◌, Option, none, some, List, [], ◌∷◌, ◌++◌, Result, ok,
  throw, runtime_error, Exception, if◌then◌else◌,
}
use multithreading_io.FileStream.Disk.{
  FilePath, Disk, with_file, with_directory, current_path, join, filename,
}

pub record FileDataWriter : Type 0 where
  pub path : FilePath
  pub is_open : Bool

-- `stream_.open(name, std::ios::binary)` empties the file; a writer that could not open it is not
-- returned.
open_writer : FilePath → Disk → Result FileDataWriter × Disk
open_writer name d =
    if d.denied name || d.directories name
    then (throw runtime_error, d)
    else (ok (record { path = name; is_open = true }), with_file d name [])

-- `std::filesystem::exists`.
exists : Disk → FilePath → Bool
exists d p = d.directories p || elim (d.files p) [ none ↦ false | some _ ↦ true ]

open_in : FilePath → FilePath → Disk → Result FileDataWriter × Disk
unfolding open_writer exists
open_in folder name d =
    if exists d folder
    then open_writer name d
    else if d.denied folder
    then (throw runtime_error, d)
    else open_writer name (with_directory d folder)

-- Where `Create` writes a file of that name.
abbrev pub target : Disk → FilePath → FilePath → FilePath
target d name [] = name
target d name (c ∷ sub) = join (join (current_path d) (c ∷ sub)) (filename name)

-- `Create`; an empty `sub_folder_name` means none.
unfoldable pub create_writer : FilePath → FilePath → Disk → Result FileDataWriter × Disk
unfolding open_in open_writer exists
create_writer name [] d = open_writer name d
create_writer name (c ∷ sub) d =
    open_in (join (current_path d) (c ∷ sub))
      (join (join (current_path d) (c ∷ sub)) (filename name)) d

abbrev pub stored : Option (List ℕ) → List ℕ
stored none = []
stored (some bytes) = bytes

-- `Write`, at the end of what has been written. A write to an open file is taken to succeed: the
-- program does not look whether it did.
unfoldable pub write_file : FileDataWriter → List ℕ → Disk → Disk
write_file w [] d = d
write_file w (x ∷ xs) d =
    if w.is_open then with_file d w.path (stored (d.files w.path) ++ x ∷ xs) else d
