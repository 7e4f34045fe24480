-- ===== src/Tests/FileStream.antt =====
-- A file of five bytes read through a buffer of two, and a file written into a folder.
use multithreading_io.Base.{
  ◌++◌, throw, runtime_error, take, drop, not, ◌&&◌, if◌then◌else◌, ℕ, ◌≡◌, refl, true, false, none,
  ok, List, [], ◌∷◌, flatten, All, arith,
}
use multithreading_io.Wire.Cipher.{codes}
use multithreading_io.FileStream.{FileDataReader, read, read_to_end}
use multithreading_io.FileStream.Chunks.{IsChunk, read_to_end_lem}
use multithreading_io.FileStream.Disk.{
  split_root, root_name, directory, any_separator, has_drive, current_path, current_path, Disk,
  same_path, with_file, with_directory, join, filename, has_separator,
}
use multithreading_io.FileStream.Disk.Folders.{IsName}
use multithreading_io.FileStream.Writer.{FileDataWriter, create_writer, target}
use multithreading_io.FileStream.Writer.Laws.{create_writer-has_drive}

abbrev five : List ℕ
five = 1 ∷ 2 ∷ 3 ∷ 4 ∷ 5 ∷ []

abbrev five_reader : FileDataReader
five_reader = record { stream = record { rest = five; good = true }; chunk_size = 2 }

five_chunks : read_to_end 7 five_reader ≡ ((1 ∷ 2 ∷ []) ∷ (3 ∷ 4 ∷ []) ∷ (5 ∷ []) ∷ [], true)
unfolding read_to_end read
five_chunks = refl

read_to_end_example :
    let (chunks, over) = read_to_end 7 five_reader in
    (flatten chunks ≡ five) × All (IsChunk 2) chunks × (over ≡ true)
read_to_end_example = read_to_end_lem 7 2 five (omega arith) (omega arith)

abbrev bare_disk : Disk
bare_disk = record {
  files = λ p. none;
  directories = λ p. false;
  denied = λ p. false;
  parent = codes "D:";
  last = codes "x";
}

abbrev writer : FileDataWriter
writer = record { path = codes "D:\\x\\sub\\b"; is_open = true }

abbrev after : Disk
after = with_file (with_directory bare_disk (codes "D:\\x\\sub")) (codes "D:\\x\\sub\\b") []

creates : create_writer (codes "../a/b") (codes "sub") bare_disk ≡ (ok writer, after)
unfolding create_writer join filename same_path split_root directory has_drive
creates = refl

-- Names that lead out of the folder, to the same drive, and to another computer.
abbrev astray : FileDataWriter
astray = record { path = codes "C:b"; is_open = true }

abbrev elsewhere : Disk
elsewhere = with_file (with_directory bare_disk (codes "D:\\x\\sub")) (codes "C:b") []

leaves : create_writer (codes "a/C:b") (codes "sub") bare_disk ≡ (ok astray, elsewhere)
unfolding create_writer join filename same_path split_root directory has_drive
leaves = refl

places :
    (target bare_disk (codes "C:/b") (codes "sub") ≡ codes "D:\\x\\sub\\b")
    × (target bare_disk (codes "a/D:b") (codes "sub") ≡ codes "D:\\x\\sub\\b")
    × (target bare_disk (codes "\\\\server") (codes "sub") ≡ codes "D:\\x\\sub\\")
    × (target bare_disk (codes "\\\\server\\b") (codes "sub") ≡ codes "D:\\x\\sub\\b")
    × (join (codes "C:") (codes "b") ≡ codes "C:b")
    × (join (codes "C:\\a") (codes "\\b") ≡ codes "C:\\b")
    × (join (codes "C:\\a") (codes "D:\\b") ≡ codes "D:\\b")
    × (filename (codes "\\\\?\\b") ≡ codes "b")
unfolding join filename same_path split_root directory has_drive
places = (refl, refl, refl, refl, refl, refl, refl, refl)

-- A plain file in the place of the folder is not replaced.
abbrev blocked : Disk
blocked = record (with_file bare_disk (codes "D:\\x\\sub") []) {
  denied = same_path (codes "D:\\x\\sub\\b");
}

blocked_fails : create_writer (codes "b") (codes "sub") blocked ≡ (throw runtime_error, blocked)
unfolding create_writer join filename same_path split_root directory has_drive
blocked_fails = refl

sub-IsName : IsName (codes "sub")
unfolding has_separator any_separator has_drive
sub-IsName = record { long = omega arith; flat = refl; plain = refl }

create_writer-has_drive_example :
    let part = filename (codes "a/C:b") in
    let folder = join (current_path bare_disk) (codes "sub") in
    (has_separator part ≡ false)
    × (astray.path ≡ (
        if has_drive part && not (same_path (take 2 part) (root_name folder))
        then part
        else folder ++ b'\\' ∷ (if has_drive part then drop 2 part else part)))
create_writer-has_drive_example =
    create_writer-has_drive (codes "a/C:b") (codes "sub") bare_disk elsewhere astray sub-IsName
      leaves
