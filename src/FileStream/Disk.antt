-- ===== src/FileStream/Disk.antt =====
-- What multy/src/FileStream uses of `std::filesystem`: paths as texts, files and directories. The
-- rules for paths are those of Windows, which the program is written for.
pub mod Folders
use multithreading_io.Base.{
  ℕ, ◌≡◌, ◌↔◌, Bool, true, false, ◌&&◌, ◌||◌, Option, some, List, [], ◌∷◌, ◌++◌, leb, ◌==◌, not,
  take, drop, if◌then◌else◌, arith, refl,
}

-- The code points of a path.
abbrev pub FilePath : Type 0
FilePath = List ℕ

unfoldable pub same_path : FilePath → FilePath → Bool
same_path [] [] = true
same_path [] (y ∷ ys) = false
same_path (x ∷ xs) [] = false
same_path (x ∷ xs) (y ∷ ys) = x == y && same_path xs ys

pub same_path_iff : (p q : FilePath) → (same_path p q ≡ true) ↔ (p ≡ q)
unfolding same_path
same_path_iff [] [] = ((λ _. refl), (λ _. refl))
same_path_iff [] (y ∷ ys) = ((λ h. cc), (λ h. cc))
same_path_iff (x ∷ xs) [] = ((λ h. cc), (λ h. cc))
same_path_iff (x ∷ xs) (y ∷ ys) =
    (ground (arith, same_path_iff xs ys), ground (arith, same_path_iff xs ys))

-- `denied` says where the system refuses to create a directory or to open a file for writing, for
-- whatever reason (no permission, a plain file where a folder should be, a name such as `..`). The current path, which is
-- absolute, is split at one of its separators.
pub record Disk : Type 0 where
  pub files : FilePath → Option (List ℕ)
  pub directories : FilePath → Bool
  pub denied : FilePath → Bool
  pub parent : FilePath
  pub last : FilePath

abbrev pub current_path : Disk → FilePath
current_path d = d.parent ++ b'\\' ∷ d.last

abbrev pub with_file : Disk → FilePath → List ℕ → Disk
with_file d p bytes = record d { files = λ q. if same_path p q then some bytes else d.files q }

abbrev pub with_directory : Disk → FilePath → Disk
with_directory d p = record d { directories = λ q. if same_path p q then true else d.directories q }

abbrev pub is_separator : ℕ → Bool
is_separator c = c == b'/' || c == b'\\'

is_letter : ℕ → Bool
is_letter c = leb b'a' c && leb c b'z' || leb b'A' c && leb c b'Z'

ends_in_separator : FilePath → Bool
ends_in_separator [] = false
ends_in_separator (c ∷ []) = is_separator c
ends_in_separator (c ∷ d ∷ p) = ends_in_separator (d ∷ p)

unfoldable pub any_separator : FilePath → Bool
any_separator [] = false
any_separator (c ∷ p) = is_separator c || any_separator p

-- The text up to the first separator, and from it on.
split_separator : FilePath → FilePath × FilePath
split_separator [] = ([], [])
split_separator (c ∷ p) =
    let (a, b) = split_separator p in if is_separator c then ([], c ∷ p) else (c ∷ a, b)

starts_with_separator : FilePath → Bool
starts_with_separator [] = false
starts_with_separator (c ∷ p) = is_separator c

-- A drive such as `D:`.
unfoldable pub has_drive : FilePath → Bool
unfolding is_letter
has_drive (c ∷ d ∷ p) = is_letter c && d == b':'
has_drive _ = false

-- `\\?\`, `\\.\` or `\??\`, and no separator next.
is_device : FilePath → Bool
unfolding starts_with_separator
is_device (c ∷ x ∷ y ∷ e ∷ p) =
    (is_separator c && is_separator e)
    && (not (starts_with_separator p)
        && ((is_separator x && (y == b'?' || y == b'.')) || (x == b'?' && y == b'?')))
is_device _ = false

-- `\\server`.
is_server : FilePath → Bool
is_server (c ∷ x ∷ y ∷ p) = (is_separator c && is_separator x) && not (is_separator y)
is_server _ = false

-- The root name of a path and what follows it.
unfoldable pub split_root : FilePath → FilePath × FilePath
unfolding is_device is_server split_separator
split_root p =
    if has_drive p || not (starts_with_separator p)
    then (if has_drive p then (take 2 p, drop 2 p) else ([], p))
    else if is_device p
    then (take 3 p, drop 3 p)
    else if is_server p
    then (let (a, b) = split_separator (drop 3 p) in (take 3 p ++ a, b))
    else ([], p)

abbrev pub root_name : FilePath → FilePath
root_name p = (split_root p).0

is_empty : FilePath → Bool
is_empty [] = true
is_empty (c ∷ p) = false

-- `path::is_absolute`.
is_absolute : FilePath → Bool
unfolding starts_with_separator is_empty
is_absolute p =
    let (root, rest) = split_root p in
    if has_drive p then starts_with_separator rest else not (is_empty root)

is_drive : FilePath → Bool
is_drive (c ∷ d ∷ []) = has_drive (c ∷ d ∷ [])
is_drive _ = false

-- With the separator that a name needs behind it.
unfoldable pub directory : FilePath → FilePath
unfolding ends_in_separator is_drive is_empty
directory a =
    if is_empty a || is_drive a then a else if ends_in_separator a then a else a ++ b'\\' ∷ []

-- `a / b`.
unfoldable pub join : FilePath → FilePath → FilePath
unfolding is_absolute starts_with_separator is_empty
join a b =
    let (root, rest) = split_root b in
    if is_absolute b || (not (is_empty root) && not (same_path root (root_name a)))
    then b
    else if starts_with_separator rest
    then root_name a ++ rest
    else directory a ++ rest

-- What stands behind the last separator.
behind_separators : FilePath → FilePath
behind_separators [] = []
behind_separators (c ∷ p) =
    let rest = behind_separators p in if is_separator c || any_separator p then rest else c ∷ p

-- `path::filename`.
unfoldable pub filename : FilePath → FilePath
unfolding behind_separators any_separator
filename p = behind_separators (split_root p).1

unfoldable pub has_separator : FilePath → Bool
unfolding any_separator
has_separator p = any_separator p

behind_none : (p : FilePath) → any_separator (behind_separators p) ≡ false
unfolding any_separator behind_separators
behind_none [] = refl
behind_none (c ∷ p) = ground (arith, behind_none p)

-- No separator is left in the last part of a path.
pub filename_flat : (p : FilePath) → has_separator (filename p) ≡ false
unfolding filename has_separator
filename_flat p = behind_none (split_root p).1
