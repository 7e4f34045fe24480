-- ===== src/FileStream/Disk/Folders.antt =====
-- Paths in different folders of one directory are different.
use multithreading_io.Base.{
  ℕ, ◌≡◌, ◌≢◌, ◌≤◌, ◌⊎◌, Bool, true, false, [], ◌∷◌, ◌++◌, append_assoc, if◌then◌else◌, Bool-cases,
  inl, inr, refl, ap, ap₂, sym, ◌∙◌, arith, length, length-append, take, drop,
}
use multithreading_io.FileStream.Disk.{
  FilePath, same_path, ends_in_separator, any_separator, has_separator, has_drive, split_root,
  root_name, directory, join,
}

ends-append :
    (p : FilePath) (c : ℕ) (q : FilePath)
    → ends_in_separator (p ++ c ∷ q) ≡ ends_in_separator (c ∷ q)
unfolding ends_in_separator
ends-append [] c q = refl
ends-append (x ∷ []) c q = refl
ends-append (x ∷ y ∷ p) c q = ends-append (y ∷ p) c q

ends_flat : (p : FilePath) → any_separator p ≡ false → ends_in_separator p ≡ false
unfolding ends_in_separator any_separator
ends_flat [] h = refl
ends_flat (c ∷ []) h = ground (arith, h)
ends_flat (c ∷ d ∷ p) h = ends_flat (d ∷ p) (ground (arith, h))

pub has_separator-append :
    (p q : FilePath)
    → has_separator p ≡ false
    → has_separator q ≡ false
    → has_separator (p ++ q) ≡ false
unfolding has_separator any_separator
has_separator-append [] q h k = k
has_separator-append (c ∷ p) q h k = ground (arith, h, has_separator-append p q, k)

-- A text without separators has no root name but a drive.
flat_root : (p : FilePath) → has_separator p ≡ false → has_drive p ≡ false → split_root p ≡ ([], p)
unfolding split_root has_separator any_separator has_drive
flat_root [] h k = ground arith
flat_root (c ∷ p) h k = ground (arith, h, k)

-- A name without a drive goes into the folder.
pub join_plain :
    (a b : FilePath) → has_separator b ≡ false → has_drive b ≡ false → join a b ≡ directory a ++ b
unfolding join has_separator any_separator
join_plain a [] h k = ground (arith, flat_root [] h k, k)
join_plain a (c ∷ b) h k = ground (arith, flat_root (c ∷ b) h k, h, k)

-- A name with a drive goes into the folder only if the folder has the same drive.
pub join_drive :
    (a : FilePath) (c e : ℕ) (b : FilePath)
    → has_separator (c ∷ e ∷ b) ≡ false
    → has_drive (c ∷ e ∷ b) ≡ true
    → join a (c ∷ e ∷ b)
      ≡ (if same_path (c ∷ e ∷ []) (root_name a) then directory a ++ b else c ∷ e ∷ b)
unfolding join has_separator any_separator split_root
join_drive a c e [] h k = ground (arith, h, k)
join_drive a c e (x ∷ b) h k = ground (arith, h, k)

long_directory :
    (x : FilePath) → 3 ≤ length x → ends_in_separator x ≡ false → directory x ≡ x ++ b'\\' ∷ []
unfolding directory
long_directory [] l h = absurd (omega arith)
long_directory (c ∷ []) l h = absurd (omega arith)
long_directory (c ∷ d ∷ []) l h = absurd (omega arith)
long_directory (c ∷ d ∷ e ∷ p) l h = ground (arith, h)

-- The name of a folder in a directory: nothing but a name, and too long for a drive.
pub record IsName (f : FilePath) : Type 0 where
  pub long : 3 ≤ length f
  pub flat : has_separator f ≡ false
  pub plain : has_drive f ≡ false

-- The path of `p` inside a folder.
abbrev pub inside : FilePath → FilePath → FilePath
inside folder p = folder ++ b'\\' ∷ p

folder_is : (a f : FilePath) → IsName f → join a f ≡ directory a ++ f
folder_is a f v = join_plain a f v.flat v.plain

pub directory_folder : (a f : FilePath) → IsName f → directory (join a f) ≡ join a f ++ b'\\' ∷ []
unfolding has_separator
directory_folder a [] v = absurd (omega (arith, v.long))
directory_folder a (c ∷ f) v = rw (folder_is a (c ∷ f) v) (
    long_directory (directory a ++ c ∷ f)
      (omega (arith, length-append (directory a) (c ∷ f), v.long))
      (ends-append (directory a) c f ∙ ends_flat (c ∷ f) v.flat))

pub join-inside :
    (a f b : FilePath)
    → IsName f
    → has_separator b ≡ false
    → has_drive b ≡ false
    → join (join a f) b ≡ inside (join a f) b
join-inside a f b v h k =
    join_plain (join a f) b h k
    ∙ ap (λ x. x ++ b) (directory_folder a f v)
    ∙ append_assoc (join a f) (b'\\' ∷ []) b

-- With the drive of the folder.
pub join_same :
    (a f b : FilePath)
    → IsName f
    → has_separator b ≡ false
    → has_drive b ≡ true
    → same_path (take 2 b) (root_name (join a f)) ≡ true
    → join (join a f) b ≡ inside (join a f) (drop 2 b)
unfolding has_drive
join_same a f [] v h k q = absurd (ground (arith, k))
join_same a f (c ∷ []) v h k q = absurd (ground (arith, k))
join_same a f (c ∷ e ∷ b) v h k q =
    let folder = join a f in
    join_drive folder c e b h k
    ∙ ap (λ (t : Bool). if t then directory folder ++ b else c ∷ e ∷ b) q
    ∙ ap (λ x. x ++ b) (directory_folder a f v)
    ∙ append_assoc folder (b'\\' ∷ []) b

-- With another drive.
pub join_other :
    (a b : FilePath)
    → has_separator b ≡ false
    → has_drive b ≡ true
    → same_path (take 2 b) (root_name a) ≡ false
    → join a b ≡ b
unfolding has_drive
join_other a [] h k q = absurd (ground (arith, k))
join_other a (c ∷ []) h k q = absurd (ground (arith, k))
join_other a (c ∷ e ∷ b) h k q =
    join_drive a c e b h k ∙ ap (λ (t : Bool). if t then directory a ++ b else c ∷ e ∷ b) q

-- Wherever the name of a file leads, it is a path inside the folder or a text without separators.
pub join_lands :
    (a f b : FilePath)
    → IsName f
    → has_separator b ≡ false
    → ((p : FilePath) × (join (join a f) b ≡ inside (join a f) p))
      ⊎ (has_separator (join (join a f) b) ≡ false)
join_lands a f b v h = elim (Bool-cases (has_drive b)) [
  | inr k ↦ inl (b, join-inside a f b v h k)
  | inl k ↦ elim (Bool-cases (same_path (take 2 b) (root_name (join a f)))) [
    | inl q ↦ inl (drop 2 b, join_same a f b v h k q)
    | inr q ↦ inr (ap has_separator (join_other (join a f) b h k q) ∙ h)
  ]
]

cancel : (p : FilePath) {q r : FilePath} → p ++ q ≡ p ++ r → q ≡ r
cancel [] e = e
cancel (x ∷ p) e = cancel p (cc)

first_part :
    (f g l m : FilePath)
    → has_separator f ≡ false
    → has_separator g ≡ false
    → f ++ b'\\' ∷ l ≡ g ++ b'\\' ∷ m
    → f ≡ g
unfolding has_separator any_separator
first_part [] [] l m h k e = refl
first_part [] (d ∷ g) l m h k e = let x : d ≡ b'\\' = cc in absurd (ground (arith, k, x))
first_part (c ∷ f) [] l m h k e = let x : c ≡ b'\\' = cc in absurd (ground (arith, h, x))
first_part (c ∷ f) (d ∷ g) l m h k e =
    ap₂ ◌∷◌ (cc) (first_part f g l m (ground (arith, h)) (ground (arith, k)) (cc))

inside_is : (a f l : FilePath) → IsName f → inside (join a f) l ≡ directory a ++ (f ++ b'\\' ∷ l)
inside_is a f l v =
    ap (λ x. inside x l) (folder_is a f v) ∙ append_assoc (directory a) f (b'\\' ∷ l)

-- Two paths inside two folders of one directory are the same only if the folders have the same name.
pub inside_inj :
    (a f g l m : FilePath) → IsName f → IsName g → inside (join a f) l ≡ inside (join a g) m → f ≡ g
inside_inj a f g l m v w e =
    first_part f g l m v.flat w.flat
      (cancel (directory a) (sym (inside_is a f l v) ∙ e ∙ inside_is a g m w))

-- Two folders of one directory are the same only if they have the same name, and neither of them is
-- a path inside the other.
pub join_cancel : (a f g : FilePath) → IsName f → IsName g → join a f ≡ join a g → f ≡ g
join_cancel a f g v w e = cancel (directory a) (sym (folder_is a f v) ∙ e ∙ folder_is a g w)

pub separated : (f l : FilePath) → has_separator (f ++ b'\\' ∷ l) ≡ true
unfolding has_separator any_separator
separated [] l = refl
separated (c ∷ f) l = ground (arith, separated f l)

pub folder_apart : (a f g l : FilePath) → IsName f → IsName g → join a f ≢ inside (join a g) l
folder_apart a f g l v w e =
    let x = cancel (directory a) (sym (folder_is a f v) ∙ e ∙ inside_is a g l w) in
    let y = ap has_separator x ∙ separated g l in ground (arith, v.flat, y)

separated-append : (p q : FilePath) → has_separator p ≡ true → has_separator (p ++ q) ≡ true
unfolding has_separator any_separator
separated-append [] q h = absurd (ground (arith, h))
separated-append (c ∷ p) q h = ground (arith, h, separated-append p q)

directory-separated : (a : FilePath) → has_separator a ≡ true → has_separator (directory a) ≡ true
unfolding directory
directory-separated a h = ground (arith, h, separated-append a (b'\\' ∷ []) h)

-- The path of a folder in an absolute directory has a separator.
pub folder-separated :
    (a f : FilePath) → IsName f → has_separator a ≡ true → has_separator (join a f) ≡ true
folder-separated a f v h =
    ap has_separator (folder_is a f v) ∙ separated-append (directory a) f (directory-separated a h)
