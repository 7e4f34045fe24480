-- ===== src/FileStream/Writer/Alike.antt =====
-- FileDataWriter.h on two disks that are the same where the writer looks.
use multithreading_io.Base.{ℕ, ◌≡◌, ◌≢◌, refl, List, [], ◌∷◌, arith}
use multithreading_io.FileStream.Disk.{FilePath, Disk, current_path, join}
use multithreading_io.FileStream.Writer.{FileDataWriter, create_writer, write_file, target}

-- An operation has done the same to two disks: what was the same is the same.
pub record Alike (d e d' e' : Disk) : Type 0 where
  pub current : (current_path d' ≡ current_path d) × (current_path e' ≡ current_path e)
  pub denied : (q : FilePath) → d.denied q ≡ e.denied q → d'.denied q ≡ e'.denied q
  pub files : (q : FilePath) → d.files q ≡ e.files q → d'.files q ≡ e'.files q
  pub directories :
      (q : FilePath) → d.directories q ≡ e.directories q → d'.directories q ≡ e'.directories q

pub create_writer-Alike :
    (name sub : FilePath) (d e : Disk)
    → sub ≢ []
    → current_path d ≡ current_path e
    → d.denied (join (current_path e) sub) ≡ e.denied (join (current_path e) sub)
    → d.directories (join (current_path e) sub) ≡ e.directories (join (current_path e) sub)
    → d.files (join (current_path e) sub) ≡ e.files (join (current_path e) sub)
    → d.denied (target e name sub) ≡ e.denied (target e name sub)
    → d.directories (target e name sub) ≡ e.directories (target e name sub)
    → ((create_writer name sub d).0 ≡ (create_writer name sub e).0)
      × Alike d e (create_writer name sub d).1 (create_writer name sub e).1
unfolding create_writer
create_writer-Alike name [] d e ne h a b z x y = absurd (ne refl)
create_writer-Alike name (c ∷ sub) d e ne h a b z x y = (
  ground (arith, h, a, b, z, x, y),
  record {
    current = (ground arith, ground arith);
    denied = λ q f. ground (arith, h, a, b, z, x, y, f);
    files = λ q f. ground (arith, h, a, b, z, x, y, f);
    directories = λ q f. ground (arith, h, a, b, z, x, y, f);
  },
)

pub write_file-Alike :
    (w : FileDataWriter) (bytes : List ℕ) (d e : Disk)
    → d.files w.path ≡ e.files w.path
    → Alike d e (write_file w bytes d) (write_file w bytes e)
unfolding write_file
write_file-Alike w [] d e h = record {
  current = (refl, refl);
  denied = λ q f. f;
  files = λ q f. f;
  directories = λ q f. f;
}
write_file-Alike w (x ∷ xs) d e h = record {
  current = (ground arith, ground arith);
  denied = λ q f. ground (arith, h, f);
  files = λ q f. ground (arith, h, f);
  directories = λ q f. ground (arith, h, f);
}
