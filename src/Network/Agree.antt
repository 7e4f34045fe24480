-- ===== src/Network/Agree.antt =====
-- DataHandler.h: the part of a disk that a client's spans depend on.
use multithreading_io.Base.{ℕ, ◌≡◌, ◌≢◌, ◌⊎◌, inl, inr, false, refl, sym, subst, ◌∙◌}
use multithreading_io.FileStream.Disk.{FilePath, Disk, current_path, has_separator, join}
use multithreading_io.FileStream.Disk.Folders.{inside}
use multithreading_io.FileStream.Writer.Laws.{Touches}
use multithreading_io.Network.{client_folder}
use multithreading_io.Network.Folders.{
  folders_disjoint, folder_names, folder_not_inside, folder_no_text, inside_no_text,
}

abbrev pub home_folder : FilePath → ℕ → FilePath
home_folder here k = join here (client_folder k)

abbrev pub home_path : FilePath → ℕ → FilePath → FilePath
home_path here k p = inside (home_folder here k) p

-- The two disks have the same folder of client `k`, and the system allows the same on them.
pub record Agree (here : FilePath) (k : ℕ) (d e : Disk) : Type 0 where
  pub current : (current_path d ≡ here) × (current_path e ≡ here)
  pub denied : (q : FilePath) → d.denied q ≡ e.denied q
  pub folder : d.directories (home_folder here k) ≡ e.directories (home_folder here k)
  pub plain : d.files (home_folder here k) ≡ e.files (home_folder here k)
  pub astray : (q : FilePath) → has_separator q ≡ false → d.directories q ≡ e.directories q
  pub files : (p : FilePath) → d.files (home_path here k p) ≡ e.files (home_path here k p)
  pub directories :
      (p : FilePath) → d.directories (home_path here k p) ≡ e.directories (home_path here k p)

module _ {here : FilePath} {k : ℕ} where
  pub Agree-refl : (d : Disk) → current_path d ≡ here → Agree here k d d
  Agree-refl d h = record {
    current = (h, h);
    denied = λ q. refl;
    folder = refl;
    plain = refl;
    astray = λ q e. refl;
    files = λ p. refl;
    directories = λ p. refl;
  }

  pub Agree-trans : {d e f : Disk} → Agree here k d e → Agree here k e f → Agree here k d f
  Agree-trans a b = record {
    current = (a.current.0, b.current.1);
    denied = λ q. a.denied q ∙ b.denied q;
    folder = a.folder ∙ b.folder;
    plain = a.plain ∙ b.plain;
    astray = λ q e. a.astray q e ∙ b.astray q e;
    files = λ p. a.files p ∙ b.files p;
    directories = λ p. a.directories p ∙ b.directories p;
  }

  pub Agree-sym : {d e : Disk} → Agree here k d e → Agree here k e d
  Agree-sym a = record {
    current = (a.current.1, a.current.0);
    denied = λ q. sym (a.denied q);
    folder = sym a.folder;
    plain = sym a.plain;
    astray = λ q e. sym (a.astray q e);
    files = λ p. sym (a.files p);
    directories = λ p. sym (a.directories p);
  }

-- Where the writer of a client can write: inside the client's folder, or, because of a drive in the
-- file's name, under a text without separators.
abbrev pub Lands : FilePath → ℕ → FilePath → Type 0
Lands here k q = ((p : FilePath) × (q ≡ home_path here k p)) ⊎ (has_separator q ≡ false)

Lands-apart :
    (here : FilePath) (j k : ℕ) (file q : FilePath)
    → j ≢ k
    → Lands here j file
    → file ≢ home_path here k q
Lands-apart here j k file q ne (inl (p, at)) e = folders_disjoint here j k p q ne (sym at ∙ e)
Lands-apart here j k file q ne (inr h) e = inside_no_text (home_folder here k) q file h e

Lands-no_folder :
    (d : Disk) (j k : ℕ) (file : FilePath)
    → Lands (current_path d) j file
    → file ≢ home_folder (current_path d) k
Lands-no_folder d j k file (inl (p, at)) e = folder_not_inside (current_path d) k j p (sym e ∙ at)
Lands-no_folder d j k file (inr h) e = folder_no_text d k file h (sym e)

-- What another client touches.
pub Touches-Agree :
    (here : FilePath) (j k : ℕ) (file : FilePath) (d d' : Disk)
    → current_path d ≡ here
    → j ≢ k
    → Lands here j file
    → Touches file (home_folder here j) d d'
    → Agree here k d d'
Touches-Agree here j k file d d' h ne l t = record {
  current = (h, t.current ∙ h);
  denied = λ q. sym (t.denied q);
  folder = sym (t.directories (home_folder here k) (folder_names here j k ne));
  plain = sym (
      t.files (home_folder here k) (
        subst (λ a. file ≢ home_folder a k) h
          (Lands-no_folder d j k file (subst (λ a. Lands a j file) (sym h) l))));
  astray =
      λ q e. sym (t.directories q (subst (λ a. home_folder a j ≢ q) h (folder_no_text d j q e)));
  files = λ q. sym (t.files (home_path here k q) (Lands-apart here j k file q ne l));
  directories = λ q. sym (t.directories (home_path here k q) (folder_not_inside here j k q));
}
