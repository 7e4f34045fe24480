-- ===== src/Network/Folders.antt =====
-- DataHandler.h: the folders of different clients are different.
use multithreading_io.Base.{
  ℕ, zero, suc, ◌+◌, ◌-◌, ◌*◌, ◌/◌, ◌%◌, ◌<◌, ◌≡◌, ◌≢◌, false, List, [], ◌∷◌, refl, ap, sym, ◌∙◌,
  arith, length-append,
}
use native.Mathlib.Decide.{dec_lt}
use multithreading_io.Wire.Cipher.{codes}
use multithreading_io.FileStream.Disk.{
  FilePath, Disk, current_path, has_separator, any_separator, has_drive, join,
}
use multithreading_io.FileStream.Disk.Folders.{
  has_separator-append, IsName, inside, inside_inj, join_cancel, folder_apart, separated,
  folder-separated,
}
use multithreading_io.Network.{to_string_fuel, to_string, client_folder}

-- The number that digits behind the number `n` make.
abbrev decode : ℕ → List ℕ → ℕ
decode n [] = n
decode n (c ∷ cs) = decode (10 * n + (c - b'0')) cs

decode-to_string_fuel :
    (fuel n : ℕ) (acc : List ℕ) → n < fuel → decode 0 (to_string_fuel fuel n acc) ≡ decode n acc
unfolding to_string_fuel
decode-to_string_fuel zero n acc lt = absurd (omega arith)
decode-to_string_fuel (suc fuel) n acc lt = elim (dec_lt n 10) [
  | yes h ↦ ground (arith, ap (λ k. decode k acc) (one_digit n h))
  | no h ↦ ground (
    arith,
    decode-to_string_fuel fuel (n / 10) ((b'0' + n % 10) ∷ acc),
    ap (λ k. decode k acc) (last_digit n),
  )
]
  where
    one_digit : (n : ℕ) → n < 10 → 10 * 0 + (b'0' + n % 10 - b'0') ≡ n
    one_digit n h = omega arith

    last_digit : (n : ℕ) → 10 * (n / 10) + (b'0' + n % 10 - b'0') ≡ n
    last_digit n = omega arith

decode-to_string : (n : ℕ) → decode 0 (to_string n) ≡ n
unfolding to_string
decode-to_string n = decode-to_string_fuel (suc n) n [] (omega arith)

to_string_fuel_flat :
    (fuel n : ℕ) (acc : List ℕ)
    → has_separator acc ≡ false
    → has_separator (to_string_fuel fuel n acc) ≡ false
unfolding to_string_fuel has_separator any_separator
to_string_fuel_flat zero n acc h = h
to_string_fuel_flat (suc fuel) n acc h = elim (dec_lt n 10) [
  | yes l ↦ ground (arith, h)
  | no l ↦ ground (arith, to_string_fuel_flat fuel (n / 10) ((b'0' + n % 10) ∷ acc), h)
]

to_string_flat : (n : ℕ) → has_separator (to_string n) ≡ false
unfolding to_string has_separator
to_string_flat n = to_string_fuel_flat (suc n) n [] refl

client_folder_flat : (n : ℕ) → has_separator (client_folder n) ≡ false
unfolding client_folder has_separator any_separator
client_folder_flat n = has_separator-append (codes "client_") (to_string n) refl (to_string_flat n)

pub client_folder-IsName : (n : ℕ) → IsName (client_folder n)
unfolding client_folder has_drive
client_folder-IsName n = record {
  long = omega (arith, length-append (codes "client_") (to_string n));
  flat = client_folder_flat n;
  plain = refl;
}

pub client_folder_named : (n : ℕ) → client_folder n ≢ []
unfolding client_folder
client_folder_named n e = cc

client_folder_inj : (m n : ℕ) → client_folder m ≡ client_folder n → m ≡ n
unfolding client_folder
client_folder_inj m n e =
    let f : to_string m ≡ to_string n = cc in
    sym (decode-to_string m) ∙ ap (decode 0) f ∙ decode-to_string n

-- No path is inside the folders of two clients.
pub folders_disjoint :
    (a : FilePath) (m n : ℕ) (p q : FilePath)
    → m ≢ n
    → inside (join a (client_folder m)) p ≢ inside (join a (client_folder n)) q
folders_disjoint a m n p q ne e = ne (
    client_folder_inj m n (
      inside_inj a (client_folder m) (client_folder n) p q (client_folder-IsName m)
        (client_folder-IsName n) e))

pub folder_names :
    (a : FilePath) (m n : ℕ) → m ≢ n → join a (client_folder m) ≢ join a (client_folder n)
folder_names a m n ne e = ne (
    client_folder_inj m n (
      join_cancel a (client_folder m) (client_folder n) (client_folder-IsName m)
        (client_folder-IsName n) e))

pub folder_not_inside :
    (a : FilePath) (m n : ℕ) (p : FilePath)
    → join a (client_folder m) ≢ inside (join a (client_folder n)) p
folder_not_inside a m n p =
    folder_apart a (client_folder m) (client_folder n) p (client_folder-IsName m)
      (client_folder-IsName n)

-- A text without separators is neither the folder of a client nor inside it.
pub folder_no_text :
    (d : Disk) (n : ℕ) (q : FilePath)
    → has_separator q ≡ false
    → join (current_path d) (client_folder n) ≢ q
folder_no_text d n q h e =
    let y =
      folder-separated (current_path d) (client_folder n) (client_folder-IsName n)
        (separated d.parent d.last) in
    let z = ap has_separator e in ground (arith, h, y, z)

pub inside_no_text : (folder p q : FilePath) → has_separator q ≡ false → q ≢ inside folder p
inside_no_text folder p q h e =
    let y = ap has_separator e in let z = separated folder p in ground (arith, h, y, z)
