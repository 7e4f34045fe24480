-- ===== src/Tests/Network.antt =====
-- A file that client 3 sends, the segment of a data chunk that comes wrong, and the server.
use multithreading_io.Base.{
  ℕ, ◌≡◌, refl, true, false, none, List, [], ◌∷◌, ok, invalid_argument, take, arith,
}
use multithreading_io.Wire.Cipher.{codes, new_encryption}
use multithreading_io.Wire.Serializer.{file_data}
use multithreading_io.Wire.Serializer.RoundTrip.{IsPayload}
use multithreading_io.FileStream.Disk.{
  split_root, directory, has_drive, Disk, same_path, with_file, with_directory, join, filename,
}
use multithreading_io.FileStream.Writer.{FileDataWriter, create_writer, target}
use multithreading_io.Network.{new_handler, client_folder, to_string}
use multithreading_io.Network.Server.{
  bytes, eof, Connection, Event, accepted, received, running, ended, Process, serve,
  run_network_server,
}
use multithreading_io.Network.Server.Identity.{Numbered, run_network_server-Numbered}
use multithreading_io.Network.Server.Failure.{cut_span_ends_server}
use multithreading_io.Tests.Wire.{shift_mode, block, two_bytes, two_bytes_segment, two_bytes_packed}

abbrev pub empty_disk : Disk
empty_disk = record {
  files = λ p. none;
  directories = λ p. false;
  denied = λ p. false;
  parent = codes "C:";
  last = codes "srv";
}

to_string_digits :
    (to_string 0 ≡ codes "0") × (to_string 3 ≡ codes "3") × (to_string 120 ≡ codes "120")
unfolding to_string
to_string_digits = (refl, refl, refl)

abbrev pub name : List ℕ
name = codes "C:\\in\\a.txt"

name-target : target empty_disk name (client_folder 3) ≡ codes "C:\\srv\\client_3\\a.txt"
unfolding client_folder to_string join filename split_root directory has_drive
name-target = refl

abbrev pub opened : FileDataWriter
opened = record { path = codes "C:\\srv\\client_3\\a.txt"; is_open = true }

abbrev pub opened_disk : Disk
opened_disk =
    with_file (with_directory empty_disk (codes "C:\\srv\\client_3"))
      (codes "C:\\srv\\client_3\\a.txt") []

pub name_opens : create_writer name (client_folder 3) empty_disk ≡ (ok opened, opened_disk)
unfolding create_writer client_folder to_string join filename split_root directory has_drive
    same_path
name_opens = refl

pub name-IsPayload : IsPayload name
name-IsPayload = record {
  some_bytes = λ h. cc;
  bytes = (
    omega arith,
    (
      omega arith,
      (
        omega arith,
        (
          omega arith,
          (
            omega arith,
            (
              omega arith,
              (omega arith, (omega arith, (omega arith, (omega arith, (omega arith, tt))))),
            ),
          ),
        ),
      ),
    ),
  );
  short = omega arith;
}

two_bytes-IsPayload : IsPayload two_bytes
two_bytes-IsPayload = record {
  some_bytes = λ h. cc;
  bytes = (omega arith, (omega arith, tt));
  short = omega arith;
}

abbrev items : List (List ℕ × List ℕ)
items = (block, two_bytes) ∷ (block, two_bytes) ∷ []

abbrev client : Connection
client = record { id = 1; handler = new_handler 1; is_open = true; reading = true }

abbrev one_client : Process
one_client = record {
  status = running;
  server = record { current_id = 2; pending = none; clients = client ∷ [] };
  disk = empty_disk;
}

cut_span_ends_server_example :
    let q =
      serve shift_mode
        (received 1 (bytes (take 22 two_bytes_segment)) ∷ accepted ∷ [])
        one_client in
    (q.status ≡ ended invalid_argument) × (q.disk ≡ empty_disk)
cut_span_ends_server_example =
    cut_span_ends_server shift_mode file_data block new_encryption two_bytes two_bytes_segment 22 tt
      refl (λ h. cc) (omega arith) two_bytes_packed (omega arith) one_client client []
      (accepted ∷ []) refl refl refl

abbrev events : List Event
events = accepted ∷ received 1 eof ∷ accepted ∷ []

run_network_server-Numbered_example :
    (n : ℕ) × Numbered n (run_network_server shift_mode events empty_disk).server
run_network_server-Numbered_example =
    run_network_server-Numbered shift_mode events empty_disk (omega arith)
