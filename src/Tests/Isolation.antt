-- ===== src/Tests/Isolation.antt =====
-- Two clients of one server: after the first has sent a file, the second sends one of the same name.
use multithreading_io.Base.{◌≡◌, refl, some, List, [], ◌∷◌, ◌++◌}
use multithreading_io.Wire.Cipher.{codes}
use multithreading_io.Wire.Serializer.{unpack}
use multithreading_io.FileStream.Disk.{
  split_root, directory, has_drive, current_path, join, filename, same_path,
}
use multithreading_io.FileStream.Writer.{create_writer, write_file}
use multithreading_io.Network.{client_folder, to_string, handle_span}
use multithreading_io.Network.Server.{
  bytes, Event, accepted, received, serve, run_server, on_accept, create_connection, start_read,
  deliver, on_receive, run_network_server,
}
use multithreading_io.Network.Server.Isolation.{others_leave_files}
use multithreading_io.Tests.Wire.{shift_mode, two_bytes, two_bytes_segment}
use multithreading_io.Tests.Network.{empty_disk}
use multithreading_io.Tests.Client.{name_sent}

abbrev first_client : List Event
first_client =
    accepted ∷ accepted ∷ received 1 (bytes name_sent) ∷ received 1 (bytes two_bytes_segment) ∷ []

abbrev second_client : List Event
second_client = received 2 (bytes name_sent) ∷ []

-- Both files are there.
both_sent :
    let d = (run_network_server shift_mode (first_client ++ second_client) empty_disk).disk in
    (d.files (codes "C:\\srv\\client_1\\a.txt") ≡ some two_bytes)
    × (d.files (codes "C:\\srv\\client_2\\a.txt") ≡ some [])
unfolding run_network_server serve run_server on_accept create_connection start_read deliver
    on_receive handle_span unpack client_folder to_string create_writer write_file join filename
    split_root directory has_drive same_path
both_sent = (refl, refl)

others_leave_files_example :
    let path = join (current_path empty_disk) (client_folder 1) ++ b'\\' ∷ codes "a.txt" in
    (run_network_server shift_mode (first_client ++ second_client) empty_disk).disk.files path
    ≡ (run_network_server shift_mode first_client empty_disk).disk.files path
others_leave_files_example =
    others_leave_files shift_mode first_client second_client empty_disk 1 (codes "a.txt")
      ((λ e. cc), tt)
