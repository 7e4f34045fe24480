-- ===== src/Tests/Arrival.antt =====
-- Two clients of one server that send at the same time.
use multithreading_io.Base.{
  false, ◌≡◌, refl, ap, sym, true, some, List, [], ◌∷◌, ◌++◌, map, ok, if◌then◌else◌, length, take,
  flatten, arith,
}
use multithreading_io.Wire.Cipher.{codes}
use multithreading_io.Wire.Serializer.{unpack}
use multithreading_io.FileStream.Disk.{
  split_root, directory, has_drive, current_path, FilePath, Disk, join, filename, same_path,
  with_file, with_directory,
}
use multithreading_io.FileStream.Writer.{FileDataWriter, create_writer, write_file}
use multithreading_io.Network.{handled, new_handler, client_folder, to_string, handle_span}
use multithreading_io.Network.Agree.{home_path}
use multithreading_io.Network.Client.{TcpClient}
use multithreading_io.Network.Server.{
  bytes, eof, Connection, Event, accepted, received, running, serve, run_server, on_accept,
  create_connection, start_read, deliver, on_receive, run_network_server,
}
use multithreading_io.Network.Server.Lookup.{find}
use multithreading_io.Network.Server.Single.{serve_alone}
use multithreading_io.Network.Server.Projection.{served_as_alone}
use multithreading_io.Arrival.{file_reaches_server, joined_file_is_empty, partial_file}
use multithreading_io.Whole.{file_chunks}
use multithreading_io.Tests.Wire.{shift_mode, two_bytes, two_bytes_segment}
use multithreading_io.Tests.Network.{empty_disk, name, name-IsPayload}
use multithreading_io.Tests.Client.{name_sent, random, at_start, connected, made, whole_run}

abbrev both_connect : List Event
both_connect = accepted ∷ accepted ∷ []

abbrev both_send : List Event
both_send =
    received 1 (bytes name_sent)
    ∷ received 2 (bytes name_sent)
    ∷ received 1 (bytes two_bytes_segment)
    ∷ []

abbrev first_connection : Connection
first_connection = record { id = 1; handler = new_handler 1; is_open = true; reading = true }

first_found :
    find 1 (run_network_server shift_mode both_connect empty_disk).server.clients
    ≡ some first_connection
unfolding run_network_server serve run_server on_accept create_connection start_read
first_found = refl

both_served :
    (run_network_server shift_mode (both_connect ++ both_send) empty_disk).status ≡ running
unfolding run_network_server serve run_server on_accept create_connection start_read deliver
    on_receive handle_span unpack client_folder to_string create_writer write_file join filename
    split_root directory has_drive same_path
both_served = refl

served_as_alone_example :
    let o =
      serve_alone shift_mode
        (bytes name_sent ∷ bytes two_bytes_segment ∷ [])
        first_connection
        (run_network_server shift_mode both_connect empty_disk).disk in
    let t = run_network_server shift_mode (both_connect ++ both_send) empty_disk in
    (o.0 ≡ handled)
    × (find 1 t.server.clients ≡ some o.1)
    × ((p : FilePath)
        → t.disk.files (join (current_path empty_disk) (client_folder 1) ++ b'\\' ∷ p)
          ≡ o.2.files (join (current_path empty_disk) (client_folder 1) ++ b'\\' ∷ p))
served_as_alone_example =
    served_as_alone shift_mode both_connect both_send empty_disk 1 first_connection (omega arith)
      first_found both_served

abbrev first_file : FileDataWriter
first_file = record { path = codes "C:\\srv\\client_1\\a.txt"; is_open = true }

abbrev first_disk : Disk
first_disk =
    with_file (with_directory empty_disk (codes "C:\\srv\\client_1"))
      (codes "C:\\srv\\client_1\\a.txt") []

first_opens :
    create_writer name
      (client_folder 1)
      (run_network_server shift_mode both_connect empty_disk).disk
    ≡ (ok first_file, first_disk)
unfolding run_network_server serve run_server on_accept create_connection start_read client_folder
    to_string create_writer join filename split_root directory has_drive same_path
first_opens = refl

no_drive : has_drive (filename name) ≡ false
unfolding has_drive filename split_root
no_drive = refl

file_reaches_server_example :
    (run_network_server shift_mode (both_connect ++ both_send) empty_disk).disk.files
      (home_path (current_path empty_disk) 1 (codes "a.txt"))
    ≡ (if same_path
          (home_path (current_path empty_disk) 1 (filename name))
          (home_path (current_path empty_disk) 1 (codes "a.txt"))
        then some two_bytes
        else (run_network_server shift_mode both_connect empty_disk).disk.files
            (home_path (current_path empty_disk) 1 (codes "a.txt")))
file_reaches_server_example =
    file_reaches_server shift_mode random (λ _ span. length span) (λ _. true) true name two_bytes
      (at_start connected) (λ _. refl) (λ _ _. refl) name-IsPayload (omega arith, (omega arith, tt))
      made both_connect both_send empty_disk first_disk 1 first_connection first_file (omega arith)
      first_found refl no_drive first_opens
      (ap (λ (c : TcpClient). map bytes c.pending) (sym whole_run)) both_served (codes "a.txt")

abbrev at_once : List Event
at_once = received 2 (bytes name_sent) ∷ received 1 (bytes (name_sent ++ two_bytes_segment)) ∷ []

at_once_served :
    (run_network_server shift_mode (both_connect ++ at_once) empty_disk).status ≡ running
unfolding run_network_server serve run_server on_accept create_connection start_read deliver
    on_receive handle_span unpack client_folder to_string create_writer write_file join filename
    split_root directory has_drive same_path
at_once_served = refl

joined_file_is_empty_example :
    (run_network_server shift_mode (both_connect ++ at_once) empty_disk).disk.files
      (home_path (current_path empty_disk) 1 (codes "a.txt"))
    ≡ (if same_path
          (home_path (current_path empty_disk) 1 (filename name))
          (home_path (current_path empty_disk) 1 (codes "a.txt"))
        then some []
        else (run_network_server shift_mode both_connect empty_disk).disk.files
            (home_path (current_path empty_disk) 1 (codes "a.txt")))
joined_file_is_empty_example =
    joined_file_is_empty shift_mode random (λ _ span. length span) (λ _. true) true name two_bytes
      (at_start connected) (λ _. refl) (λ _ _. refl) name-IsPayload made both_connect at_once
      empty_disk first_disk 1 first_connection first_file (omega arith) first_found refl no_drive
      first_opens (ap (λ (c : TcpClient). bytes c.sent ∷ []) (sym whole_run)) at_once_served
      (codes "a.txt")

-- The client is gone after the name.
abbrev goes_away : List Event
goes_away = received 1 (bytes name_sent) ∷ received 2 (bytes name_sent) ∷ received 1 eof ∷ []

goes_away_served :
    (run_network_server shift_mode (both_connect ++ goes_away) empty_disk).status ≡ running
unfolding run_network_server serve run_server on_accept create_connection start_read deliver
    on_receive handle_span unpack client_folder to_string create_writer write_file join filename
    split_root directory has_drive same_path
goes_away_served = refl

partial_file_example :
    (run_network_server shift_mode (both_connect ++ goes_away) empty_disk).disk.files
      (home_path (current_path empty_disk) 1 (codes "a.txt"))
    ≡ (if same_path
          (home_path (current_path empty_disk) 1 (filename name))
          (home_path (current_path empty_disk) 1 (codes "a.txt"))
        then some (flatten (take 0 (file_chunks two_bytes)))
        else (run_network_server shift_mode both_connect empty_disk).disk.files
            (home_path (current_path empty_disk) 1 (codes "a.txt")))
partial_file_example =
    partial_file shift_mode random (λ _ span. length span) (λ _. true) true name two_bytes
      (at_start connected) 0 (λ _. refl) name-IsPayload (omega arith, (omega arith, tt)) made
      both_connect goes_away empty_disk first_disk 1 first_connection first_file (eof ∷ [])
      (omega arith) first_found refl no_drive first_opens (tt, tt)
      (ap (λ (c : TcpClient). map bytes (take 1 c.pending) ++ (eof ∷ [])) (sym whole_run))
      goes_away_served (codes "a.txt")
