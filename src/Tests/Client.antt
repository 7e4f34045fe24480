-- ===== src/Tests/Client.antt =====
-- A file of two bytes that a client sends.
use multithreading_io.Base.{
  ℕ, ◌≡◌, ◌<◌, refl, true, false, List, [], ◌∷◌, ◌++◌, ok, flatten, length, arith,
}
use multithreading_io.Wire.Cipher.{new_encryption}
use multithreading_io.Wire.Serializer.{pack, to_byte}
use multithreading_io.FileStream.{create_reader, read}
use multithreading_io.Transfer.{
  pure, run_network_task, done, pump, run_data_transfer, run_name_transfer, run_file_transfer,
}
use multithreading_io.Network.{create_name_reader, read_name, read_data, data_segments}
use multithreading_io.Network.Client.{
  TcpClient, Sending, handler_called, create_client, create_sending, send_file, write, stop,
  name_segment, data_segment,
}
use multithreading_io.Network.Client.Send.{send_file_lem}
use multithreading_io.Network.Client.Several.{
  Source, create_sendings, client_tasks, AllSent, files_sent,
}
use multithreading_io.Network.Client.Short.{short_write_lost}
use multithreading_io.Whole.{file_reader, file_chunks, with_blocks}
use multithreading_io.Tests.Wire.{shift_mode, block, two_bytes, two_bytes_segment}
use multithreading_io.Tests.Network.{name}

abbrev pub at_start : TcpClient → Sending
at_start client = record {
  reader = file_reader two_bytes;
  encryption = new_encryption;
  packs = 0;
  client = client;
}

abbrev pub connected : TcpClient
connected = record { is_connected_to_server = true; is_open = true; sent = []; pending = [] }

abbrev unconnected : TcpClient
unconnected = record { is_connected_to_server = false; is_open = true; sent = []; pending = [] }

abbrev pub random : ℕ → List ℕ
random _ = block

-- The system takes at most 25 bytes.
abbrev accepts : List ℕ → List ℕ → ℕ
accepts sent bytes = 25

pub made :
    create_sending shift_mode (λ _. true) true name two_bytes (handler_called false true)
    ≡ ok (at_start connected)
unfolding create_sending create_name_reader create_reader create_client
made = refl

made_unconnected :
    create_sending shift_mode (λ _. true) true name two_bytes (handler_called true true)
    ≡ ok (at_start unconnected)
unfolding create_sending create_name_reader create_reader create_client
made_unconnected = refl

abbrev pub name_sent : List ℕ
name_sent =
    1 ∷ (block ++ (11 ∷ 0 ∷ 0 ∷ 0 ∷ 11 ∷ 2 ∷ 36 ∷ 49 ∷ 54 ∷ 36 ∷ 41 ∷ 246 ∷ 60 ∷ 64 ∷ 60 ∷ []))

abbrev pub finished : TcpClient
finished = record {
  is_connected_to_server = false;
  is_open = true;
  sent = name_sent ++ two_bytes_segment;
  pending = name_sent ∷ two_bytes_segment ∷ [];
}

pub whole_run :
    (send_file shift_mode
      (λ n. ok (random n))
      (λ _ bytes. length bytes)
      3
      name
      (at_start connected)).1.client
    ≡ finished
unfolding send_file run_file_transfer run_name_transfer run_data_transfer pump name_segment
    data_segment write stop read read_name read_data pack to_byte
whole_run = refl

short_run :
    (send_file shift_mode (λ n. ok (random n)) accepts 3 name (at_start connected)).1.client.pending
    ≡ name_sent ∷ two_bytes_segment ∷ []
unfolding send_file run_file_transfer run_name_transfer run_data_transfer pump name_segment
    data_segment write stop read read_name read_data pack to_byte
short_run = refl

send_file_example :
    (first : List ℕ) × (segments : List (List ℕ)) × (w' : Sending) × (read_name shift_mode
        (ok block)
        new_encryption
        name
      ≡ ok (first, record { iv = block }))
    × (data_segments shift_mode
          (record { iv = block })
          (with_blocks random 1 (file_chunks two_bytes))
        ≡ ok segments)
    × (send_file shift_mode (λ n. ok (random n)) accepts 3 name (at_start unconnected)
        ≡ (done tt, w'))
    × (w'.client ≡ unconnected)
send_file_example =
    send_file_lem shift_mode random accepts (λ _. true) true name two_bytes
      (handler_called true true) (at_start unconnected) made_unconnected

abbrev short_end : Sending
short_end = (send_file shift_mode (λ n. ok (random n)) accepts 3 name (at_start connected)).1

short_write_lost_example :
    ((send_file shift_mode (λ n. ok (random n)) accepts 3 name (at_start connected)).0 ≡ done tt)
    × (length short_end.client.sent < length (flatten short_end.client.pending))
short_write_lost_example =
    short_write_lost shift_mode random accepts (λ _. true) true name two_bytes (at_start connected)
      made short_end [] name_sent (two_bytes_segment ∷ []) refl short_run (omega arith)

-- Two files, of which only the second has a client that connects.
abbrev two_sources : List Source
two_sources =
    record { name = name; opened = true; content = two_bytes; attempt = handler_called true true }
    ∷ record {
      name = name;
      opened = true;
      content = two_bytes;
      attempt = handler_called false true;
    }
    ∷ []

two_made :
    create_sendings shift_mode (λ _. true) two_sources
    ≡ ok (at_start unconnected ∷ at_start connected ∷ [])
unfolding create_sendings create_sending create_name_reader create_reader create_client
two_made = refl

files_sent_example :
    (ws' : List Sending) × (run_network_task
        (client_tasks shift_mode (λ _. random) (λ _. accepts) 0 two_sources)
        (pure tt)
        (at_start unconnected ∷ at_start connected ∷ [])
      ≡ (done tt, ws'))
    × AllSent shift_mode
        (λ _. random)
        (λ _. accepts)
        0
        two_sources
        (at_start unconnected ∷ at_start connected ∷ [])
        ws'
files_sent_example =
    files_sent shift_mode (λ _. random) (λ _. accepts) (λ _. true) two_sources
      (at_start unconnected ∷ at_start connected ∷ []) two_made
