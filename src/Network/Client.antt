-- ===== src/Network/Client.antt =====
-- multy/src/Network/TCPClient.h over Asio, which is a parameter, and what ReaderFactory.h puts
-- together for each file that a client sends.
pub mod Writes
pub mod Pump
pub mod Send
pub mod Short
pub mod Deliver
pub mod Joined
pub mod Partial
pub mod Several
use multithreading_io.Base.{
  ℕ, ◌+◌, Bool, true, false, Option, some, List, [], ◌∷◌, ◌++◌, Result, ok, throw, Exception,
  runtime_error, ◌>>=◌, if◌then◌else◌, take,
}
use multithreading_io.Wire.Cipher.{CtrMode, Encryption, new_encryption}
use multithreading_io.Command.{default_chunk_size}
use multithreading_io.FileStream.{FileDataReader, create_reader, read}
use multithreading_io.FileStream.Disk.{FilePath}
use multithreading_io.Transfer.{
  Outcome, done, thrown, M, WriteAccess, run_name_transfer, run_data_transfer, run_file_transfer,
}
use multithreading_io.Network.{create_name_reader, read_name, read_data}

-- What comes of the constructor's calls of Asio: `resolve` throws a `system_error`; or `run` calls
-- the handler of `async_connect`, with an error or without; or `run` throws before it does. `is_open`
-- is what the socket says afterwards.
pub data Attempt : Type 0 where
  unresolved : Attempt
  handler_called : (error is_open : Bool) → Attempt
  run_throws : (is_open : Bool) → Attempt

-- `sent` is what the system has taken of the bytes, `pending` the spans of the writes whose handler
-- has not been called.
pub record TcpClient : Type 0 where
  pub is_connected_to_server : Bool
  pub is_open : Bool
  pub sent : List ℕ
  pub pending : List (List ℕ)

abbrev new_client : Bool → TcpClient
new_client is_open = record {
  is_connected_to_server = false;
  is_open = is_open;
  sent = [];
  pending = [];
}

-- The handler of `async_connect`.
connect_handler : Bool → TcpClient → TcpClient
connect_handler true c = c
connect_handler false c = record c { is_connected_to_server = true }

-- The constructor.
unfoldable pub create_client : Attempt → Result TcpClient
unfolding connect_handler
create_client unresolved = throw runtime_error
create_client (handler_called error is_open) = ok (connect_handler error (new_client is_open))
create_client (run_throws is_open) = ok (new_client is_open)

-- `Stop`. The socket stays open.
unfoldable pub stop : TcpClient → TcpClient
stop c = record c { is_connected_to_server = false }

unfoldable pub is_running : TcpClient → Bool
is_running c = c.is_connected_to_server

-- `accepts sent bytes` is the number of bytes that the system takes when a write of these bytes is
-- started, after those sent before. Asio would send the rest from its handlers, which are called
-- inside `run` only, and nothing runs the client's `io_context` after the constructor.
module _ (accepts : List ℕ → List ℕ → ℕ) where
  async_write : List ℕ → TcpClient → TcpClient
  async_write bytes c = record c {
    sent = c.sent ++ take (accepts c.sent bytes) bytes;
    pending = c.pending ++ (bytes ∷ []);
  }

  unfoldable pub write : List ℕ → TcpClient → TcpClient
  unfolding async_write
  write bytes c =
      if c.is_connected_to_server then (if c.is_open then async_write bytes c else c) else c

-- The handler of `async_write`, which waits in `pending` for a `run` that does not come.
unfoldable pub on_written : Bool → TcpClient → TcpClient
on_written true c = record c { is_open = false }
on_written false c = c

-- The objects that `ReaderFactory::CreateTask` makes for one source. `packs` counts the calls of
-- `Serializer::Pack`.
pub record Sending : Type 0 where
  pub reader : FileDataReader
  pub encryption : Encryption
  pub packs : ℕ
  pub client : TcpClient

-- A segment, or the exception of `Pack`.
abbrev pub packed : Result (List ℕ × Encryption) → M Sending (List ℕ)
packed (ok (segment, e)) w = (done segment, record w { encryption = e; packs = w.packs + 1 })
packed (throw z) w = (thrown z, record w { packs = w.packs + 1 })

module _ (ctr : CtrMode) where
  -- `present` is `fs::exists`; `opened` says whether the system could open the file, which has these
  -- bytes.
  unfoldable pub create_sending :
      (FilePath → Bool) → Bool → FilePath → List ℕ → Attempt → Result Sending
  unfolding create_client
  create_sending present opened name bytes attempt = do
    path ← create_name_reader ctr present name
    reader ← create_reader opened bytes default_chunk_size
    client ← create_client attempt
    ok (record { reader = reader; encryption = new_encryption; packs = 0; client = client })

-- `random` is what the generator gives for each call of `Pack`.
module _ (ctr : CtrMode) (random : ℕ → Result (List ℕ)) (accepts : List ℕ → List ℕ → ℕ) where
  -- `FileNameSegmentReader::Read`.
  unfoldable pub name_segment : FilePath → M Sending (List ℕ)
  name_segment name w = packed (read_name ctr (random w.packs) w.encryption name) w

  -- `FileDataSegmentReader::Read`.
  unfoldable pub data_segment : M Sending (List ℕ)
  data_segment w =
      let (bytes, reader) = read w.reader in
      packed (read_data ctr (random w.packs) w.encryption bytes) (record w { reader = reader })

  abbrev pub client_access : WriteAccess Sending
  client_access = record {
    write = λ bytes w. (done tt, record w { client = write accepts bytes w.client });
    stop = λ w. (done tt, record w { client = stop w.client });
  }

  -- `Run` of the `FileTransferTask` for one source.
  unfoldable pub send_file : ℕ → FilePath → M Sending (Unit {0})
  send_file fuel name =
      run_file_transfer
        (some (run_name_transfer (some client_access.write) (some (name_segment name))))
        (some (run_data_transfer fuel client_access (some data_segment)))
