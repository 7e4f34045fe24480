-- ===== src/Network/Server.antt =====
-- multy/src/Network/TCPConnection.h, TCPServer.h and the server side of NetworkTask.cpp: the
-- callbacks that `io_context::run` makes, one after the other. Which come, and in which order, is up
-- to the network: they are a list of events.
pub mod Identity
pub mod Failure
pub mod Keep
pub mod Isolation
pub mod Lookup
pub mod Single
pub mod Mirror
pub mod Projection
use multithreading_io.Base.{
  ℕ, ◌+◌, Bool, true, false, not, ◌&&◌, Option, none, some, List, [], ◌∷◌, ◌==◌, if◌then◌else◌,
  add_size, Exception,
}
use multithreading_io.Wire.Cipher.{CtrMode}
use multithreading_io.FileStream.Disk.{Disk}
use multithreading_io.Network.{
  DataHandler, new_handler, Reply, handled, failed, null_writer, handle_span,
}

-- What a completed `async_read_some` says.
pub data Received : Type 0 where
  bytes : List ℕ → Received
  eof aborted error : Received

-- `reading` says whether a read is outstanding.
pub record Connection : Type 0 where
  pub id : ℕ
  pub handler : DataHandler
  pub is_open : Bool
  pub reading : Bool

unfoldable pub create_connection : ℕ → Connection
create_connection id = record { id = id; handler = new_handler id; is_open = true; reading = false }

-- `Read` of TCPConnection.h starts a read and returns.
unfoldable pub start_read : Connection → Connection
start_read c = record c { reading = true }

-- `acceptor_` waits with the pending connection, or is idle after an error.
pub record Server : Type 0 where
  pub current_id : ℕ
  pub pending : Option Connection
  pub clients : List Connection

abbrev pub no_server : Server
no_server = record { current_id = 0; pending = none; clients = [] }

-- `TCPServer::Run`.
unfoldable pub run_server : Server → Server
unfolding create_connection
run_server s =
    let id = add_size s.current_id 1 in
    record s { current_id = id; pending = some (create_connection id) }

-- The callback of `async_accept`: no error.
unfoldable pub on_accept : Server → Server
unfolding run_server start_read
on_accept s = elim s.pending [
  | none ↦ s
  | some c ↦ run_server (record s { pending = none; clients = start_read c ∷ s.clients })
]

pub data Event : Type 0 where
  accepted : Event
  accept_failed : Event
  received : ℕ → Received → Event

-- The process: running, ended because an exception came out of `io_context::run`, or crashed.
pub data Status : Type 0 where
  running : Status
  ended : Exception → Status
  crashed : Status

pub record Process : Type 0 where
  pub status : Status
  pub server : Server
  pub disk : Disk

abbrev pub status_of : Reply → Status
status_of handled = running
status_of (failed e) = ended e
status_of null_writer = crashed

abbrev pub is_handled : Reply → Bool
is_handled handled = true
is_handled _ = false

module _ (ctr : CtrMode) where
  -- The callback of `async_read_some`. After data it reads on, unless the handler throws.
  unfoldable pub on_receive : Received → Connection → Disk → Reply × Connection × Disk
  on_receive (bytes span) c d =
      let (reply, h, d') = handle_span ctr span c.handler d in
      (reply, record c { handler = h; reading = is_handled reply }, d')
  on_receive eof c d = (handled, record c { is_open = false; reading = false }, d)
  on_receive aborted c d = (handled, record c { reading = false }, d)
  on_receive error c d = (handled, record c { reading = false }, d)

  -- The connection that an event is for, if it has a read outstanding.
  unfoldable pub deliver : ℕ → Received → List Connection → Disk → Reply × List Connection × Disk
  deliver id r [] d = (handled, [], d)
  deliver id r (c ∷ cs) d =
      let later = deliver id r cs d in
      if c.id == id && c.reading
      then (let (reply, c', d') = on_receive r c d in (reply, c' ∷ cs, d'))
      else (let (reply, cs', d') = later in (reply, c ∷ cs', d'))

  pub on_event : Event → Server → Disk → Process
  on_event accepted s d = record { status = running; server = on_accept s; disk = d }
  on_event accept_failed s d = record {
    status = running;
    server = record s { pending = none };
    disk = d;
  }
  on_event (received id r) s d =
      let (reply, cs, d') = deliver id r s.clients d in
      record { status = status_of reply; server = record s { clients = cs }; disk = d' }

  -- `io_context::run` after the server's `Run`: it makes callbacks until one throws, and
  -- `NetworkTask::Run` reports the exception and returns.
  unfoldable pub serve : List Event → Process → Process
  unfolding on_event
  serve [] p = p
  serve (e ∷ es) p = elim p.status [ running ↦ serve es (on_event e p.server p.disk) | _ ↦ p ]

  unfoldable pub run_network_server : List Event → Disk → Process
  run_network_server es d =
      serve es (record { status = running; server = run_server no_server; disk = d })
