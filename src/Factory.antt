-- ===== src/Factory.antt =====
-- multy/src/Factory/ReaderFactory.h, WriterFactory.h, FileStreamFactory.cpp, TaskFactory.cpp, the
-- `Create` functions of the three kinds of task and multy/main.cpp: which tasks a command is turned
-- into, and which exception ends the attempt. Tasks are given by what they are made of.
pub mod Creation
use Prim.Native.String.{String}
use multithreading_io.Base.{
  ℕ, Bool, true, false, Option, none, some, List, [], ◌∷◌, ◌++◌, Result, ok, throw, Exception,
  runtime_error, logic_error, invalid_argument, bad_optional_access, ◌>>=◌, ◌>>◌, if◌then◌else◌,
  ◌==◌,
}
use text.Mathlib.Text.{◌==◌ as str_eq}
use multithreading_io.Command.{
  Mode, undefined, multi_thread, multi_process, network, NetworkMode, server, client, SCommand,
}

-- What the system allows: which files are there, can be read and can be written, whether the shared
-- memory and its semaphores can be opened, whether a server's name resolves, and whether the port can
-- be listened on.
pub record Environment : Type 0 where
  pub exists : String → Bool
  pub can_read : String → Bool
  pub can_write : String → Bool
  pub can_share : String → Bool
  pub resolves : String → ℕ → Bool
  pub can_listen : ℕ → Bool

pub data Task : Type 0 where
  thread_reader : (source : String) → Task  -- file to circular buffer
  thread_writer : (dest : String) → Task  -- circular buffer to file
  process_reader : (source memory : String) → Task  -- file to shared memory
  process_writer : (memory dest : String) → Task  -- shared memory to file
  network_reader : (source host : String) (port : ℕ) → Task  -- file to socket
  network_server : (port : ℕ) → Task

-- `optional::value()`.
abbrev pub value {ℓ} : {A : Type ℓ} → Option A → Result A
value none = throw bad_optional_access
value (some a) = ok a

abbrev pub check : Bool → Exception → Result (Unit {0})
check true e = ok tt
check false e = throw e

module _ (env : Environment) where
  open env use {exists, can_read, can_write, can_share, resolves, can_listen}

  -- `FileOperationFactory::CreateFileDataReader` and `CreateFileDataWriter` without a folder.
  create_file_data_reader : String → Result (Unit {0})
  create_file_data_reader name = check (can_read name) runtime_error

  create_file_data_writer : String → Result (Unit {0})
  create_file_data_writer name = check (can_write name) runtime_error

  -- `CreateFileNameSegmentReader`.
  create_file_name_reader : String → Result (Unit {0})
  create_file_name_reader name =
      if str_eq name "" then throw invalid_argument else check (exists name) runtime_error

  -- The loop over the sources in network mode.
  network_tasks : String → ℕ → List String → Result (List Task)
  unfolding create_file_name_reader create_file_data_reader
  network_tasks host port [] = ok []
  network_tasks host port (source ∷ sources) =
      let rest = network_tasks host port sources in
      do
        create_file_name_reader source
        create_file_data_reader source
        check (resolves host port) runtime_error
        tasks ← rest
        ok (network_reader source host port ∷ tasks)

  -- `ReaderFactory::CreateTask` behind its check of the sources; `args` is the number of further
  -- arguments.
  reader_tasks : SCommand → ℕ → String → List String → Mode → Result (List Task)
  unfolding network_tasks create_file_data_reader
  reader_tasks c args source sources multi_thread =
      if args == 3
      then (do create_file_data_reader source; ok (thread_reader source ∷ []))
      else throw logic_error
  reader_tasks c args source sources multi_process = do
    memory ← value c.shared_memory
    check (can_share memory) runtime_error
    create_file_data_reader source
    ok (process_reader source memory ∷ [])
  reader_tasks c args source sources network = network_tasks c.server_name c.port (source ∷ sources)
  reader_tasks c args source sources undefined = throw logic_error

  create_readers : SCommand → ℕ → Option (List String) → Result (List Task)
  unfolding reader_tasks
  create_readers c args none = throw logic_error
  create_readers c args (some []) = throw logic_error
  create_readers c args (some (source ∷ sources)) = reader_tasks c args source sources c.mode

  unfoldable pub reader_factory : SCommand → ℕ → Result (List Task)
  unfolding create_readers
  reader_factory c args = create_readers c args c.sources

  writer_task : SCommand → ℕ → Mode → Result Task
  unfolding create_file_data_writer
  writer_task c args multi_thread =
      if args == 3
      then (do dest ← value c.dest; create_file_data_writer dest; ok (thread_writer dest))
      else throw logic_error
  writer_task c args multi_process = do
    memory ← value c.shared_memory
    check (can_share memory) runtime_error
    dest ← value c.dest
    create_file_data_writer dest
    ok (process_writer memory dest)
  writer_task c args network =
      if args == 1
      then (do check (can_listen c.port) runtime_error; ok (network_server c.port))
      else throw logic_error
  writer_task c args undefined = throw logic_error

  -- `WriterFactory::CreateTask`.
  unfoldable pub writer_factory : SCommand → ℕ → Result Task
  unfolding writer_task
  writer_factory c args = writer_task c args c.mode

  -- `front()` of an empty vector is not reached: both callers get one task.
  front : List Task → Result Task
  front [] = throw logic_error
  front (t ∷ ts) = ok t

  -- `Create` of MultiThreadTask, with three arguments, and of MultiProcessTask, with none: a reader
  -- and a writer.
  create_pair : ℕ → SCommand → Result (List Task)
  unfolding reader_factory writer_factory front
  create_pair args c = do
    readers ← reader_factory c args
    reader ← front readers
    writer ← writer_factory c args
    ok (reader ∷ writer ∷ [])

  is_server : Option NetworkMode → Bool
  is_server (some server) = true
  is_server _ = false

  -- `NetworkTask::Create`.
  create_network : SCommand → Result (List Task)
  unfolding reader_factory writer_factory is_server
  create_network c =
      if is_server c.network_mode
      then (do t ← writer_factory c 1; ok (t ∷ []))
      else reader_factory c 0

  create_for : SCommand → Mode → Result (List Task)
  unfolding create_pair create_network
  create_for c multi_thread = create_pair 3 c
  create_for c multi_process = create_pair 0 c
  create_for c network = create_network c
  create_for c undefined = throw logic_error

  -- `TaskFactory::Run` up to the call of `Run`.
  unfoldable pub create_tasks : Option SCommand → Result (List Task)
  unfolding create_for
  create_tasks none = throw logic_error
  create_tasks (some c) = create_for c c.mode

  -- What `main` returns, as the 32-bit exit code of a Windows process, where `run` is what the tasks
  -- return. `return -1` is 2 ^ 32 - 1.
  exit_code : Result (Unit {0}) → ℕ
  exit_code (ok _) = 0
  exit_code (throw _) = 4294967295

  unfoldable pub main : (List Task → Result (Unit {0})) → Option SCommand → ℕ
  unfolding exit_code
  main run command = exit_code (create_tasks command >>= run)
