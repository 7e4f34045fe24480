-- ===== src/Process/Names.antt =====
-- SharedWriteDataAccess.h, SharedReadDataAccess.h, SharedWriteData.h and SharedReadData.h: the named
-- objects that a process opens or creates and removes, and the signal handler of
-- MultiProcessTask.cpp.
use multithreading_io.Base.{
  value_or, ℕ, Bool, true, false, Option, none, some, List, [], runtime_error, if◌then◌else◌,
}
use multithreading_io.Transfer.{thrown, Outcome, unfinished, done, M, ◌>>◌, raise}
use multithreading_io.Process.{SharedState, Processes, fetch, top}
use multithreading_io.Process.Role.{Mutexes, cleaner}

-- The semaphores and the shared memory object that exist under their names.
pub record Names : Type 0 where
  pub stop : Option ℕ
  pub available : Option ℕ
  pub space : Option ℕ
  pub memory : Option (List ℕ)

-- What the system lets a process open or create.
pub record Permits : Type 0 where
  pub stop : Bool
  pub available : Bool
  pub space : Bool
  pub memory : Bool

-- `open_or_create`: the count is that of the semaphore that is there, if one is.
abbrev refused : M Names (Unit {0})
refused = raise runtime_error

-- The constructor of `SharedWriteDataHandler`, and that of `SharedReadDataHandler`.
unfoldable pub create_write_handler : Permits → M Names (Unit {0})
create_write_handler p n =
    if p.memory then (done tt, record n { memory = some (value_or [] n.memory) }) else refused n

unfoldable pub create_read_handler : Permits → M Names (Unit {0})
create_read_handler p n =
    if p.memory then (done tt, record n { memory = some (value_or [] n.memory) }) else refused n

-- What the constructors of both accesses do, for one semaphore after the other.
open_space : Permits → M Names (Unit {0})
open_space p n =
    if p.space then (done tt, record n { space = some (value_or 1 n.space) }) else refused n

open_available : Permits → M Names (Unit {0})
open_available p n =
    if p.available
    then (done tt, record n { available = some (value_or 0 n.available) })
    else refused n

open_stop : Permits → M Names (Unit {0})
open_stop p n =
    if p.stop then (done tt, record n { stop = some (value_or 0 n.stop) }) else refused n

-- The constructor of `SharedWriteDataAccess`, and that of `SharedReadDataAccess`.
unfoldable pub create_write_access : Permits → M Names (Unit {0})
unfolding open_stop open_available open_space
create_write_access p = do open_stop p; open_available p; open_space p

unfoldable pub create_read_access : Permits → M Names (Unit {0})
unfolding open_stop open_available open_space
create_read_access p = do open_stop p; open_available p; open_space p

-- `Cleaner` of both, which their destructors call.
unfoldable pub write_access_cleaner : Names → Names
write_access_cleaner n = record n { stop = none; available = none; space = none }

unfoldable pub read_access_cleaner : Names → Names
read_access_cleaner n = record n { stop = none; available = none; space = none }

-- The destructors of both handlers, which hold a shared memory object.
unfoldable pub destroy_write_handler : Names → Names
destroy_write_handler n = record n { memory = none }

unfoldable pub destroy_read_handler : Names → Names
destroy_read_handler n = record n { memory = none }

-- An exception destroys what has been made before it.
unwinding : (Names → Names) → Outcome (Unit {0}) × Names → Outcome (Unit {0}) × Names
unwinding undo (done _, n) = (done tt, n)
unwinding undo (thrown e, n) = (thrown e, undo n)
unwinding undo (unfinished, n) = (unfinished, n)

make_reader_access : Permits → M Names (Unit {0})
unfolding create_read_handler create_read_access unwinding destroy_read_handler
make_reader_access p = do
  create_read_handler p
  λ n. unwinding destroy_read_handler (create_read_access p n)

make_writer_access : Permits → M Names (Unit {0})
unfolding create_write_handler create_write_access unwinding destroy_write_handler
make_writer_access p = do
  create_write_handler p
  λ n. unwinding destroy_write_handler (create_write_access p n)

-- `MultiProcessTask::Create`, as far as it is about these names: each process makes both its tasks.
unfoldable pub create_process : Permits → M Names (Unit {0})
unfolding make_reader_access make_writer_access unwinding destroy_write_handler write_access_cleaner
create_process p = do
  make_writer_access p
  λ n.
      unwinding (λ left. destroy_write_handler (write_access_cleaner left)) (make_reader_access p n)

-- The destructors of a process's tasks, when it ends by itself.
unfoldable pub destroy_process : Names → Names
unfolding write_access_cleaner read_access_cleaner destroy_write_handler destroy_read_handler
destroy_process n =
    destroy_write_handler (write_access_cleaner (destroy_read_handler (read_access_cleaner n)))

-- `SignalHandler`: on SIGINT the process exits with the code 0, and no destructor of its tasks runs.
unfoldable pub signal_handler : Bool → Mutexes × Names → Option ℕ × Mutexes × Names
signal_handler true (x, n) = (some 0, cleaner x, n)
signal_handler false (x, n) = (none, x, n)

-- `Terminate`, before it aborts.
unfoldable pub terminate : Mutexes × Names → Mutexes × Names
terminate (x, n) = (cleaner x, n)

-- The names while two processes run.
unfoldable pub names_of : SharedState → Names
names_of m = record {
  stop = some m.stop;
  available = some m.available;
  space = some m.space;
  memory = some m.memory;
}

-- Two processes that have opened these names and start their tasks, on a file that is read in these
-- chunks.
unfoldable pub launch_with : Names → List (List ℕ) → Processes
launch_with n chunks = record {
  mem = record {
    space = value_or 0 n.space;
    available = value_or 0 n.available;
    stop = value_or 0 n.stop;
    memory = value_or [] n.memory;
    source = chunks;
    dest = [];
    mapped = [];
  };
  sender = fetch;
  receiver = top;
}
