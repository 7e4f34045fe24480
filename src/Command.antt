-- ===== src/Command.antt =====
-- multy/include/Config.h, multy/src/Command/ProgramOptions.h and multy/src/Factory/CommandFactory.cpp:
-- the command that the program runs, and how it is read from the command line.
pub mod Accepts
use Prim.Native.String.{String}
use text.Mathlib.Text.{◌==◌ as str_eq}
use multithreading_io.Base.{
  value_or, ℕ, ◌*◌, ◌<◌, Bool, true, false, not, ◌&&◌, ◌||◌, Option, none, some, List, Result, ok,
  throw, logic_error, ltb, ◌==◌, if◌then◌else◌, ◌>>=◌, Exception,
}

pub data Mode : Type 0 where
  undefined multi_thread multi_process network : Mode

pub data NetworkMode : Type 0 where
  server client : NetworkMode

-- `port` is a uint64_t.
pub record SCommand : Type 0 where
  pub mode : Mode
  pub sources : Option (List String)
  pub dest : Option String
  pub shared_memory : Option String
  pub network_mode : Option NetworkMode
  pub server_name : String
  pub port : ℕ

abbrev pub default_chunk_size : ℕ
default_chunk_size = 4096

abbrev pub default_chunk_amount_in_buffer : ℕ
default_chunk_amount_in_buffer = 128

abbrev pub buffer_size : ℕ
buffer_size = default_chunk_size * default_chunk_amount_in_buffer

-- The `variables_map`: one field for each option, `none` where the map has no such key.
pub record VariablesMap : Type 0 where
  pub help : Bool
  pub source : Option (List String)
  pub destination : Option String
  pub mode : Option String
  pub shared_memory : Option String
  pub network_mode : Option String
  pub server_name : Option String
  pub port : Option ℕ

-- The words for the modes.
abbrev pub mode_multi_thread : String
mode_multi_thread = "multi_thread"

abbrev pub mode_multi_process : String
mode_multi_process = "multi_process"

abbrev pub mode_network : String
mode_network = "network"

abbrev pub network_server : String
network_server = "server"

abbrev pub network_client : String
network_client = "client"

unfoldable pub parse_mode : String → Mode
parse_mode s =
    if str_eq s mode_multi_thread
    then multi_thread
    else (if str_eq s mode_multi_process
        then multi_process
        else if str_eq s mode_network
        then network
        else undefined)

unfoldable pub parse_network_mode : Option String → Option NetworkMode
parse_network_mode none = none
parse_network_mode (some s) =
    if str_eq s network_server
    then some server
    else if str_eq s network_client
    then some client
    else none

-- `commands_[key].as<T>()` throws on a missing key.
abbrev pub as_value {ℓ} : {A : Type ℓ} → Option A → Result A
as_value none = throw logic_error
as_value (some a) = ok a

abbrev pub is_some {ℓ} : {A : Type ℓ} → Option A → Bool
is_some none = false
is_some (some a) = true

abbrev pub is_network : Mode → Bool
is_network network = true
is_network _ = false

abbrev pub is_multi_process : Mode → Bool
is_multi_process multi_process = true
is_multi_process _ = false

abbrev pub is_undefined : Mode → Bool
is_undefined undefined = true
is_undefined _ = false

-- The last lines of the `try` block, after the checks.
build : Mode → Option NetworkMode → VariablesMap → Result (Option SCommand)
build mode net v = do
  server_name ← as_value v.server_name
  port ← as_value v.port
  ok (
      some (record {
        mode = mode;
        sources = v.source;
        dest = v.destination;
        shared_memory = v.shared_memory;
        network_mode = net;
        server_name = server_name;
        port = port;
      }))

check_mode : String → VariablesMap → Result (Option SCommand)
check_mode text v =
    let mode = parse_mode text in
    let net = parse_network_mode v.network_mode in
    if is_undefined mode
    then ok none
    else (if is_network mode && not (is_some net)
        then ok none
        else (if is_multi_process mode && not (is_some v.shared_memory)
            then ok none
            else build mode net v))

-- The `try` block, from what `po::store` and `po::notify` give.
try_parse : ℕ → Result VariablesMap → Result (Option SCommand)
try_parse argc (throw e) = throw e
try_parse argc (ok v) =
    if argc == 1 || v.help
    then ok none
    else elim v.mode [ none ↦ ok none | some text ↦ check_mode text v ]

-- Every exception is caught.
unfoldable pub parse : ℕ → Result VariablesMap → Option SCommand
unfolding try_parse check_mode build
parse argc store = elim (try_parse argc store) [ ok c ↦ c | throw e ↦ none ]

-- The constructor of ProgramOptions gives three of the options a default value, which `po::store`
-- puts into the map where the command line has no such option.
abbrev pub default_server_name : String
default_server_name = "localhost"

abbrev pub default_port : ℕ
default_port = 12345

unfoldable pub with_defaults : VariablesMap → VariablesMap
with_defaults v = record v {
  mode = some (value_or mode_multi_thread v.mode);
  server_name = some (value_or default_server_name v.server_name);
  port = some (value_or default_port v.port);
}

-- `po::store`, from the options that Boost's parser finds.
stored : Result VariablesMap → Result VariablesMap
unfolding with_defaults
stored found = elim found [ throw e ↦ throw e | ok v ↦ ok (with_defaults v) ]

-- `CommandFactory::Create` and `ProgramOptions::Create`; `run` stands for Boost's parser, and gives
-- the options that are on the command line.
unfoldable pub create_command :
    (List String → Result VariablesMap) → ℕ → List String → Option SCommand
unfolding stored
create_command run argc argv = parse argc (stored (run argv))
