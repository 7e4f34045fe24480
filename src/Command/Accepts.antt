-- ===== src/Command/Accepts.antt =====
-- ProgramOptions.h: which command lines are accepted, and as which command.
use Prim.Native.String.{String}
use multithreading_io.Base.{
  value_or, ℕ, ◌≡◌, ◌≢◌, ◌↔◌, refl, sym, ◌∙◌, false, none, some, List, Result, ok, throw, arith,
}
use multithreading_io.Command.{
  undefined, multi_process, network, SCommand, VariablesMap, parse_mode, parse_network_mode, parse,
  mode_multi_thread, default_server_name, default_port, with_defaults, create_command,
}

-- What a command that the later factories are given satisfies.
pub record IsAccepted (c : SCommand) : Type 0 where
  pub known : c.mode ≢ undefined
  pub net : c.mode ≡ network → c.network_mode ≢ none
  pub memory : c.mode ≡ multi_process → c.shared_memory ≢ none

-- A command that the parser returns has a mode; in network mode it says server or client, and in
-- multi-process mode it names the shared memory.
pub parse-IsAccepted :
    (argc : ℕ) (store : Result VariablesMap) {c : SCommand}
    → parse argc store ≡ some c
    → IsAccepted c
unfolding parse
parse-IsAccepted argc (throw e) h = cc
parse-IsAccepted argc (ok v) {c} h = record {
  known = ground arith;
  net = ground arith;
  memory = ground arith;
}

-- The command that a map of options stands for.
abbrev pub command_of : VariablesMap → String → String → ℕ → SCommand
command_of v text server_name port = record {
  mode = parse_mode text;
  sources = v.source;
  dest = v.destination;
  shared_memory = v.shared_memory;
  network_mode = parse_network_mode v.network_mode;
  server_name = server_name;
  port = port;
}

-- A command line with an argument, without the help option and with the three options that have
-- defaults is accepted exactly when the command that it stands for satisfies `IsAccepted`, and then
-- as that command.
pub parse-eq-some_iff :
    (argc : ℕ) (v : VariablesMap) (text server_name : String) (port : ℕ)
    → argc ≢ 1
    → v.help ≡ false
    → v.mode ≡ some text
    → v.server_name ≡ some server_name
    → v.port ≡ some port
    → (parse argc (ok v) ≡ some (command_of v text server_name port))
      ↔ IsAccepted (command_of v text server_name port)
unfolding parse
parse-eq-some_iff argc v text server_name port h help m s p = (parse-IsAccepted argc (ok v), accept)
  where
    accept :
        IsAccepted (command_of v text server_name port)
        → parse argc (ok v) ≡ some (command_of v text server_name port)
    accept a = ground (arith, a.known, a.net, a.memory)

-- The command of the options that are found on the command line.
abbrev pub command_with_defaults : VariablesMap → SCommand
command_with_defaults v =
    command_of v (value_or mode_multi_thread v.mode) (value_or default_server_name v.server_name)
      (value_or default_port v.port)

-- A command line with an argument on which Boost's parser finds no help option is accepted exactly
-- when the command that its options and the defaults stand for satisfies `IsAccepted`, and then as
-- that command.
pub create_command-eq-some_iff :
    (run : List String → Result VariablesMap) (argc : ℕ) (argv : List String) (v : VariablesMap)
    → run argv ≡ ok v
    → argc ≢ 1
    → v.help ≡ false
    → (create_command run argc argv ≡ some (command_with_defaults v))
      ↔ IsAccepted (command_with_defaults v)
unfolding create_command with_defaults
create_command-eq-some_iff run argc argv v found h help =
    let (accepted, accepts) =
      parse-eq-some_iff argc (with_defaults v) (value_or mode_multi_thread v.mode)
        (value_or default_server_name v.server_name) (value_or default_port v.port) h help refl refl
        refl in
    (λ e. accepted (sym same ∙ e), λ a. same ∙ accepts a)
  where
    same : create_command run argc argv ≡ parse argc (ok (with_defaults v))
    same = ground arith
