-- ===== src/Tests/Command.antt =====
-- Command lines for each of the modes, and the tasks they become.
use Prim.Native.String.{String}
use multithreading_io.Base.{
  ◌≡◌, ◌↔◌, refl, true, false, none, some, List, [], ◌∷◌, Result, ok, throw, logic_error, arith,
}
use multithreading_io.Command.{
  multi_thread, SCommand, VariablesMap, parse_mode, parse_network_mode, parse, with_defaults,
  create_command,
}
use multithreading_io.Command.Accepts.{
  IsAccepted, command_with_defaults, create_command-eq-some_iff,
}
use multithreading_io.Factory.{Environment, thread_reader, thread_writer, create_tasks}
use multithreading_io.Factory.Creation.{Allows, plan, create_tasks-eq-plan}

abbrev thread_line : VariablesMap
thread_line = record {
  help = false;
  source = some ("in.txt" ∷ []);
  destination = some "out.txt";
  mode = some "multi_thread";
  shared_memory = none;
  network_mode = none;
  server_name = some "localhost";
  port = some 8888;
}

abbrev help_line : VariablesMap
help_line = record thread_line { help = true }

abbrev pub thread_command : SCommand
thread_command = record {
  mode = multi_thread;
  sources = some ("in.txt" ∷ []);
  dest = some "out.txt";
  shared_memory = none;
  network_mode = none;
  server_name = "localhost";
  port = 8888;
}

thread_line_parses : parse 7 (ok thread_line) ≡ some thread_command
unfolding parse parse_mode parse_network_mode
thread_line_parses = refl

server_line_without_mode : parse 7 (ok (record thread_line { mode = some "network" })) ≡ none
unfolding parse parse_mode parse_network_mode
server_line_without_mode = refl

-- A line with a source and a destination only: `multy -s in.txt -d out.txt`.
abbrev short_line : VariablesMap
short_line = record thread_line { mode = none; server_name = none; port = none }

abbrev short_argv : List String
short_argv = "multy" ∷ "-s" ∷ "in.txt" ∷ "-d" ∷ "out.txt" ∷ []

-- Boost's parser on that line and on an empty one.
abbrev found_options : List String → Result VariablesMap
found_options [] = throw logic_error
found_options (program ∷ arguments) = ok short_line

short_line_parses :
    create_command found_options 5 short_argv ≡ some (record thread_command { port = 12345 })
unfolding create_command with_defaults parse parse_mode parse_network_mode
short_line_parses = refl

create_command-eq-some_iff_example :
    (create_command found_options 5 short_argv ≡ some (command_with_defaults short_line))
    ↔ IsAccepted (command_with_defaults short_line)
create_command-eq-some_iff_example =
    create_command-eq-some_iff found_options 5 short_argv short_line refl
      (λ h. absurd (omega arith)) refl

abbrev pub allowing : Environment
allowing = record {
  exists = λ s. true;
  can_read = λ s. true;
  can_write = λ s. true;
  can_share = λ s. true;
  resolves = λ h p. true;
  can_listen = λ p. true;
}

allowing-Allows : Allows allowing
allowing-Allows = ((λ s. (refl, refl, refl, refl)), (λ h p. refl), (λ p. refl))

thread_command-IsAccepted : IsAccepted thread_command
thread_command-IsAccepted = record { known = λ h. cc; net = λ h. cc; memory = λ h. cc }

thread_tasks :
    create_tasks allowing (some thread_command)
    ≡ ok (thread_reader "in.txt" ∷ thread_writer "out.txt" ∷ [])
unfolding create_tasks
thread_tasks = refl

create_tasks-eq-plan_example : create_tasks allowing (some thread_command) ≡ plan thread_command
create_tasks-eq-plan_example =
    create_tasks-eq-plan allowing allowing-Allows thread_command thread_command-IsAccepted
      (refl, tt)
