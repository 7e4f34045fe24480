-- ===== src/Factory/Creation.antt =====
-- ReaderFactory.h, WriterFactory.h and TaskFactory.cpp on the commands that the parser accepts.
use Prim.Native.String.{String}
use text.Mathlib.Text.{◌==◌ as str_eq}
use multithreading_io.Base.{
  ℕ, ◌≡◌, ◌⊎◌, refl, true, false, Option, none, some, List, [], ◌∷◌, Result, ok, throw, logic_error,
  bad_optional_access, arith, All, map,
}
use multithreading_io.Command.{
  Mode, undefined, multi_thread, multi_process, network, NetworkMode, server, client, SCommand,
  VariablesMap, parse,
}
use multithreading_io.Command.Accepts.{IsAccepted}
use multithreading_io.Factory.{
  Environment, Task, thread_reader, thread_writer, process_reader, process_writer, network_reader,
  network_server, create_tasks, network_tasks, main,
}

abbrev pub Allows : Environment → Type 0
Allows env =
    ((s : String)
      → (env.exists s ≡ true)
        × (env.can_read s ≡ true)
        × (env.can_write s ≡ true)
        × (env.can_share s ≡ true))
    × ((h : String) (p : ℕ) → env.resolves h p ≡ true)
    × ((p : ℕ) → env.can_listen p ≡ true)

-- The table of what an accepted command needs: a source unless it is a server, and a destination
-- unless it uses the network.
plan_for :
    SCommand
    → Mode
    → Option (List String)
    → Option String
    → Option String
    → Option NetworkMode
    → Result (List Task)
plan_for c network sources dest memory (some server) = ok (network_server c.port ∷ [])
plan_for c network (some (s ∷ ss)) dest memory (some client) =
    ok (map (λ name. network_reader name c.server_name c.port) (s ∷ ss))
plan_for c multi_thread (some (s ∷ ss)) (some d) memory net =
    ok (thread_reader s ∷ thread_writer d ∷ [])
plan_for c multi_process (some (s ∷ ss)) (some d) (some m) net =
    ok (process_reader s m ∷ process_writer m d ∷ [])
plan_for c multi_thread (some (s ∷ ss)) none memory net = throw bad_optional_access
plan_for c multi_process (some (s ∷ ss)) none memory net = throw bad_optional_access
plan_for c mode sources dest memory net = throw logic_error

pub plan : SCommand → Result (List Task)
unfolding plan_for
plan c = plan_for c c.mode c.sources c.dest c.shared_memory c.network_mode

abbrev pub Named : Option (List String) → Type 0
Named none = Unit
Named (some names) = All (λ s. str_eq s "" ≡ false) names

module _ (env : Environment) (all : Allows env) where
  network_tasks_lem :
      (host : String) (port : ℕ) (names : List String)
      → All (λ s. str_eq s "" ≡ false) names
      → network_tasks env host port names ≡ ok (map (λ name. network_reader name host port) names)
  unfolding network_tasks
  network_tasks_lem host port [] named = refl
  network_tasks_lem host port (s ∷ ss) named =
      ground (arith, all.0 s, all.1 host port, network_tasks_lem host port ss named.1)

  -- The fields of `c` are handed over one by one, to be taken apart.
  create_tasks_fields :
      (c : SCommand) (mode : Mode) (sources : Option (List String)) (dest memory : Option String)
      (net : Option NetworkMode)
      → c.mode ≡ mode
      → c.sources ≡ sources
      → c.dest ≡ dest
      → c.shared_memory ≡ memory
      → c.network_mode ≡ net
      → IsAccepted c
      → Named sources
      → create_tasks env (some c) ≡ plan_for c mode sources dest memory net
  unfolding create_tasks plan_for
  create_tasks_fields c undefined src dst mem net e f g h k a n = absurd (a.known e)
  create_tasks_fields c multi_thread none dst mem net e f g h k a n = ground arith
  create_tasks_fields c multi_thread (some []) dst mem net e f g h k a n = ground arith
  create_tasks_fields c multi_thread (some (s ∷ ss)) none mem net e f g h k a n =
      ground (arith, all.0 s)
  create_tasks_fields c multi_thread (some (s ∷ ss)) (some d) mem net e f g h k a n =
      ground (arith, all.0 s, all.0 d)
  create_tasks_fields c multi_process none dst mem net e f g h k a n = ground arith
  create_tasks_fields c multi_process (some []) dst mem net e f g h k a n = ground arith
  create_tasks_fields c multi_process (some (s ∷ ss)) dst none net e f g h k a n =
      absurd (a.memory e h)
  create_tasks_fields c multi_process (some (s ∷ ss)) none (some m) net e f g h k a n =
      ground (arith, all.0 s, all.0 m)
  create_tasks_fields c multi_process (some (s ∷ ss)) (some d) (some m) net e f g h k a n =
      ground (arith, all.0 s, all.0 d, all.0 m)
  create_tasks_fields c network src dst mem none e f g h k a n = absurd (a.net e k)
  create_tasks_fields c network src dst mem (some server) e f g h k a n =
      ground (arith, all.2 c.port)
  create_tasks_fields c network none dst mem (some client) e f g h k a n = ground arith
  create_tasks_fields c network (some []) dst mem (some client) e f g h k a n = ground arith
  create_tasks_fields c network (some (s ∷ ss)) dst mem (some client) e f g h k a n =
      ground (arith, network_tasks_lem c.server_name c.port (s ∷ ss) n)

  -- Where the system refuses nothing, a command that the parser accepts, with no empty name among its
  -- sources, is turned into the tasks of the table, or refused with the exception of the table.
  pub create_tasks-eq-plan :
      (c : SCommand) → IsAccepted c → Named c.sources → create_tasks env (some c) ≡ plan c
  unfolding plan
  create_tasks-eq-plan c a n =
      create_tasks_fields c c.mode c.sources c.dest c.shared_memory c.network_mode refl refl refl
        refl refl a n

-- Whatever the tasks would do, a command line that asks for help, or has no argument, ends the
-- program with exit code 2 ^ 32 - 1.
pub main_help :
    (env : Environment) (run : List Task → Result (Unit {0})) (argc : ℕ) (v : VariablesMap)
    → (argc ≡ 1) ⊎ (v.help ≡ true)
    → main env run (parse argc (ok v)) ≡ 4294967295
unfolding main create_tasks parse
main_help env run argc v h = ground arith
