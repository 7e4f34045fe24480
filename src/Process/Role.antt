-- ===== src/Process/Role.antt =====
-- MultiProcessTask.cpp: which part a process takes, by the two named mutexes, and what it leaves
-- behind. `W` is the world that the tasks change.
use multithreading_io.Base.{
  ◌≡◌, refl, ap, ◌∙◌, Bool, true, false, if◌then◌else◌, runtime_error, interprocess_exception,
}
use multithreading_io.Transfer.{Outcome, done, thrown, unfinished, M}

-- Whether the names of the two mutexes exist.
pub record Mutexes : Type 0 where
  pub client : Bool
  pub server : Bool

-- `MultiProcessTask::Cleaner`, which the destructor calls.
unfoldable pub cleaner : Mutexes → Mutexes
cleaner x = record { client = false; server = false }

module _ {W : Type 0} where
  -- An `interprocess_exception` of the reader's task is caught as well.
  after_reader : Mutexes → Outcome (Unit {0}) × W → Outcome (Unit {0}) × Mutexes × W
  after_reader x (thrown interprocess_exception, w) = (thrown runtime_error, x, w)
  after_reader x (o, w) = (o, x, w)

  as_server : M W (Unit {0}) → Mutexes → W → Outcome (Unit {0}) × Mutexes × W
  unfolding after_reader
  as_server reader x w =
      if x.server
      then (thrown runtime_error, x, w)
      else after_reader (record x { server = true }) (reader w)

  -- After such an exception of the writer's task the process goes on as the server.
  after_writer :
      M W (Unit {0}) → Mutexes → Outcome (Unit {0}) × W → Outcome (Unit {0}) × Mutexes × W
  unfolding as_server
  after_writer reader x (thrown interprocess_exception, w) = as_server reader x w
  after_writer reader x (o, w) = (o, x, w)

  -- `MultiProcessTask::Run`.
  unfoldable pub run_process :
      M W (Unit {0}) → M W (Unit {0}) → Mutexes → W → Outcome (Unit {0}) × Mutexes × W
  unfolding after_writer as_server
  run_process writer reader x w =
      if x.client
      then as_server reader x w
      else after_writer reader (record x { client = true }) (writer w)

-- What a task does while it throws no `interprocess_exception`.
abbrev pub IsPlain : Outcome (Unit {0}) → Type 0
IsPlain (thrown interprocess_exception) = ⊥
IsPlain _ = Unit

after_writer_plain :
    {W : Type 0} (reader : M W (Unit {0})) (x : Mutexes) (o : Outcome (Unit {0})) (w : W)
    → IsPlain o
    → after_writer reader x (o, w) ≡ (o, x, w)
unfolding after_writer
after_writer_plain reader x (thrown interprocess_exception) w h = absurd h
after_writer_plain reader x (done _) w h = refl
after_writer_plain reader x unfinished w h = refl
after_writer_plain reader x (thrown e) w h = refl

after_reader_plain :
    {W : Type 0} (x : Mutexes) (o : Outcome (Unit {0})) (w : W)
    → IsPlain o
    → after_reader x (o, w) ≡ (o, x, w)
unfolding after_reader
after_reader_plain x (thrown interprocess_exception) w h = absurd h
after_reader_plain x (done _) w h = refl
after_reader_plain x unfinished w h = refl
after_reader_plain x (thrown e) w h = refl

-- While no process has been destroyed and no task throws an `interprocess_exception`: the process
-- that is started first runs its writer's task, and ends as this does; the one that is started
-- second, whatever the world is by then, runs its reader's task, and ends as this does.
pub roles_in_order :
    {W : Type 0} (writer reader next_writer next_reader : M W (Unit {0})) (w w₁ : W)
    → IsPlain (writer w).0
    → IsPlain (next_reader w₁).0
    → let (o, x, w') = run_process writer reader (record { client = false; server = false }) w in
      (o ≡ (writer w).0)
      × (w' ≡ (writer w).1)
      × (run_process next_writer next_reader x w₁
          ≡ ((next_reader w₁).0, record { client = true; server = true }, (next_reader w₁).1))
unfolding run_process
roles_in_order writer reader next_writer next_reader w w₁ h k =
    let names : Mutexes = record { client = true; server = false } in
    let e = after_writer_plain reader names (writer w).0 (writer w).1 h in
    let f =
      after_reader_plain (record { client = true; server = true }) (next_reader w₁).0
        (next_reader w₁).1 k in
    (ap (λ r. r.0) e, ap (λ r. r.2) e, ap (λ r. run_process next_writer next_reader r.1 w₁) e ∙ f)
