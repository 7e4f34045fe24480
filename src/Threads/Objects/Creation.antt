-- ===== src/Threads/Objects/Creation.antt =====
-- MultiThreadTask::Create: what its two tasks have in common, and when it throws.
use multithreading_io.Base.{
  ℕ, ◌≡◌, Bool, true, ◌&&◌, Option, none, some, List, [], ◌∷◌, ◌++◌, ap, ◌∙◌, Result, ok, throw,
  ◌==◌, if◌then◌else◌, length, get_elem?, get_elem?-append_self, refl, arith,
}
use multithreading_io.Command.{multi_thread, SCommand, buffer_size}
use multithreading_io.Factory.{Environment, Task, thread_reader, thread_writer, create_tasks}
use multithreading_io.Threads.Buffer.{CircularBuffer, initial_sync, create}
use multithreading_io.Threads.Pipeline.{System, fetch, top, start}
use multithreading_io.Threads.Objects.{
  BufferStateSetter, BufferStateGetter, SafeWriteDataAccess, SafeReadDataAccess, StoredBuffer,
  create_buffer, fresh_cells, MultiThreadTask, Store, create_multi_thread, as_buffer,
}

-- The two tasks by the names of their files.
abbrev pub task_names : Result (MultiThreadTask × Store) → Result (List Task)
task_names (throw e) = throw e
task_names (ok (t, s)) = ok (thread_reader t.reader.reader ∷ thread_writer t.writer.writer ∷ [])

-- The accesses write and read one buffer, poll the flags that this buffer switches, and look at one
-- `running_`.
abbrev pub shares : SafeWriteDataAccess → SafeReadDataAccess → StoredBuffer → Bool
shares w r b =
    w.writer.buffer == r.reader.buffer
    && w.running == r.running
    && w.buffer_state.sync == b.state.sync
    && r.buffer_state.sync == b.state.sync

abbrev started : CircularBuffer → Bool → List (List ℕ) → System
started b running chunks = record {
  mem = record { buffer = b; running = running; source = chunks; dest = []; log = [] };
  producer = fetch;
  consumer = top;
}

-- The two threads before their first step, if their accesses share what they should; `chunks` is what
-- the file reader is going to return.
abbrev pub as_system :
    SafeWriteDataAccess → SafeReadDataAccess → List (List ℕ) → Store → Option System
as_system w r chunks s = elim (get_elem? s.buffers w.writer.buffer) [
  | none ↦ none
  | some b ↦ elim (get_elem? s.syncs b.state.sync) [
    | none ↦ none
    | some st ↦ elim (get_elem? s.flags w.running) [
      | none ↦ none
      | some running ↦ if shares w r b then some (started (as_buffer b st) running chunks) else none
    ]
  ]
]

started-eq-start :
    (size : ℕ) (setter : BufferStateSetter) (chunks : List (List ℕ))
    → started (as_buffer (create_buffer size setter) initial_sync) true chunks ≡ start size chunks
unfolding start create create_buffer fresh_cells
started-eq-start size setter chunks = refl

create_buffer-state :
    (size : ℕ) (setter : BufferStateSetter) → (create_buffer size setter).state ≡ setter
unfolding create_buffer
create_buffer-state size setter = refl

module _ (s : Store) where
  abbrev getter : BufferStateGetter
  getter = record { sync = length s.syncs }

  abbrev write_access : SafeWriteDataAccess
  write_access = record {
    running = length s.flags;
    writer = record { buffer = length s.buffers };
    buffer_state = getter;
  }

  abbrev read_access : SafeReadDataAccess
  read_access = record {
    running = length s.flags;
    reader = record { buffer = length s.buffers };
    buffer_state = getter;
  }

  abbrev with_objects : Store
  with_objects = record {
    syncs = s.syncs ++ (initial_sync ∷ []);
    flags = s.flags ++ (true ∷ []);
    buffers = s.buffers ++ (create_buffer buffer_size (record { sync = length s.syncs }) ∷ []);
  }

  as_system_lem :
      (chunks : List (List ℕ))
      → as_system write_access read_access chunks with_objects ≡ some (start buffer_size chunks)
  as_system_lem chunks =
      let setter : BufferStateSetter = record { sync = length s.syncs } in
      let b = create_buffer buffer_size setter in
      ground (
        arith,
        get_elem?-append_self s.buffers b,
        get_elem?-append_self s.syncs initial_sync,
        get_elem?-append_self s.flags true,
        create_buffer-state buffer_size setter,
        started-eq-start buffer_size setter chunks,
      )

  made_objects :
      (env : Environment) (c : SCommand) (t : MultiThreadTask) (s' : Store)
      → create_multi_thread env c s ≡ ok (t, s')
      → (t.reader.sync_data_access ≡ write_access)
        × (t.writer.sync_data_access ≡ read_access)
        × (s' ≡ with_objects)
  unfolding create_multi_thread create_buffer
  made_objects env c t s' made = ground arith

module _ (env : Environment) (c : SCommand) (s : Store) where
  -- In multi-thread mode, whatever objects there are before, `MultiThreadTask::Create` makes the tasks
  -- that the factories are asked for or throws what they throw; and the two tasks that it makes share
  -- one buffer, its flags and one `running_`, so that running them starts the two threads.
  pub create_multi_thread_lem :
      c.mode ≡ multi_thread
      → (task_names (create_multi_thread env c s) ≡ create_tasks env (some c))
        × ((t : MultiThreadTask) (s' : Store) (chunks : List (List ℕ))
            → create_multi_thread env c s ≡ ok (t, s')
            → as_system t.reader.sync_data_access t.writer.sync_data_access chunks s'
              ≡ some (start buffer_size chunks))
  unfolding create_multi_thread create_tasks
  create_multi_thread_lem m = (
    ground arith,
    λ t s' chunks made.
        let (w, r, e) = made_objects s env c t s' made in
        ap (λ u. as_system u t.writer.sync_data_access chunks s') w
        ∙ ap (λ u. as_system (write_access s) u chunks s') r
        ∙ ap (as_system (write_access s) (read_access s) chunks) e
        ∙ as_system_lem s chunks,
  )
