-- ===== src/Tests/Objects.antt =====
-- Two transfers in one store, and the objects of the program for one.
use multithreading_io.Base.{ℕ, ◌≡◌, refl, true, some, List, [], ◌∷◌, ok}
use multithreading_io.Command.{buffer_size}
use multithreading_io.Factory.{create_tasks}
use multithreading_io.Threads.Buffer.{initial_sync, CircularBuffer, buffer_write, buffer_read}
use multithreading_io.Threads.Pipeline.{start}
use multithreading_io.Threads.Objects.{
  StoredBuffer, MultiThreadTask, Store, create_multi_thread, as_buffer, write_through, read_through,
}
use multithreading_io.Threads.Objects.Creation.{task_names, as_system, create_multi_thread_lem}
use multithreading_io.Threads.Objects.Writes.{Holds, AllSee, tasks_agree}
use multithreading_io.Tests.Command.{allowing, thread_command}

abbrev small_buffer : ℕ → StoredBuffer
small_buffer sync = record {
  cells = 0 ∷ 0 ∷ 0 ∷ [];
  capacity = 3;
  head = 2;
  tail = 2;
  state = record { sync = sync };
}

abbrev two_transfers : Store
two_transfers = record {
  syncs = initial_sync ∷ initial_sync ∷ [];
  flags = true ∷ true ∷ [];
  buffers = small_buffer 0 ∷ small_buffer 1 ∷ [];
}

second-Holds : Holds two_transfers 1 (small_buffer 1) initial_sync
second-Holds = record { here = refl; flags = refl }

tasks_agree_example :
    ((items : List ℕ)
      → (s' : Store) × (write_through (record { buffer = 1 }) items two_transfers ≡ some s')
        × AllSee two_transfers s' 1
            (record { sync = 1 })
            (buffer_write (as_buffer (small_buffer 1) initial_sync) items))
    × ((chunk : List ℕ) (b : CircularBuffer)
        → buffer_read (as_buffer (small_buffer 1) initial_sync) ≡ some (chunk, b)
        → (s' : Store) × (read_through (record { buffer = 1 }) two_transfers ≡ some (chunk, s'))
          × AllSee two_transfers s' 1 (record { sync = 1 }) b)
tasks_agree_example = tasks_agree second-Holds

create_multi_thread_example :
    (task_names (create_multi_thread allowing thread_command two_transfers)
      ≡ create_tasks allowing (some thread_command))
    × ((t : MultiThreadTask) (s' : Store) (chunks : List (List ℕ))
        → create_multi_thread allowing thread_command two_transfers ≡ ok (t, s')
        → as_system t.reader.sync_data_access t.writer.sync_data_access chunks s'
          ≡ some (start buffer_size chunks))
create_multi_thread_example = create_multi_thread_lem allowing thread_command two_transfers refl
