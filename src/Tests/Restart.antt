-- ===== src/Tests/Restart.antt =====
-- Two processes that are interrupted while a chunk is on its way, and a write that fails.
use multithreading_io.Base.{
  none, some, false, runtime_error, ℕ, ◌≡◌, ◌≢◌, refl, true, List, [], ◌∷◌, ◌++◌, replicate,
}
use multithreading_io.Process.{
  sender_done, receiver_done, Processes, launch, Side, sending, receiving, interleave,
}
use multithreading_io.Process.Role.{Mutexes}
use multithreading_io.Transfer.{thrown}
use multithreading_io.Process.Names.{
  Names, create_process, destroy_process, signal_handler, names_of, launch_with,
}
use multithreading_io.Process.Restart.{reopened, leftover_blocks}
use multithreading_io.Process.Faults.{Move, run_moves, failures, failed_write_repeats}

-- The sender has taken the space and has not written the chunk.
abbrev interrupted : Processes
interrupted = interleave (replicate 3 sending) (launch ((1 ∷ 2 ∷ []) ∷ (3 ∷ []) ∷ []))

abbrev both : Mutexes
both = record { client = true; server = true }

interrupted_counts :
    (interrupted.mem.space ≡ 0) × (interrupted.mem.available ≡ 0) × (interrupted.mem.stop ≡ 0)
unfolding interleave launch
interrupted_counts = (refl, refl, refl)

abbrev next_run : List Side
next_run = replicate 9 sending ++ replicate 9 receiving

leftover_blocks_example :
    let chunks : List (List ℕ) = (4 ∷ []) ∷ [] in
    let r = signal_handler true (both, names_of interrupted.mem) in
    let left = (signal_handler true (r.1, r.2)).2 in
    let s' = interleave next_run (launch_with (reopened (reopened left)) chunks) in
    (launch_with
        (reopened (reopened (destroy_process (destroy_process (names_of interrupted.mem)))))
        chunks
      ≡ launch chunks)
    × (s'.sender ≢ sender_done)
    × (s'.receiver ≢ receiver_done)
    × (s'.mem.dest ≡ [])
leftover_blocks_example =
    leftover_blocks interrupted both 4 [] [] next_run interrupted_counts.0 interrupted_counts.1
      interrupted_counts.2

failed_write_repeats_example :
    (ts : List Move) × let s = run_moves ts (launch ((1 ∷ 2 ∷ []) ∷ (3 ∷ []) ∷ [])) in
      (s.sender ≡ sender_done)
      × (s.receiver ≡ receiver_done)
      × (s.mem.dest ≡ 1 ∷ 2 ∷ 1 ∷ 2 ∷ [])
      × (failures ts ≡ 1)
failed_write_repeats_example = failed_write_repeats 1 (2 ∷ []) 3 []

abbrev no_names : Names
no_names = record { stop = none; available = none; space = none; memory = none }

-- A constructor that may not make the last semaphore leaves the two that it has made, and the shared
-- memory is removed again.
refused_space :
    create_process (record { stop = true; available = true; space = false; memory = true }) no_names
    ≡ (thrown runtime_error, record no_names { stop = some 0; available = some 0 })
unfolding create_process
refused_space = refl
