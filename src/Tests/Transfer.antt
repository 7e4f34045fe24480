-- ===== src/Tests/Transfer.antt =====
-- The tasks on a reader that gives two chunks and a writer that refuses the next one.
use multithreading_io.Base.{
  invalid_argument, ◌+◌, ℕ, ◌≡◌, refl, Option, none, some, List, [], ◌∷◌, ◌++◌, map, length, ltb,
  if◌then◌else◌, Exception, runtime_error, arith,
}
use multithreading_io.Transfer.Tasks.{failed_file_ends_all}
use multithreading_io.Transfer.{M, thrown, run_tasks, run_network_task, done, run_data_transfer}
use multithreading_io.Transfer.Script.{chunk, script_read, write_access}
use multithreading_io.Transfer.Runs.{write_fails, run_data_transfer_lem}

-- A writer that takes at most two bytes.
abbrev refuses : List ℕ → Option Exception
refuses c = if ltb 2 (length c) then some runtime_error else none

abbrev chunks : List (List ℕ)
chunks = (1 ∷ []) ∷ (2 ∷ 3 ∷ []) ∷ []

run_data_transfer_example :
    run_data_transfer 3 (write_access refuses) (some script_read) (record {
      inputs = map chunk chunks ++ chunk (4 ∷ 5 ∷ 6 ∷ []) ∷ chunk (7 ∷ []) ∷ [];
      sent = [];
      stops = 0;
    })
    ≡ (done tt, record { inputs = chunk (7 ∷ []) ∷ []; sent = chunks; stops = 1 })
run_data_transfer_example =
    run_data_transfer_lem refuses (write_fails 4 (5 ∷ 6 ∷ []) runtime_error) refl
      (chunk (7 ∷ []) ∷ []) chunks 3 [] 0 (((λ h. cc), refl), (((λ h. cc), refl), tt)) (omega arith)

-- Two files are counted, the third fails, and the fourth and the event loop would count on.
abbrev count_file : M ℕ (Unit {0})
count_file n = (done tt, n + 1)

abbrev fail_file : M ℕ (Unit {0})
fail_file n = (thrown invalid_argument, n)

failed_file_ends_all_example :
    run_network_task ((count_file ∷ count_file ∷ []) ++ fail_file ∷ count_file ∷ []) count_file 5
    ≡ (done tt, 7)
unfolding run_tasks
failed_file_ends_all_example =
    failed_file_ends_all (count_file ∷ count_file ∷ []) (count_file ∷ []) fail_file count_file 5 7 7
      invalid_argument refl refl
