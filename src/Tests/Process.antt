-- ===== src/Tests/Process.antt =====
-- Interleavings of the two processes on a file of two chunks.
use multithreading_io.Base.{
  true, runtime_error, invalid_argument, ℕ, ◌+◌, ◌≡◌, ◌≢◌, refl, false, ◌&&◌, List, [], ◌∷◌, ◌++◌,
  flatten, length, All, replicate,
}
use multithreading_io.Process.{
  sender_done, receiver_done, launch, Side, sending, receiving, advance, interleave,
}
use multithreading_io.Process.Invariant.{held, pending, in_span}
use multithreading_io.Process.Handover.{
  is_writing, is_mapping, chunks_accounted, map_undisturbed, sender_done_complete,
}
use multithreading_io.Transfer.{M, done, thrown}
use multithreading_io.Process.Role.{run_process, cleaner, roles_in_order}
use multithreading_io.Process.Loss.{Abandoned, stop_overtakes, span_overwritten}
use multithreading_io.Process.Prompt.{run_prompt, prompt_transfer}

abbrev two_chunks : List (List ℕ)
two_chunks = (1 ∷ 2 ∷ []) ∷ (3 ∷ []) ∷ []

two_chunks_nonempty : All (λ c. c ≢ []) two_chunks
two_chunks_nonempty = ((λ h. cc), ((λ h. cc), tt))

abbrev alternate : List Side
alternate =
    replicate 5 sending
    ++ (replicate 5 receiving
        ++ (replicate 5 sending
            ++ (replicate 5 receiving ++ (replicate 3 sending ++ (receiving ∷ [])))))

alternate_arrives :
    let s = interleave alternate (launch two_chunks) in
    (s.mem.dest ≡ 1 ∷ 2 ∷ 3 ∷ []) × (s.sender ≡ sender_done) × (s.receiver ≡ receiver_done)
unfolding interleave launch
alternate_arrives = (refl, refl, refl)

chunks_accounted_example :
    let s = interleave alternate (launch two_chunks) in
    (s.mem.mapped
        ++ (pending s.receiver s.mem.available s.mem.memory
            ++ (held s.sender s.mem.memory ++ s.mem.source))
      ≡ two_chunks)
    × (length s.mem.dest + in_span s.receiver ≡ length (flatten s.mem.mapped))
chunks_accounted_example = chunks_accounted two_chunks two_chunks_nonempty alternate

map_undisturbed_example :
    let s = interleave alternate (launch two_chunks) in
    is_writing s.sender && is_mapping s.receiver ≡ false
map_undisturbed_example = map_undisturbed two_chunks two_chunks_nonempty alternate

sender_done_complete_example : (interleave alternate (launch two_chunks)).mem.mapped ≡ two_chunks
sender_done_complete_example =
    sender_done_complete two_chunks two_chunks_nonempty alternate alternate_arrives.1

stop_overtakes_example :
    (ts : List Side) × ((us : List Side)
      → Abandoned (interleave (ts ++ us) (launch ((1 ∷ 2 ∷ []) ∷ []))))
stop_overtakes_example = stop_overtakes 1 (2 ∷ [])

span_overwritten_example :
    (ts : List Side) × let s = interleave ts (launch ((1 ∷ 2 ∷ []) ∷ (3 ∷ 4 ∷ []) ∷ [])) in
      (s.sender ≡ sender_done)
      × (s.receiver ≡ receiver_done)
      × (s.mem.dest ≡ (3 ∷ 4 ∷ []) ++ (3 ∷ 4 ∷ []))
span_overwritten_example = span_overwritten 1 (2 ∷ []) 3 (4 ∷ []) refl

-- The receiver's step from posting the space to the file counts once here.
abbrev prompt_turns : List Side
prompt_turns =
    replicate 5 sending
    ++ (replicate 4 receiving
        ++ (replicate 5 sending
            ++ (replicate 4 receiving ++ (replicate 3 sending ++ (receiving ∷ [])))))

prompt_turns_end : (run_prompt prompt_turns (launch two_chunks)).sender ≡ sender_done
unfolding run_prompt advance launch
prompt_turns_end = refl

prompt_transfer_example :
    ((us : List Side) × (run_prompt prompt_turns (launch two_chunks)
        ≡ interleave us (launch two_chunks)))
    × ((run_prompt prompt_turns (launch two_chunks)).mem.dest ≡ flatten two_chunks)
prompt_transfer_example =
    prompt_transfer two_chunks prompt_turns two_chunks_nonempty prompt_turns_end

-- The writer's task counts up, and the reader's task fails.
abbrev count : M ℕ (Unit {0})
count w = (done tt, w + 1)

abbrev fail : M ℕ (Unit {0})
fail w = (thrown invalid_argument, w)

roles_in_order_example :
    let (o, x, w) = run_process count fail (record { client = false; server = false }) 7 in
    (o ≡ done tt)
    × (w ≡ 8)
    × (run_process count fail x 9
        ≡ (thrown invalid_argument, record { client = true; server = true }, 9))
roles_in_order_example = roles_in_order count fail count fail 7 9 tt tt

-- A third process is refused, but its destructor removes the names of the other two, and the fourth
-- takes the part of the first.
fourth_process_is_client :
    let (o, x, w) = run_process count fail (record { client = true; server = true }) 7 in
    (o ≡ thrown runtime_error)
    × (run_process count fail (cleaner x) w
        ≡ (done tt, record { client = true; server = false }, 8))
unfolding run_process cleaner
fourth_process_is_client = (refl, refl)
