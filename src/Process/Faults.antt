-- ===== src/Process/Faults.antt =====
-- SharedWriteData.h and SharedReadData.h when the shared memory cannot be resized or mapped: both
-- catch the exception and report it on the console.
use multithreading_io.Base.{
  ℕ, suc, ◌+◌, ◌≡◌, List, [], ◌∷◌, ◌++◌, length, replicate, map, refl, ap, ◌∙◌, arith,
}
use multithreading_io.Process.{
  SharedState, Sender, fetch, truncating, copying, post_data, sender_done, Receiver, top, mapping,
  post_space, receiver_done, Processes, launch, Side, sending, receiving, advance, interleave, send,
}
use multithreading_io.Process.Rounds.{ready, one_chunk, one_chunk_lem}
use multithreading_io.Process.Loss.{chain, processes, take_over, finish, deliver_lem, resize_self}

-- A step as it is without errors, or one that fails: `truncate` throws, the mapping throws or gives
-- no address, or the mapping of the reader does.
pub data Move : Type 0 where
  succeeds : Side → Move
  truncate_fails : Move
  write_map_fails : Move
  read_map_fails : Move

-- `SharedWriteDataHandler::Write` returns all the same.
fail_truncate : Sender → Sender
fail_truncate (truncating c) = post_data
fail_truncate p = p

fail_write : Sender → Sender
fail_write (copying c) = post_data
fail_write p = p

-- `SharedReadDataHandler::Read` returns an empty span.
fail_read : Receiver → Receiver
fail_read mapping = post_space 0
fail_read r = r

unfoldable pub move : Move → Processes → Processes
unfolding fail_truncate fail_write fail_read
move (succeeds t) s = advance t s
move truncate_fails s = record s { sender = fail_truncate s.sender }
move write_map_fails s = record s { sender = fail_write s.sender }
move read_map_fails s = record s { receiver = fail_read s.receiver }

unfoldable pub run_moves : List Move → Processes → Processes
unfolding move
run_moves [] s = s
run_moves (t ∷ ts) s = run_moves ts (move t s)

run_moves-succeeds :
    (ts : List Side) (us : List Move) (s : Processes)
    → run_moves (map succeeds ts ++ us) s ≡ run_moves us (interleave ts s)
unfolding run_moves move interleave
run_moves-succeeds [] us s = refl
run_moves-succeeds (t ∷ ts) us s = run_moves-succeeds ts us (advance t s)

after_side :
    (ts : List Side) (us : List Move) (s : Processes) {t u : Processes}
    → interleave ts s ≡ t
    → run_moves us t ≡ u
    → run_moves (map succeeds ts ++ us) s ≡ u
after_side ts us s e f = run_moves-succeeds ts us s ∙ ap (run_moves us) e ∙ f

-- The sender takes the space for a chunk, `truncate` throws, and the chunk before is handed over.
lost_hand_over : List Move
lost_hand_over = map succeeds (sending ∷ sending ∷ []) ++ (truncate_fails ∷ succeeds sending ∷ [])

lost_hand_over_lem :
    (y : ℕ) (ys : List ℕ) (rest : List (List ℕ)) (m : SharedState) (r : Receiver) (us : List Move)
    {u : Processes}
    → m.space ≡ 1
    → m.source ≡ (y ∷ ys) ∷ rest
    → run_moves us
        (processes (record m { space = 0; available = m.available + 1; source = rest }) fetch r)
      ≡ u
    → run_moves (lost_hand_over ++ us) (processes m fetch r) ≡ u
unfolding lost_hand_over run_moves advance send
lost_hand_over_lem y ys rest m r us one src e = ap (run_moves us) (ground (arith, one, src)) ∙ e

-- The number of steps that fail.
abbrev pub failures : List Move → ℕ
failures [] = 0
failures (succeeds t ∷ ts) = failures ts
failures (_ ∷ ts) = suc (failures ts)

-- What waits is taken over and written, and both processes end.
to_the_end : List Side
to_the_end =
    replicate 4 receiving ++ ((receiving ∷ []) ++ (replicate 3 sending ++ (receiving ∷ [])))

failed_write : List Move
failed_write = map succeeds one_chunk ++ (lost_hand_over ++ (map succeeds to_the_end ++ []))

abbrev doubled : ℕ → List ℕ → List ℕ → Processes
doubled x xs dest =
    processes
      (record {
        space = 0;
        available = 0;
        stop = 0;
        memory = x ∷ xs;
        source = [];
        dest = dest;
        mapped = (x ∷ xs) ∷ (x ∷ xs) ∷ [];
      })
      sender_done receiver_done

-- The first chunk is in the output file.
abbrev first_arrived : ℕ → List ℕ → List (List ℕ) → SharedState
first_arrived x xs rest = ready (x ∷ xs) rest (x ∷ xs) ((x ∷ xs) ∷ [])

first_chunk :
    (x : ℕ) (xs : List ℕ) (rest : List (List ℕ))
    → interleave one_chunk (launch ((x ∷ xs) ∷ rest))
      ≡ processes (first_arrived x xs rest) fetch top
unfolding launch
first_chunk x xs rest = one_chunk_lem x xs rest [] [] []

to_the_end_lem :
    (x : ℕ) (xs : List ℕ)
    → interleave to_the_end
        (processes (record (first_arrived x xs []) { space = 0; available = 1 }) fetch top)
      ≡ doubled x xs ((x ∷ xs) ++ (x ∷ xs))
unfolding to_the_end
to_the_end_lem x xs = chain _ _ _ (take_over _ fetch refl refl) (
    chain _ _ _ (deliver_lem _ fetch (length (x ∷ xs)))
      (finish _ refl refl refl ∙ ap (λ l. doubled x xs ((x ∷ xs) ++ l)) (resize_self (x ∷ xs))))

failed_write_lem :
    (x : ℕ) (xs : List ℕ) (y : ℕ) (ys : List ℕ)
    → run_moves failed_write (launch ((x ∷ xs) ∷ (y ∷ ys) ∷ []))
      ≡ doubled x xs ((x ∷ xs) ++ (x ∷ xs))
unfolding failed_write run_moves
failed_write_lem x xs y ys =
    after_side one_chunk (lost_hand_over ++ (map succeeds to_the_end ++ []))
      (launch ((x ∷ xs) ∷ (y ∷ ys) ∷ [])) (first_chunk x xs ((y ∷ ys) ∷ []))
      (lost_hand_over_lem y ys [] (first_arrived x xs ((y ∷ ys) ∷ [])) top
        (map succeeds to_the_end ++ []) refl refl
        (after_side to_the_end []
          (processes (record (first_arrived x xs []) { space = 0; available = 1 }) fetch top)
          (to_the_end_lem x xs) refl))

-- For every file of two chunks there is an interleaving in which only the writing of the second chunk
-- fails, both processes end all the same, and the output file holds the first chunk twice.
pub failed_write_repeats :
    (x : ℕ) (xs : List ℕ) (y : ℕ) (ys : List ℕ)
    → (ts : List Move) × let s = run_moves ts (launch ((x ∷ xs) ∷ (y ∷ ys) ∷ [])) in
        (s.sender ≡ sender_done)
        × (s.receiver ≡ receiver_done)
        × (s.mem.dest ≡ (x ∷ xs) ++ (x ∷ xs))
        × (failures ts ≡ 1)
unfolding failed_write lost_hand_over one_chunk to_the_end
failed_write_repeats x xs y ys =
    let e = failed_write_lem x xs y ys in
    (
      failed_write,
      (
        ap (λ (s : Processes). s.sender) e,
        ap (λ (s : Processes). s.receiver) e,
        ap (λ (s : Processes). s.mem.dest) e,
        refl,
      ),
    )
