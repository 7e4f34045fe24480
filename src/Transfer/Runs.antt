-- ===== src/Transfer/Runs.antt =====
-- FileDataTransferTask.h and BufferTransferTask.h: what reaches the writer, and when the other side
-- is told to stop.
use multithreading_io.Base.{
  ℕ, zero, suc, ◌+◌, ◌<◌, ◌≡◌, ◌≢◌, refl, ap, ◌∙◌, Option, none, some, List, [], ◌∷◌, ◌++◌, map,
  append-nil, append_assoc, All, length, flatten, Exception, runtime_error, arith,
}
use multithreading_io.Transfer.{
  Outcome, done, thrown, M, ◌>>=◌, resume, pump, run_data_transfer, drain, run_buffer_transfer,
}
use multithreading_io.Transfer.Script.{
  Input, chunk, fails, Script, script_read, script_write, script_stop, write_access, read_access,
}

-- How the reading of a file ends: by an empty span, by an exception of the reader, or by one of the
-- writer on some chunk.
pub data Ending : Type 0 where
  end_of_file : Ending
  read_fails : Exception → Ending
  write_fails : ℕ → List ℕ → Exception → Ending

abbrev pub last_input : Ending → Input
last_input end_of_file = chunk []
last_input (read_fails e) = fails e
last_input (write_fails x xs e) = chunk (x ∷ xs)

-- The writer takes the chunks before, and throws as the ending says.
abbrev pub Refuses : (List ℕ → Option Exception) → Ending → Type 0
Refuses refuses (write_fails x xs e) = refuses (x ∷ xs) ≡ some e
Refuses refuses _ = Unit

-- Only a `runtime_error` is caught.
abbrev pub caught : Exception → Outcome (Unit {0})
caught runtime_error = done tt
caught e = thrown e

abbrev pub stops_for : Exception → ℕ
stops_for runtime_error = 1
stops_for _ = 0

abbrev pub outcome_of : Ending → Outcome (Unit {0})
outcome_of end_of_file = done tt
outcome_of (read_fails e) = caught e
outcome_of (write_fails x xs e) = caught e

abbrev pub stops_of : Ending → ℕ
stops_of end_of_file = 1
stops_of (read_fails e) = stops_for e
stops_of (write_fails x xs e) = stops_for e

abbrev pub Accepted : (List ℕ → Option Exception) → List ℕ → Type 0
Accepted refuses c = (c ≢ []) × (refuses c ≡ none)

-- What the loop returns before any exception is caught.
abbrev raw_outcome : Ending → Outcome (Unit {0})
raw_outcome end_of_file = done tt
raw_outcome (read_fails e) = thrown e
raw_outcome (write_fails x xs e) = thrown e

abbrev raw_stops : Ending → ℕ
raw_stops end_of_file = 1
raw_stops _ = 0

module _ (refuses : List ℕ → Option Exception) (ending : Ending) (last : Refuses refuses ending)
    (rest : List Input) where
  abbrev script : List (List ℕ) → List (List ℕ) → ℕ → Script
  script cs sent stops = record {
    inputs = map chunk cs ++ last_input ending ∷ rest;
    sent = sent;
    stops = stops;
  }

  after : List (List ℕ) → ℕ → Script
  after sent stops = record { inputs = rest; sent = sent; stops = stops }

  read_pump : ℕ → M Script (Unit {0})
  read_pump fuel = script_read >>= pump fuel (write_access refuses) script_read

  -- One round of the loop.
  read_pump_cons :
      (x : ℕ) (xs : List ℕ) (cs : List (List ℕ)) (fuel : ℕ) (sent : List (List ℕ)) (stops : ℕ)
      → refuses (x ∷ xs) ≡ none
      → read_pump (suc fuel) (script ((x ∷ xs) ∷ cs) sent stops)
        ≡ read_pump fuel (script cs (sent ++ ((x ∷ xs) ∷ [])) stops)
  unfolding read_pump pump script_read script_write
  read_pump_cons x xs cs fuel sent stops ok = ground (arith, ok)

  read_pump_last :
      (e : Ending) (fuel : ℕ) (sent : List (List ℕ)) (stops : ℕ)
      → Refuses refuses e
      → read_pump (suc fuel) (record { inputs = last_input e ∷ rest; sent = sent; stops = stops })
        ≡ (raw_outcome e, after (sent ++ []) (stops + raw_stops e))
  unfolding read_pump pump script_read script_write script_stop after
  read_pump_last end_of_file fuel sent stops h = ground (arith, append-nil sent)
  read_pump_last (read_fails e) fuel sent stops h = ground (arith, append-nil sent)
  read_pump_last (write_fails x xs e) fuel sent stops h = ground (arith, append-nil sent, h)

  read_pump_lem :
      (cs : List (List ℕ)) (fuel : ℕ) (sent : List (List ℕ)) (stops : ℕ)
      → All (Accepted refuses) cs
      → length cs < fuel
      → read_pump fuel (script cs sent stops)
        ≡ (raw_outcome ending, after (sent ++ cs) (stops + raw_stops ending))
  read_pump_lem cs zero sent stops ok lt = absurd (omega arith)
  read_pump_lem [] (suc fuel) sent stops ok lt = read_pump_last ending fuel sent stops last
  read_pump_lem ([] ∷ cs) (suc fuel) sent stops ok lt = absurd (ok.0.0 refl)
  read_pump_lem ((x ∷ xs) ∷ cs) (suc fuel) sent stops ok lt =
      read_pump_cons x xs cs fuel sent stops ok.0.1
      ∙ read_pump_lem cs fuel (sent ++ ((x ∷ xs) ∷ [])) stops ok.1 (omega arith)
      ∙ ap (λ l. (raw_outcome ending, after l (stops + raw_stops ending)))
          (append_assoc sent ((x ∷ xs) ∷ []) cs)

  resume_last :
      (e : Ending) (sent : List (List ℕ)) (stops : ℕ)
      → resume script_stop (raw_outcome e, after sent (stops + raw_stops e))
        ≡ (outcome_of e, after sent (stops + stops_of e))
  unfolding script_stop after
  resume_last end_of_file sent stops = refl
  resume_last (read_fails runtime_error) sent stops = ground arith
  resume_last (read_fails e) sent stops = refl
  resume_last (write_fails x xs runtime_error) sent stops = ground arith
  resume_last (write_fails x xs e) sent stops = refl

  -- However the reading ends, `FileDataTransferTask::Run` comes to its end; the writer has got every
  -- chunk that was read before, each once and in order, and nothing behind the end is read. At the
  -- end of the file the writer's side is told to stop once. A `runtime_error` of the reader or of the
  -- writer is swallowed, and stops the writer's side once too. Any other exception leaves the task,
  -- and the writer's side is not told to stop.
  pub run_data_transfer_lem :
      (cs : List (List ℕ)) (fuel : ℕ) (sent : List (List ℕ)) (stops : ℕ)
      → All (Accepted refuses) cs
      → length cs < fuel
      → run_data_transfer fuel
          (write_access refuses)
          (some script_read)
          (record { inputs = map chunk cs ++ last_input ending ∷ rest; sent = sent; stops = stops })
        ≡ (
          outcome_of ending,
          record { inputs = rest; sent = sent ++ cs; stops = stops + stops_of ending },
        )
  unfolding run_data_transfer read_pump after
  run_data_transfer_lem cs fuel sent stops ok lt =
      ap (resume script_stop) (read_pump_lem cs fuel sent stops ok lt)
      ∙ resume_last ending (sent ++ cs) stops

-- The bytes that go through.
abbrev drain_input : List (List ℕ) → List (List ℕ) → Script
drain_input cs sent = record { inputs = map chunk cs; sent = sent; stops = 0 }

-- `BufferTransferTask::Run` with a reader that runs as long as it has spans to give and a writer that
-- takes all of them: the writer gets the bytes of all spans in order, empty spans are passed over,
-- and the task ends without a stop.
pub run_buffer_transfer_lem :
    (cs : List (List ℕ)) (fuel : ℕ) (sent : List (List ℕ))
    → length cs < fuel
    → (out : List (List ℕ)) × (run_buffer_transfer fuel read_access
          (some (script_write (λ _. none)))
          (drain_input cs sent)
        ≡ (done tt, record { inputs = []; sent = sent ++ out; stops = 0 }))
      × (flatten out ≡ flatten cs)
      × All (λ c. c ≢ []) out
unfolding run_buffer_transfer drain script_read script_write
run_buffer_transfer_lem cs zero sent lt = absurd (omega arith)
run_buffer_transfer_lem [] (suc fuel) sent lt = ([], ground (arith, append-nil sent), refl, tt)
run_buffer_transfer_lem ([] ∷ cs) (suc fuel) sent lt =
    let (out, e, f, ne) = run_buffer_transfer_lem cs fuel sent (omega arith) in (out, e, f, ne)
run_buffer_transfer_lem ((x ∷ xs) ∷ cs) (suc fuel) sent lt =
    let (out, e, f, ne) = run_buffer_transfer_lem cs fuel (sent ++ ((x ∷ xs) ∷ [])) (omega arith) in
    (
      (x ∷ xs) ∷ out,
      e
          ∙ ap (λ l. (done tt, record { inputs = []; sent = l; stops = 0 }))
              (append_assoc sent ((x ∷ xs) ∷ []) out),
      ap (λ l. x ∷ (xs ++ l)) f,
      ((λ h. cc), ne),
    )
