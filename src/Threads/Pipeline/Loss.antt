-- ===== src/Threads/Pipeline/Loss.antt =====
-- `Stop()` of SyncWriteDataAccess.h while there are bytes in the buffer, and the two flags when both
-- are off.
use multithreading_io.Base.{
  ℕ, ◌≤◌, ◌<◌, ◌≡◌, true, false, List, [], ◌∷◌, ◌++◌, flatten, All, length, refl, ap, ◌∙◌, arith,
}
use multithreading_io.Threads.Buffer.{get_data_size, create, initial_sync}
use multithreading_io.Threads.Buffer.Bounds.{max_capacity, create-IsBounded}
use multithreading_io.Threads.Pipeline.{
  Shared, Producer, fetch, await_writing, poll_writing, stop_waiting, producer_done, Consumer, top,
  await_reading, poll_reading, consumer_done, System, start, Thread, reader, writer, run, produce,
  consume,
}
use multithreading_io.Threads.Pipeline.Invariant.{NonEmpty, lost}
use multithreading_io.Threads.Pipeline.Calm.{CalmAfter, Calm, system, run-append}
use multithreading_io.Threads.Pipeline.Fill.{put_file}

pub start-Calm :
    (capacity : ℕ) (chunks : List (List ℕ))
    → 0 < capacity
    → capacity ≤ max_capacity
    → Calm capacity 0 chunks [] (start capacity chunks).mem
unfolding start create get_data_size lost
start-Calm capacity chunks h k = record {
  bounded = create-IsBounded capacity initial_sync h k;
  same = refl;
  holds = refl;
  running = refl;
  writing = refl;
  rest = refl;
  out = refl;
  reading = λ h. absurd (omega arith);
  missing = refl;
}

pub stop_now : List Thread
stop_now = reader ∷ reader ∷ writer ∷ []

pub abandon :
    {gone : List ℕ} {capacity n : ℕ} {dest : List ℕ} (m : Shared)
    → CalmAfter gone capacity n [] dest m
    → run stop_now (system m stop_waiting top)
      ≡ system (record m { running = false }) producer_done consumer_done
unfolding run stop_now
abandon m v = ground arith

pub start_lem :
    (capacity : ℕ) (chunks : List (List ℕ))
    → start capacity chunks ≡ system (start capacity chunks).mem fetch top
unfolding start
start_lem capacity chunks = refl

-- For every input file that fits into the buffer there is an interleaving after which both threads
-- have finished and nothing has been written to the output file.
pub premature_stop :
    (capacity : ℕ) (chunks : List (List ℕ))
    → capacity ≤ max_capacity
    → All NonEmpty chunks
    → length (flatten chunks) < capacity
    → (ts : List Thread) × let s = run ts (start capacity chunks) in
        (s.producer ≡ producer_done) × (s.consumer ≡ consumer_done) × (s.mem.dest ≡ [])
premature_stop capacity chunks small ne h =
    let m₀ = (start capacity chunks).mem in
    let k = length (flatten chunks) in
    let (ts, m, r, v) =
      put_file chunks m₀ 0 k top (start-Calm capacity chunks (omega arith) small) ne (omega arith)
        h in
    let e : run (ts ++ stop_now) (start capacity chunks)
        ≡ system (record m { running = false }) producer_done consumer_done =
      run-append ts stop_now (start capacity chunks)
      ∙ ap (λ s. run stop_now (run ts s)) (start_lem capacity chunks)
      ∙ ap (run stop_now) r
      ∙ abandon m v in
    (
      ts ++ stop_now,
      (
        ap (λ (s : System). s.producer) e,
        ap (λ (s : System). s.consumer) e,
        ap (λ (s : System). s.mem.dest) e ∙ v.out,
      ),
    )

abbrev pub Waiting : Producer → Type 0
Waiting (await_writing _) = Unit
Waiting (poll_writing _) = Unit
Waiting stop_waiting = Unit
Waiting _ = ⊥

abbrev pub Listening : Consumer → Type 0
Listening await_reading = Unit
Listening poll_reading = Unit
Listening _ = ⊥

-- Both threads wait for a flag that only the other one switches on.
pub record Stuck (s : System) : Type 0 where
  pub running : s.mem.running ≡ true
  pub writing : s.mem.buffer.state.writing_enabled ≡ false
  pub reading : s.mem.buffer.state.reading_enabled ≡ false
  pub producer : Waiting s.producer
  pub consumer : Listening s.consumer

produce-Stuck :
    (p : Producer) {m : Shared} {c : Consumer}
    → Stuck (system m p c)
    → let (p', m') = produce p m in Stuck (system m' p' c)
unfolding produce
produce-Stuck (await_writing _) v = ground arith
produce-Stuck (poll_writing _) v = ground arith
produce-Stuck stop_waiting v = ground arith
produce-Stuck _ v = absurd v.producer

consume-Stuck :
    (c : Consumer) {m : Shared} {p : Producer}
    → Stuck (system m p c)
    → let (c', m') = consume c m in Stuck (system m' p c')
unfolding consume
consume-Stuck await_reading v = ground arith
consume-Stuck poll_reading v = ground arith
consume-Stuck _ v = absurd v.consumer

-- With both flags off and both threads waiting, no interleaving gets either of them further: the
-- transfer hangs for ever.
pub run-Stuck : (ts : List Thread) {s : System} → Stuck s → Stuck (run ts s)
unfolding run
run-Stuck [] v = v
run-Stuck (reader ∷ ts) {s} v = run-Stuck ts (produce-Stuck s.producer v)
run-Stuck (writer ∷ ts) {s} v = run-Stuck ts (consume-Stuck s.consumer v)
