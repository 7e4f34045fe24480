-- ===== src/Threads/Pipeline/Deliver.antt =====
-- SyncWriteDataAccess.h and SyncReadDataAccess.h when the two threads take turns, chunk by chunk.
use multithreading_io.Base.{
  ℕ, suc, ◌≤◌, ◌<◌, ◌≡◌, false, List, [], ◌∷◌, ◌++◌, append-nil, flatten, All, length, refl, ap,
  sym, ◌∙◌, arith,
}
use multithreading_io.Threads.Buffer.{CircularBuffer, get_data_size, set_head}
use multithreading_io.Threads.Buffer.Bounds.{
  max_capacity, set_head_lem, set_head-IsBounded, get_data_size-set_head,
}
use multithreading_io.Threads.Buffer.Contents.{contents, length-contents}
use multithreading_io.Threads.Pipeline.{
  Shared, fetch, stop_waiting, producer_done, top, consumer_done, System, start, Thread, reader,
  run,
}
use multithreading_io.Threads.Pipeline.Invariant.{NonEmpty, lost, in_hand}
use multithreading_io.Threads.Pipeline.Calm.{CalmAfter, Loaded, CalmAfter-Loaded, system, run_chain}
use multithreading_io.Threads.Pipeline.Fill.{put_chunk, admit_chunk, three}
use multithreading_io.Threads.Pipeline.Loss.{start-Calm, stop_now, abandon, start_lem}
use multithreading_io.Threads.Pipeline.Safety.{transfer_complete}
use multithreading_io.Threads.Pipeline.Read.{read_steps, run_read}

-- The buffer is empty again.
pub read_alone-Calm :
    {gone : List ℕ} {capacity n : ℕ} {source : List (List ℕ)} {dest : List ℕ} (m : Shared)
    → Loaded gone capacity n source dest m
    → CalmAfter gone capacity 0 source (dest ++ contents m.buffer) (record m {
      buffer = set_head m.buffer (get_data_size m.buffer);
      dest = m.dest ++ contents m.buffer;
    })
read_alone-Calm m v = record {
  bounded = set_head-IsBounded v.bounded (get_data_size m.buffer);
  same =
      ap (λ (b : CircularBuffer). b.capacity)
        (set_head_lem v.bounded (get_data_size m.buffer) (omega arith))
      ∙ v.same;
  holds = omega (arith, get_data_size-set_head v.bounded (get_data_size m.buffer));
  running = v.running;
  writing =
      ap (λ (b : CircularBuffer). b.state.writing_enabled)
        (set_head_lem v.bounded (get_data_size m.buffer) (omega arith));
  rest = v.rest;
  out = ap (λ l. l ++ contents m.buffer) v.out;
  reading = λ h. absurd (omega arith);
  missing = v.missing;
}

-- Chunk by chunk, each read by one thread and written by the other.
pub take_turns :
    {gone : List ℕ} {capacity : ℕ} (chunks : List (List ℕ)) (dest : List ℕ) (m : Shared)
    → CalmAfter gone capacity 0 chunks dest m
    → All NonEmpty chunks
    → All (λ c. length c < capacity) chunks
    → (ts : List Thread) × (m' : Shared) × (end : List ℕ) × (run ts (system m fetch top)
        ≡ system m' stop_waiting top)
      × CalmAfter gone capacity 0 [] end m'
unfolding run
take_turns [] dest m v ne fit = (reader ∷ [], m, dest, ground arith, v)
take_turns ([] ∷ chunks) dest m v ne fit = absurd (ne.0 refl)
take_turns ((x ∷ xs) ∷ chunks) dest m v ne fit =
    let (us, m₁, r, w) =
      put_chunk (x ∷ xs) (record m { source = chunks }) 0 (suc (length xs)) top
        (record {
          bounded = v.bounded;
          same = v.same;
          holds = v.holds;
          running = v.running;
          writing = v.writing;
          rest = refl;
          out = v.out;
          reading = v.reading;
          missing = v.missing;
        })
        (omega arith) fit.0 in
    let ts = read_steps (get_data_size m₁.buffer) in
    let (vs, m₂, end, rest, z) =
      take_turns chunks (dest ++ contents m₁.buffer) _ (read_alone-Calm m₁ (CalmAfter-Loaded w))
        ne.1 fit.1 in
    (
      three ++ (us ++ (ts ++ vs)),
      m₂,
      end,
      run_chain three (us ++ (ts ++ vs)) (system m fetch top) (admit_chunk x xs m top v) (
          run_chain us (ts ++ vs) _ r (
            run_chain ts vs _ (run_read m₁ fetch w.bounded w.running (w.reading (omega arith)))
              rest)),
      z,
    )

pub empty_list : (xs : List ℕ) → length xs ≡ 0 → xs ≡ []
empty_list [] h = refl
empty_list (x ∷ xs) h = absurd (omega arith)

-- For every file of non-empty chunks, none of which fills the buffer, there is an interleaving after
-- which both threads have finished and the output file is the input file.
pub transfer_possible :
    (capacity : ℕ) (chunks : List (List ℕ))
    → 0 < capacity
    → capacity ≤ max_capacity
    → All NonEmpty chunks
    → All (λ c. length c < capacity) chunks
    → (ts : List Thread) × let s = run ts (start capacity chunks) in
        (s.producer ≡ producer_done) × (s.consumer ≡ consumer_done) × (s.mem.dest ≡ flatten chunks)
transfer_possible capacity chunks positive small ne fit =
    let (ts, m, end, r, v) =
      take_turns chunks [] (start capacity chunks).mem (start-Calm capacity chunks positive small)
        ne fit in
    let e : run (ts ++ stop_now) (start capacity chunks)
        ≡ system (record m { running = false }) producer_done consumer_done =
      run_chain ts stop_now _ (ap (run ts) (start_lem capacity chunks) ∙ r) (abandon m v) in
    let none_left : contents m.buffer ≡ [] =
      empty_list (contents m.buffer) (length-contents m.buffer ∙ v.holds) in
    let all_there =
      transfer_complete capacity chunks positive small ne (ts ++ stop_now)
        (ap (λ (s : System). lost s.mem.log) e ∙ v.missing) (ap (λ (s : System). s.producer) e) in
    (
      ts ++ stop_now,
      (
        ap (λ (s : System). s.producer) e,
        ap (λ (s : System). s.consumer) e,
        ap (λ (s : System). s.mem.dest) e
            ∙ sym (append-nil m.dest)
            ∙ ap (◌++◌ m.dest) (sym none_left)
            ∙ sym
                (ap (λ (s : System). s.mem.dest ++ (in_hand s.consumer ++ contents s.mem.buffer)) e)
            ∙ all_there,
      ),
    )
