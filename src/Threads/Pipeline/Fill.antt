-- ===== src/Threads/Pipeline/Fill.antt =====
-- SyncWriteDataAccess.h: the reading thread stepping alone while there is room.
use multithreading_io.Base.{
  ℕ, suc, ◌+◌, ◌<◌, ◌≡◌, List, [], ◌∷◌, ◌++◌, flatten, All, length, append-nil, refl, ap, sym,
  subst, ◌∙◌, arith, set, length-append,
}
use native.Mathlib.Nat.{add-zero}
use multithreading_io.Threads.Buffer.{get_data_size, enable_reading}
use multithreading_io.Threads.Buffer.Bounds.{IsBounded, wrapped, add-mod-wrapped, get_data_size_lem}
use multithreading_io.Threads.Buffer.Stores.{
  store_cell-IsBounded, store_tail-IsBounded, store_tail-size,
}
use multithreading_io.Threads.Pipeline.{
  taken, Shared, fetch, putting, stop_waiting, Consumer, Thread, reader, run,
}
use multithreading_io.Threads.Pipeline.Invariant.{NonEmpty, lost_taken}
use multithreading_io.Threads.Pipeline.Calm.{CalmAfter, system, run-append, run_chain}

-- The next byte is in the buffer.
abbrev pub filled : Shared → ℕ → Shared
filled m x = record m {
  buffer = record m.buffer {
    cells = set m.buffer.cells m.buffer.tail x;
    tail = wrapped m.buffer.tail 1 m.buffer.capacity;
    state = enable_reading m.buffer.state;
  };
  log = m.log ++ (taken x ∷ []);
}

abbrev pub five : List Thread
five = reader ∷ reader ∷ reader ∷ reader ∷ reader ∷ []

pub put_byte :
    (m : Shared) (x : ℕ) (xs : List ℕ) (c : Consumer)
    → IsBounded m.buffer
    → get_data_size m.buffer + 1 < m.buffer.capacity
    → run five (record { mem = m; producer = putting (x ∷ xs); consumer = c })
      ≡ record { mem = filled m x; producer = putting xs; consumer = c }
unfolding run
put_byte m x xs c v h =
    ground (arith, add-mod-wrapped m.buffer.tail 1 m.buffer.capacity, get_data_size_lem v)

module _ {gone : List ℕ} {capacity : ℕ} {source : List (List ℕ)} {dest : List ℕ} where
  filled-Calm :
      {m : Shared} {n : ℕ} (x : ℕ)
      → CalmAfter gone capacity n source dest m
      → n + 1 < capacity
      → CalmAfter gone capacity (suc n) source dest (filled m x)
  unfolding enable_reading get_data_size
  filled-Calm {m} x v h = record {
    bounded = ground (arith, store_tail-IsBounded (store_cell-IsBounded v.bounded x));
    same = v.same;
    holds =
        store_tail-size (store_cell-IsBounded v.bounded x) (omega (arith, v.holds, v.same))
        ∙ ap suc v.holds;
    running = v.running;
    writing = v.writing;
    rest = v.rest;
    out = v.out;
    reading = λ _. refl;
    missing = lost_taken x m.log ∙ v.missing;
  }

  -- The bytes of `xs` go in.
  pub put_bytes :
      (xs ys : List ℕ) (m : Shared) (n k : ℕ) (c : Consumer)
      → CalmAfter gone capacity n source dest m
      → k ≡ n + length xs
      → k < capacity
      → (ts : List Thread) × (m' : Shared) × (run ts (system m (putting (xs ++ ys)) c)
          ≡ system m' (putting ys) c)
        × CalmAfter gone capacity k source dest m'
  unfolding run
  put_bytes [] ys m n k c v e h = ([], m, refl, rw (e, add-zero) v)
  put_bytes (x ∷ xs) ys m n k c v e h =
      let (ts, m', r, v') =
        put_bytes xs ys (filled m x) (suc n) k c (filled-Calm x v (omega arith)) (omega arith) h in
      (
        five ++ ts,
        m',
        run-append five ts (system m (putting (x ∷ (xs ++ ys))) c)
            ∙ ap (run ts) (put_byte m x (xs ++ ys) c v.bounded (omega (arith, v.holds, v.same)))
            ∙ r,
        v',
      )

  -- A whole chunk goes in.
  pub put_chunk :
      (xs : List ℕ) (m : Shared) (n k : ℕ) (c : Consumer)
      → CalmAfter gone capacity n source dest m
      → k ≡ n + length xs
      → k < capacity
      → (ts : List Thread) × (m' : Shared) × (run ts (system m (putting xs) c) ≡ system m' fetch c)
        × CalmAfter gone capacity k source dest m'
  unfolding run
  put_chunk xs m n k c v e h =
      let (ts, m', r, v') = put_bytes xs [] m n k c v e h in
      (
        ts ++ (reader ∷ []),
        m',
        run-append ts (reader ∷ []) (system m (putting xs) c)
            ∙ ap (λ l. run (reader ∷ []) (run ts (system m (putting l) c))) (sym (append-nil xs))
            ∙ ap (run (reader ∷ [])) r,
        v',
      )

abbrev pub three : List Thread
three = reader ∷ reader ∷ reader ∷ []

-- The next chunk is fetched and admitted.
pub admit_chunk :
    {gone : List ℕ} {capacity n : ℕ} {dest : List ℕ} {chunks : List (List ℕ)} (x : ℕ) (xs : List ℕ)
    (m : Shared) (c : Consumer)
    → CalmAfter gone capacity n ((x ∷ xs) ∷ chunks) dest m
    → run three (system m fetch c) ≡ system (record m { source = chunks }) (putting (x ∷ xs)) c
unfolding run
admit_chunk x xs m c v = ground arith

-- The first chunks of a file are read, if they fit, whatever the writing thread is about to do.
pub put_chunks :
    {gone : List ℕ} {capacity : ℕ} {dest : List ℕ} (chunks later : List (List ℕ)) (m : Shared)
    (n k : ℕ) (c : Consumer)
    → CalmAfter gone capacity n (chunks ++ later) dest m
    → All NonEmpty chunks
    → k ≡ n + length (flatten chunks)
    → k < capacity
    → (ts : List Thread) × (m' : Shared) × (run ts (system m fetch c) ≡ system m' fetch c)
      × CalmAfter gone capacity k later dest m'
unfolding run
put_chunks [] later m n k c v ne e h = ([], m, refl, rw (e, add-zero) v)
put_chunks ([] ∷ chunks) later m n k c v ne e h = absurd (ne.0 refl)
put_chunks ((x ∷ xs) ∷ chunks) later m n k c v ne e h =
    let fit : k ≡ n + suc (length xs) + length (flatten chunks) =
      omega (arith, length-append xs (flatten chunks), e) in
    let (us, m₁, r, w) =
      put_chunk (x ∷ xs) (record m { source = chunks ++ later }) n (n + suc (length xs)) c
        (record {
          bounded = v.bounded;
          same = v.same;
          holds = v.holds;
          running = v.running;
          writing = v.writing;
          rest = refl;
          out = v.out;
          reading = v.reading;
          missing = v.missing;
        })
        refl (omega arith) in
    let (ts, m₂, q, u) = put_chunks chunks later m₁ (n + suc (length xs)) k c w ne.1 fit h in
    (
      three ++ (us ++ ts),
      m₂,
      run-append three (us ++ ts) (system m fetch c)
          ∙ ap (run (us ++ ts)) (admit_chunk x xs m c v)
          ∙ run-append us ts (system (record m { source = chunks ++ later }) (putting (x ∷ xs)) c)
          ∙ ap (run ts) r
          ∙ q,
      u,
    )

read_end :
    {gone : List ℕ} {capacity n : ℕ} {dest : List ℕ} (m : Shared) (c : Consumer)
    → CalmAfter gone capacity n [] dest m
    → run (reader ∷ []) (system m fetch c) ≡ system m stop_waiting c
unfolding run
read_end m c v = ground arith

-- A file that fits is read to its end.
pub put_file :
    {gone : List ℕ} {capacity : ℕ} {dest : List ℕ} (chunks : List (List ℕ)) (m : Shared) (n k : ℕ)
    (c : Consumer)
    → CalmAfter gone capacity n chunks dest m
    → All NonEmpty chunks
    → k ≡ n + length (flatten chunks)
    → k < capacity
    → (ts : List Thread) × (m' : Shared) × (run ts (system m fetch c) ≡ system m' stop_waiting c)
      × CalmAfter gone capacity k [] dest m'
put_file {gone} {capacity} {dest} chunks m n k c v ne e h =
    let (ts, m', r, u) =
      put_chunks chunks [] m n k c
        (subst (λ l. CalmAfter gone capacity n l dest m) (sym (append-nil chunks)) v) ne e h in
    (ts ++ (reader ∷ []), m', run_chain ts (reader ∷ []) _ r (read_end m' c u), u)
