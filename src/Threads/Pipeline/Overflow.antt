-- ===== src/Threads/Pipeline/Overflow.antt =====
-- BufferWriter.h on a chunk for which the buffer has no room left.
use multithreading_io.Base.{
  ℕ, suc, ◌+◌, ◌-◌, ◌≤◌, ◌<◌, ◌≡◌, true, false, List, [], ◌∷◌, ◌++◌, append-nil, append_assoc,
  flatten, All, length, length-take, take, drop, take-append-drop, refl, ap, sym, subst, ◌∙◌, arith,
}
use multithreading_io.Threads.Buffer.{get_data_size, disable_writing}
use multithreading_io.Threads.Buffer.Bounds.{
  IsBounded, max_capacity, add-mod-wrapped, get_data_size_lem,
}
use multithreading_io.Threads.Buffer.Contents.{contents, length-contents}
use multithreading_io.Threads.Pipeline.{
  dropped, Shared, fetch, putting, producer_done, Consumer, top, consumer_done, start, Thread,
  reader, run, on_state,
}
use multithreading_io.Threads.Pipeline.Invariant.{NonEmpty, lost, kept, kept_dropped}
use multithreading_io.Threads.Pipeline.Calm.{CalmAfter, Loaded, CalmAfter-Loaded, system, run_chain}
use multithreading_io.Threads.Pipeline.Fill.{put_bytes, put_chunks, admit_chunk, three}
use multithreading_io.Threads.Pipeline.Loss.{start-Calm, start_lem, stop_now, abandon}
use multithreading_io.Threads.Pipeline.Read.{read_steps, run_read}
use multithreading_io.Threads.Pipeline.Deliver.{read_alone-Calm, take_turns, empty_list}
use multithreading_io.Threads.Pipeline.History.{lost-append}

-- A byte for which there is no room.
abbrev without : Shared → ℕ → Shared
without m x = record (on_state m (disable_writing m.buffer.state)) {
  log = m.log ++ (dropped x ∷ []);
}

drop_byte :
    (m : Shared) (x : ℕ) (xs : List ℕ) (c : Consumer)
    → IsBounded m.buffer
    → get_data_size m.buffer + 1 ≡ m.buffer.capacity
    → run three (system m (putting (x ∷ xs)) c) ≡ system (without m x) (putting xs) c
unfolding run
drop_byte m x xs c v h =
    ground (arith, add-mod-wrapped m.buffer.tail 1 m.buffer.capacity, get_data_size_lem v)

lost-without : (m : Shared) (x : ℕ) → lost (without m x).log ≡ lost m.log ++ (x ∷ [])
unfolding lost
lost-without m x = lost-append m.log (dropped x ∷ [])

-- The rest of a chunk, for which there is no room: the buffer stays as it is but for the flag.
pub record Dropped (gone : List ℕ) (capacity n : ℕ) (source : List (List ℕ)) (dest : List ℕ)
    (m m' : Shared) : Type 0 where
  pub loaded : Loaded gone capacity n source dest m'
  pub reading : m'.buffer.state.reading_enabled ≡ true
  pub holding : contents m'.buffer ≡ contents m.buffer
  pub taking : kept m'.log ≡ kept m.log

without-Loaded :
    {gone : List ℕ} {capacity n : ℕ} {source : List (List ℕ)} {dest : List ℕ} (m : Shared) (x : ℕ)
    → Loaded gone capacity n source dest m
    → Loaded (gone ++ (x ∷ [])) capacity n source dest (without m x)
unfolding get_data_size
without-Loaded m x v = record {
  bounded = ground (arith, v.bounded);
  same = v.same;
  holds = v.holds;
  running = v.running;
  rest = v.rest;
  out = v.out;
  missing = lost-without m x ∙ ap (λ l. l ++ (x ∷ [])) v.missing;
}

drop_bytes :
    {capacity n : ℕ} {source : List (List ℕ)} {dest : List ℕ} (gone xs : List ℕ) (m : Shared)
    (c : Consumer)
    → Loaded gone capacity n source dest m
    → n + 1 ≡ capacity
    → m.buffer.state.reading_enabled ≡ true
    → (ts : List Thread) × (m' : Shared) × (run ts (system m (putting xs) c) ≡ system m' fetch c)
      × Dropped (gone ++ xs) capacity n source dest m m'
unfolding run get_data_size
drop_bytes {capacity} {n} {source} {dest} gone [] m c v e on = (
  reader ∷ [],
  m,
  ground arith,
  record {
    loaded = subst (λ l. Loaded l capacity n source dest m) (sym (append-nil gone)) v;
    reading = on;
    holding = refl;
    taking = refl;
  },
)
drop_bytes {capacity} {n} {source} {dest} gone (x ∷ xs) m c v e on =
    let (ts, m', r, w) =
      drop_bytes (gone ++ (x ∷ [])) xs (without m x) c (without-Loaded m x v) e on in
    (
      three ++ ts,
      m',
      run_chain three ts (system m (putting (x ∷ xs)) c)
          (drop_byte m x xs c v.bounded (omega (arith, v.holds, v.same))) r,
      record {
        loaded =
            subst (λ l. Loaded l capacity n source dest m') (append_assoc gone (x ∷ []) xs)
              w.loaded;
        reading = w.reading;
        holding = w.holding;
        taking = w.taking ∙ kept_dropped x m.log;
      },
    )

-- Up to the last free cell.
pub fill_up :
    (capacity : ℕ) (before after : List (List ℕ)) (y : ℕ) (ys : List ℕ)
    → capacity ≤ max_capacity
    → All NonEmpty before
    → length (flatten before) < capacity
    → capacity ≤ length (flatten before) + suc (length ys)
    → let r = capacity - 1 - length (flatten before) in
      (ts : List Thread) × (m : Shared) × (run ts (start capacity (before ++ (y ∷ ys) ∷ after))
        ≡ system m (putting (drop r (y ∷ ys))) top)
      × CalmAfter [] capacity (capacity - 1) after [] m
fill_up capacity before after y ys small ne h over =
    let chunks = before ++ (y ∷ ys) ∷ after in
    let m₀ = (start capacity chunks).mem in
    let k = length (flatten before) in
    let r = capacity - 1 - k in
    let chunk = y ∷ ys in
    let (ts, m₁, e, v) =
      put_chunks before (chunk ∷ after) m₀ 0 k top (start-Calm capacity chunks (omega arith) small)
        ne (omega arith) h in
    let (us, m₂, q, w) =
      put_bytes (take r chunk) (drop r chunk) (record m₁ { source = after }) k (capacity - 1) top
        (record {
          bounded = v.bounded;
          same = v.same;
          holds = v.holds;
          running = v.running;
          writing = v.writing;
          rest = refl;
          out = v.out;
          reading = v.reading;
          missing = v.missing;
        })
        (omega (arith, length-take r chunk)) (omega arith) in
    (
      ts ++ (three ++ us),
      m₂,
      run_chain ts (three ++ us) (start capacity chunks)
          (ap (run ts) (start_lem capacity chunks) ∙ e)
          (run_chain three us (system m₁ fetch top) (admit_chunk y ys m₁ top v) (
            ap (λ l. run us (system (record m₁ { source = after }) (putting l) top))
              (sym (take-append-drop r chunk))
            ∙ q)),
      w,
    )

-- From a full buffer: the rest of the chunk is dropped, the writing thread empties the buffer, and the
-- other chunks come over in turn.
pub leave_hole :
    (capacity n : ℕ) (gone : List ℕ) (after : List (List ℕ)) (m : Shared)
    → CalmAfter [] capacity n after [] m
    → n + 1 ≡ capacity
    → 0 < n
    → All NonEmpty after
    → All (λ c. length c < capacity) after
    → (ts us : List Thread) × (m₁ m₂ : Shared) × (run ts (system m (putting gone) top)
        ≡ system m₁ fetch top)
      × Dropped gone capacity n after [] m m₁
      × (run us (system m₁ fetch top) ≡ system m₂ producer_done consumer_done)
      × (lost m₂.log ≡ gone)
      × (m₂.source ≡ [])
      × (contents m₂.buffer ≡ [])
leave_hole capacity n gone after m v e some ne fit =
    let (ts, m₁, q, w) = drop_bytes [] gone m top (CalmAfter-Loaded v) e (v.reading some) in
    let k = get_data_size m₁.buffer in
    let (us, m₂, end, p, u) =
      take_turns after ([] ++ contents m₁.buffer) _ (read_alone-Calm m₁ w.loaded) ne fit in
    let done = abandon m₂ u in
    (
      ts,
      read_steps k ++ (us ++ stop_now),
      m₁,
      record m₂ { running = false },
      q,
      w,
      run_chain (read_steps k) (us ++ stop_now) (system m₁ fetch top)
          (run_read m₁ fetch w.loaded.bounded w.loaded.running w.reading)
          (run_chain us stop_now _ p done),
      u.missing,
      u.rest,
      empty_list (contents m₂.buffer) (length-contents m₂.buffer ∙ u.holds),
    )
