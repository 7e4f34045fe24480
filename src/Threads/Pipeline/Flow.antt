-- ===== src/Threads/Pipeline/Flow.antt =====
-- SyncWriteDataAccess.h and BufferWriter.h while the file fits into the buffer: how far the reading
-- thread is from its end.
use multithreading_io.Base.{
  ℕ, suc, ◌+◌, ◌-◌, ◌*◌, ◌≤◌, ◌<◌, ◌≡◌, Bool, true, false, List, [], ◌∷◌, ◌++◌, flatten, length,
  length-append, refl, ap, arith,
}
use multithreading_io.Threads.Buffer.{get_data_size}
use multithreading_io.Threads.Buffer.Bounds.{add-mod-wrapped, get_data_size_lem}
use multithreading_io.Threads.Buffer.Contents.{contents, length-contents}
use multithreading_io.Threads.Pipeline.{
  put_fault, Offer, taken, dropped, Shared, Producer, fetch, await_writing, poll_writing,
  check_writing, putting, put_tail, put_disable, put_cell, put_store, put_enable, stop_waiting,
  stop_store, producer_done, Consumer, copying, System, Thread, reader, writer, step, run, produce,
  consume, next_chunk,
}
use multithreading_io.Threads.Pipeline.Invariant.{
  Inv, offered, kept, lost, lost_taken, in_hand, todo,
}
use multithreading_io.Threads.Pipeline.Produce.{produce-Inv}
use multithreading_io.Threads.Pipeline.Consume.{consume-Inv}

-- How often a thread steps in an interleaving.
unfoldable pub turns : Thread → List Thread → ℕ
turns reader [] = 0
turns reader (reader ∷ ts) = suc (turns reader ts)
turns reader (writer ∷ ts) = turns reader ts
turns writer [] = 0
turns writer (writer ∷ ts) = suc (turns writer ts)
turns writer (reader ∷ ts) = turns writer ts

-- The steps that the reading thread needs for the rest of a file, if it never waits: five for each
-- byte and four for each chunk, and three for the end.
abbrev pub file_steps : List (List ℕ) → ℕ
file_steps [] = 3
file_steps (c ∷ chunks) = 5 * length c + 4 + file_steps chunks

abbrev pub reader_left : ℕ → Producer → ℕ
reader_left rest fetch = rest
reader_left rest (await_writing c) = 5 * length c + 3 + rest
reader_left rest (poll_writing c) = 5 * length c + 4 + rest
reader_left rest (check_writing c) = 5 * length c + 2 + rest
reader_left rest (putting xs) = 5 * length xs + 1 + rest
reader_left rest (put_tail x xs _) = 5 * length xs + 5 + rest
reader_left rest (put_disable x xs) = 5 * length xs + 4 + rest
reader_left rest (put_cell x xs _ _) = 5 * length xs + 4 + rest
reader_left rest (put_store x xs _) = 5 * length xs + 3 + rest
reader_left rest (put_enable xs) = 5 * length xs + 2 + rest
reader_left rest stop_waiting = 2
reader_left rest stop_store = 1
reader_left rest producer_done = 0
reader_left rest put_fault = 1

abbrev pub keeps_up : Producer → Bool
keeps_up (put_disable _ _) = false
keeps_up _ = true

-- Writing has never been disabled, and is not going to be.
pub record Flowing (capacity : ℕ) (total : List ℕ) (m : Shared) (p : Producer) (c : Consumer)
    : Type 0 where
  pub inv : Inv total m p c
  pub same : m.buffer.capacity ≡ capacity
  pub fits : length total < capacity
  pub writing : m.buffer.state.writing_enabled ≡ true
  pub open_end : keeps_up p ≡ true
  pub nothing : lost m.log ≡ []

length-kept-le : (log : List Offer) → length (kept log) ≤ length (offered log)
unfolding kept offered
length-kept-le [] = omega arith
length-kept-le (taken x ∷ log) = omega (arith, length-kept-le log)
length-kept-le (dropped x ∷ log) = omega (arith, length-kept-le log)

-- A byte that is still to be offered has room.
Flowing-room :
    {capacity : ℕ} {total : List ℕ} {m : Shared} {c : Consumer} (p : Producer)
    → Flowing capacity total m p c
    → length (todo p) + get_data_size m.buffer ≤ length total
Flowing-room {total = total} {m} {c} p v = omega (
  arith,
  ap length v.inv.through,
  ap length v.inv.account,
  length-append m.dest (in_hand c ++ contents m.buffer),
  length-append (in_hand c) (contents m.buffer),
  length-append (offered m.log) (todo p ++ flatten m.source),
  length-append (todo p) (flatten m.source),
  length-kept-le m.log,
  length-contents m.buffer,
)

abbrev Advances : ℕ → List ℕ → Shared → Producer → Consumer → Producer × Shared → Type 0
Advances capacity total m p c (p', m') =
    Flowing capacity total m' p' c
    × (reader_left (file_steps m'.source) p' ≤ reader_left (file_steps m.source) p - 1)

module _ {capacity : ℕ} {total : List ℕ} {m : Shared} {c : Consumer} where
  next_chunk-Advances :
      (source : List (List ℕ))
      → m.source ≡ source
      → Flowing capacity total m fetch c
      → Inv total (next_chunk source m).1 (next_chunk source m).0 c
      → Advances capacity total m fetch c (next_chunk source m)
  unfolding next_chunk
  next_chunk-Advances [] e v i = ground arith
  next_chunk-Advances ([] ∷ chunks) e v i = ground arith
  next_chunk-Advances ((x ∷ xs) ∷ chunks) e v i = ground arith

  put_tail-Advances :
      (x : ℕ) (xs : List ℕ) (t : ℕ)
      → Flowing capacity total m (put_tail x xs t) c
      → Inv total (produce (put_tail x xs t) m).1 (produce (put_tail x xs t) m).0 c
      → Advances capacity total m (put_tail x xs t) c (produce (put_tail x xs t) m)
  unfolding produce
  put_tail-Advances x xs t v i = ground (
    arith,
    Flowing-room (put_tail x xs t) v,
    v.inv,
    add-mod-wrapped m.buffer.tail 1 m.buffer.capacity,
    get_data_size_lem v.inv.bounded,
  )

  produce-Advances :
      (p : Producer) → Flowing capacity total m p c → Advances capacity total m p c (produce p m)
  unfolding produce
  produce-Advances fetch v = next_chunk-Advances m.source refl v (produce-Inv fetch v.inv)
  produce-Advances (put_tail x xs t) v =
      put_tail-Advances x xs t v (produce-Inv (put_tail x xs t) v.inv)
  produce-Advances (await_writing x) v = ground (arith, produce-Inv (await_writing x) v.inv)
  produce-Advances (poll_writing x) v = ground (arith, produce-Inv (poll_writing x) v.inv, v.inv)
  produce-Advances (check_writing x) v = ground (arith, produce-Inv (check_writing x) v.inv, v.inv)
  produce-Advances (putting []) v = ground (arith, produce-Inv (putting []) v.inv)
  produce-Advances (putting (x ∷ xs)) v = ground (arith, produce-Inv (putting (x ∷ xs)) v.inv)
  produce-Advances (put_disable x xs) v = absurd (ground (arith, v.open_end))
  produce-Advances (put_cell x xs t next) v =
      ground (arith, produce-Inv (put_cell x xs t next) v.inv)
  produce-Advances (put_store x xs next) v =
      ground (arith, produce-Inv (put_store x xs next) v.inv, lost_taken x m.log)
  produce-Advances (put_enable xs) v = ground (arith, produce-Inv (put_enable xs) v.inv)
  produce-Advances stop_waiting v = ground (arith, produce-Inv stop_waiting v.inv)
  produce-Advances stop_store v = ground (arith, produce-Inv stop_store v.inv)
  produce-Advances producer_done v = (v, omega arith)
  produce-Advances put_fault v = absurd v.inv.producer

-- The writing thread takes nothing of this away.
consume-Flowing :
    {capacity : ℕ} {total : List ℕ} {m : Shared} {p : Producer} (c : Consumer)
    → Flowing capacity total m p c
    → let (c', m') = consume c m in Flowing capacity total m' p c' × (m'.source ≡ m.source)
unfolding consume
consume-Flowing (copying n h i acc) v = ground (arith, consume-Inv (copying n h i acc) v.inv)
consume-Flowing c v = ground (arith, consume-Inv c v.inv)

abbrev pub Goes : ℕ → List ℕ → System → Type 0
Goes capacity total s = Flowing capacity total s.mem s.producer s.consumer

abbrev pub left_of : System → ℕ
left_of s = reader_left (file_steps s.mem.source) s.producer

-- Each step of the reading thread brings it nearer to its end, whatever the other does.
pub run-Advances :
    {capacity : ℕ} {total : List ℕ} (ts : List Thread) (s : System)
    → Goes capacity total s
    → Goes capacity total (run ts s) × (left_of (run ts s) ≤ left_of s - turns reader ts)
unfolding run step turns
run-Advances [] s v = (v, omega arith)
run-Advances (reader ∷ ts) s v =
    let (v', less) = produce-Advances s.producer v in
    let (u, rest) = run-Advances ts (step reader s) v' in (u, omega (arith, less, rest))
run-Advances (writer ∷ ts) s v =
    let (v', same) = consume-Flowing s.consumer v in
    let (u, rest) = run-Advances ts (step writer s) v' in
    (u, omega (arith, rest, ap (λ l. reader_left (file_steps l) s.producer) same))

file_steps-pos : (chunks : List (List ℕ)) → 3 ≤ file_steps chunks
file_steps-pos [] = omega arith
file_steps-pos (c ∷ chunks) = omega (arith, file_steps-pos chunks)

pub none_left :
    (p : Producer) (chunks : List (List ℕ))
    → reader_left (file_steps chunks) p ≤ 0
    → p ≡ producer_done
none_left producer_done chunks h = refl
none_left p chunks h = absurd (omega (arith, file_steps-pos chunks))
