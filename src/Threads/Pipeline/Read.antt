-- ===== src/Threads/Pipeline/Read.antt =====
-- SyncReadDataAccess.h and BufferReader.h: the writing thread stepping alone.
use multithreading_io.Base.{
  ℕ, zero, suc, ◌+◌, ◌<◌, ◌≡◌, true, some, List, [], ◌∷◌, ◌++◌, append-nil, take, take-suc,
  take_all, replicate, get_or, refl, ap, ap₂, add_size, ◌%◌, sym, ◌∙◌, arith,
}
use multithreading_io.Threads.Buffer.{
  CircularBuffer, get_data_size, set_head, buffer_read, enable_writing, disable_reading,
}
use multithreading_io.Threads.Buffer.Bounds.{
  IsBounded, add-mod-wrapped, get_data_size_lem, get_data_size-lt-capacity,
}
use multithreading_io.Threads.Buffer.Contents.{contents, length-contents, buffer_read-contents}
use multithreading_io.Threads.Buffer.Stores.{at-contents}
use multithreading_io.Threads.Pipeline.{
  Shared, Producer, top, copying, set_load, set_disable, Thread, writer, step, run, write_out,
}
use multithreading_io.Threads.Pipeline.Calm.{system, run_chain}

write_out-append : (dest xs : List ℕ) → write_out dest xs ≡ dest ++ xs
unfolding write_out
write_out-append dest [] = sym (append-nil dest)
write_out-append dest (x ∷ xs) = refl

module _ (m : Shared) (p : Producer) (v : IsBounded m.buffer) where
  size : ℕ
  size = get_data_size m.buffer

  -- Up to the loop of `BufferReader::Read`.
  enter_read :
      m.running ≡ true
      → m.buffer.state.reading_enabled ≡ true
      → run (replicate 6 writer) (system m p top) ≡ system m p (copying size m.buffer.head 0 [])
  unfolding run get_data_size size
  enter_read running reading = ground (arith, running, reading)

  copy_step :
      (i : ℕ) (acc : List ℕ)
      → i < size
      → step writer (system m p (copying size m.buffer.head i acc))
        ≡ system m p
            (copying size m.buffer.head (i + 1) (acc ++ (get_or (contents m.buffer) i 0 ∷ [])))
  unfolding step size
  copy_step i acc h = ground (arith, at-contents v i h)

  -- The loop.
  copy_cells :
      (k i : ℕ)
      → i + k ≡ size
      → run
          (replicate k writer)
          (system m p (copying size m.buffer.head i (take i (contents m.buffer))))
        ≡ system m p (copying size m.buffer.head size (contents m.buffer))
  unfolding run size
  copy_cells zero i h =
      ap₂ (λ j l. system m p (copying size m.buffer.head j l)) (omega arith)
        (take_all i (contents m.buffer) (omega (arith, length-contents m.buffer)))
  copy_cells (suc k) i h =
      ap (run (replicate k writer)) (
        copy_step i (take i (contents m.buffer)) (omega arith)
        ∙ ap (λ l. system m p (copying size m.buffer.head (i + 1) l))
            (sym (take-suc i (contents m.buffer) 0 (omega (arith, length-contents m.buffer)))
              ∙ ap (λ j. take j (contents m.buffer)) {x = suc i} (omega arith)))
      ∙ copy_cells k (i + 1) (omega arith)

  empties : add_size m.buffer.head size % m.buffer.capacity ≡ m.buffer.tail
  unfolding size
  empties = ground (
    arith,
    get_data_size_lem v,
    get_data_size-lt-capacity v,
    add-mod-wrapped m.buffer.head (get_data_size m.buffer) m.buffer.capacity,
  )

  loop_end :
      (acc : List ℕ)
      → run (writer ∷ []) (system m p (copying size m.buffer.head size acc))
        ≡ system m p (set_load size acc)
  unfolding run
  loop_end acc = ground arith

  abbrev emptied : CircularBuffer
  emptied = record m.buffer { head = m.buffer.tail; state = enable_writing m.buffer.state }

  store_head :
      (acc : List ℕ)
      → run (replicate 4 writer) (system m p (set_load size acc))
        ≡ system (record m { buffer = emptied }) p (set_disable acc)
  unfolding run
  store_head acc = ground (arith, empties)

  set_head-size : set_head m.buffer size ≡ record emptied { state = disable_reading emptied.state }
  unfolding set_head
  set_head-size = ground (arith, empties)

  -- Behind the loop.
  leave_read :
      (acc : List ℕ)
      → run (replicate 2 writer) (system (record m { buffer = emptied }) p (set_disable acc))
        ≡ system (record m { buffer = set_head m.buffer size; dest = m.dest ++ acc }) p top
  unfolding run
  leave_read acc =
      ap₂ (λ b d. system (record m { buffer = b; dest = d }) p top) (sym set_head-size)
        (write_out-append m.dest acc)

pub read_steps : ℕ → List Thread
read_steps n =
    replicate 6 writer
    ++ (replicate n writer ++ ((writer ∷ []) ++ (replicate 4 writer ++ replicate 2 writer)))

pub run_read :
    (m : Shared) (p : Producer)
    → IsBounded m.buffer
    → m.running ≡ true
    → m.buffer.state.reading_enabled ≡ true
    → run (read_steps (get_data_size m.buffer)) (system m p top)
      ≡ system
          (record m {
            buffer = set_head m.buffer (get_data_size m.buffer);
            dest = m.dest ++ contents m.buffer;
          })
          p
          top
unfolding size read_steps
run_read m p v running reading =
    let n = get_data_size m.buffer in
    run_chain (replicate 6 writer)
      (replicate n writer ++ ((writer ∷ []) ++ (replicate 4 writer ++ replicate 2 writer))) _
      (enter_read m p v running reading)
      (run_chain (replicate n writer) ((writer ∷ []) ++ (replicate 4 writer ++ replicate 2 writer))
        _ (copy_cells m p v n 0 (omega arith))
        (run_chain (writer ∷ []) (replicate 4 writer ++ replicate 2 writer) _
          (loop_end m p v (contents m.buffer))
          (run_chain (replicate 4 writer) (replicate 2 writer) _
            (store_head m p v (contents m.buffer)) (leave_read m p v (contents m.buffer)))))

-- Whatever the reading thread is about to do, if it does nothing and both `running_` and the reading
-- flag are on, then the writing thread does what `BufferReader::Read` does to the buffer, without a
-- bad access, and appends what this returns to the output file.
pub read_alone :
    (m : Shared) (p : Producer)
    → IsBounded m.buffer
    → m.running ≡ true
    → m.buffer.state.reading_enabled ≡ true
    → (chunk : List ℕ) × (b : CircularBuffer) × (ts : List Thread) × (buffer_read m.buffer
        ≡ some (chunk, b))
      × (run ts (record { mem = m; producer = p; consumer = top }) ≡ record {
        mem = record m { buffer = b; dest = m.dest ++ chunk };
        producer = p;
        consumer = top;
      })
read_alone m p v running reading = (
  contents m.buffer,
  set_head m.buffer (get_data_size m.buffer),
  read_steps (get_data_size m.buffer),
  buffer_read-contents v,
  run_read m p v running reading,
)
