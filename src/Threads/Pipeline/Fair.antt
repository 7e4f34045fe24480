-- ===== src/Threads/Pipeline/Fair.antt =====
-- SyncWriteDataAccess.h and SyncReadDataAccess.h on a file that fits into the buffer, under every
-- interleaving that lets each thread step often enough.
use multithreading_io.Base.{
  ℕ, ◌+◌, ◌*◌, ◌≤◌, ◌<◌, ◌≡◌, List, [], ◌∷◌, ◌++◌, flatten, All, length, length-append, refl, ap,
  sym, ◌∙◌, arith,
}
use multithreading_io.Threads.Buffer.{create}
use multithreading_io.Threads.Buffer.Bounds.{max_capacity}
use multithreading_io.Threads.Buffer.Contents.{contents}
use multithreading_io.Threads.Pipeline.{
  producer_done, consumer_done, System, start, Thread, reader, writer, run,
}
use multithreading_io.Threads.Pipeline.Invariant.{NonEmpty, lost, in_hand}
use multithreading_io.Threads.Pipeline.Safety.{start-Inv, transfer_complete}
use multithreading_io.Threads.Pipeline.Calm.{run-append}
use multithreading_io.Threads.Pipeline.Flow.{
  turns, file_steps, Goes, left_of, run-Advances, none_left,
}
use multithreading_io.Threads.Pipeline.Closing.{run-Closing, writer_left-le, writer_none_left}

file_steps_lem :
    (chunks : List (List ℕ))
    → file_steps chunks ≡ 5 * length (flatten chunks) + 4 * length chunks + 3
file_steps_lem [] = refl
file_steps_lem (c ∷ chunks) = omega (arith, file_steps_lem chunks, length-append c (flatten chunks))

start-Goes :
    (capacity : ℕ) (chunks : List (List ℕ))
    → capacity ≤ max_capacity
    → All NonEmpty chunks
    → length (flatten chunks) < capacity
    → Goes capacity (flatten chunks) (start capacity chunks)
unfolding start create lost
start-Goes capacity chunks small ne h = record {
  inv = start-Inv capacity chunks (omega arith) small ne;
  same = refl;
  fits = h;
  writing = refl;
  open_end = refl;
  nothing = refl;
}

start_left :
    (capacity : ℕ) (chunks : List (List ℕ)) → left_of (start capacity chunks) ≡ file_steps chunks
unfolding start
start_left capacity chunks = refl

-- A file that fits into the buffer cannot hang the threads, and no byte of it is dropped: after any
-- interleaving in which first the reading thread steps five times for each byte, four times for each
-- chunk and three times more, and then the writing thread as often as the buffer has cells and ten
-- times more, whatever the other thread does meanwhile, both threads have finished, and the output
-- file and what is left in the buffer make up the input file.
pub fair_run_ends :
    (capacity : ℕ) (chunks : List (List ℕ))
    → capacity ≤ max_capacity
    → All NonEmpty chunks
    → length (flatten chunks) < capacity
    → (ts us : List Thread) → 5 * length (flatten chunks) + 4 * length chunks + 3 ≤ turns reader ts
    → capacity + 10 ≤ turns writer us
    → let s = run (ts ++ us) (start capacity chunks) in
      (s.producer ≡ producer_done)
      × (s.consumer ≡ consumer_done)
      × (lost s.mem.log ≡ [])
      × (s.mem.dest ++ contents s.mem.buffer ≡ flatten chunks)
fair_run_ends capacity chunks small ne h ts us often often' =
    let s₀ = start capacity chunks in
    let s₁ = run ts s₀ in
    let g = start-Goes capacity chunks small ne h in
    let (v, near) = run-Advances ts s₀ g in
    let over : s₁.producer ≡ producer_done =
      none_left s₁.producer s₁.mem.source
        (omega (arith, near, file_steps_lem chunks, start_left capacity chunks)) in
    let (u, close) = run-Closing us s₁ (record { inv = v.inv; same = v.same; over = over }) in
    let joined = run-append ts us s₀ in
    let e : (run us s₁).consumer ≡ consumer_done =
      writer_none_left capacity (run us s₁).consumer u.inv
        (omega (arith, close, writer_left-le capacity s₁.consumer v.inv v.same)) in
    let lossless = (run-Advances (ts ++ us) s₀ g).0.nothing in
    let producer = ap (λ (s : System). s.producer) joined ∙ u.over in
    let consumer = ap (λ (s : System). s.consumer) joined ∙ e in
    (
      producer,
      consumer,
      lossless,
      ap
            (λ c.
              (run (ts ++ us) s₀).mem.dest
              ++ (in_hand c ++ contents (run (ts ++ us) s₀).mem.buffer))
            (sym consumer)
          ∙ transfer_complete capacity chunks (omega arith) small ne (ts ++ us) lossless producer,
    )
