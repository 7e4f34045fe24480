-- ===== src/Threads/Pipeline/Safety.antt =====
-- SyncWriteDataAccess.h and SyncReadDataAccess.h under every interleaving of the two threads.
use multithreading_io.Base.{
  ℕ, ◌≤◌, ◌<◌, ◌≡◌, ◌≢◌, List, [], ◌∷◌, ◌++◌, flatten, All, refl, ap, ap₂, subst, sym, ◌∙◌, arith,
  append-nil,
}
use multithreading_io.Threads.Buffer.{get_data_size, create, initial_sync}
use multithreading_io.Threads.Buffer.Bounds.{IsBounded, max_capacity, create-IsBounded}
use multithreading_io.Threads.Buffer.Contents.{contents}
use multithreading_io.Threads.Pipeline.{
  put_fault, Producer, producer_done, consumer_done, fault, System, start, Thread, reader, writer,
  step, run,
}
use multithreading_io.Threads.Pipeline.Invariant.{
  Inv, NonEmpty, in_hand, todo, offered, kept, lost, kept-eq-offered, live, ended, finished,
  ConsumerLocals, ProducerLocals,
}
use multithreading_io.Threads.Pipeline.Produce.{produce-Inv}
use multithreading_io.Threads.Pipeline.Consume.{consume-Inv}

abbrev pub SystemInv : List ℕ → System → Type 0
SystemInv total s = Inv total s.mem s.producer s.consumer

pub start-Inv :
    (capacity : ℕ) (chunks : List (List ℕ))
    → 0 < capacity
    → capacity ≤ max_capacity
    → All NonEmpty chunks
    → SystemInv (flatten chunks) (start capacity chunks)
unfolding start create get_data_size kept offered
start-Inv capacity chunks h k ne = record {
  bounded = create-IsBounded capacity initial_sync h k;
  producer = tt;
  consumer = tt;
  running = refl;
  ending = λ e. cc;
  chunks = ne;
  exhausted = λ e. cc;
  through = refl;
  account = refl;
}

step-Inv :
    {total : List ℕ} (t : Thread) {s : System} → SystemInv total s → SystemInv total (step t s)
unfolding step
step-Inv reader {s} v = produce-Inv s.producer v
step-Inv writer {s} v = consume-Inv s.consumer v

pub run-Inv :
    {total : List ℕ} (ts : List Thread) {s : System}
    → SystemInv total s
    → SystemInv total (run ts s)
unfolding run
run-Inv [] v = v
run-Inv (t ∷ ts) v = run-Inv ts (step-Inv t v)

module _ (capacity : ℕ) (chunks : List (List ℕ)) (positive : 0 < capacity)
    (small : capacity ≤ max_capacity) (nonempty : All NonEmpty chunks) (ts : List Thread) where
  abbrev reached : System
  reached = run ts (start capacity chunks)

  reached-Inv : SystemInv (flatten chunks) reached
  reached-Inv = run-Inv ts (start-Inv capacity chunks positive small nonempty)

  -- After any interleaving, from a buffer of any size and a file read in non-empty chunks: the bytes
  -- in the output file, those that the writing thread has in hand and those in the buffer are, in
  -- this order, the bytes that the buffer took; and the bytes that it was offered, those of the
  -- current chunk and the rest of the file are, in this order, the whole file. So no byte is doubled,
  -- invented or moved past another.
  pub bytes_accounted :
      let s = run ts (start capacity chunks) in
      (s.mem.dest ++ (in_hand s.consumer ++ contents s.mem.buffer) ≡ kept s.mem.log)
      × (offered s.mem.log ++ (todo s.producer ++ flatten s.mem.source) ≡ flatten chunks)
  bytes_accounted = (reached-Inv.through, reached-Inv.account)

  -- After any interleaving, from a buffer of any size and a file read in non-empty chunks: the writing
  -- thread has read no cell outside the vector, the reading thread has written none outside it, and
  -- both indices are inside it.
  pub no_fault :
      let s = run ts (start capacity chunks) in
      (s.consumer ≢ fault) × (s.producer ≢ put_fault) × IsBounded s.mem.buffer
  no_fault = (
    (λ e.
        subst
          (λ c.
            ConsumerLocals (contents reached.mem.buffer) reached.mem.buffer.head
              reached.mem.buffer.capacity c)
          e reached-Inv.consumer),
    (λ e. subst (ProducerLocals reached.mem.buffer) e reached-Inv.producer),
    reached-Inv.bounded,
  )

  -- If the buffer has dropped no byte and the reading thread has finished, then the output file,
  -- what the writing thread has in hand and what is left in the buffer make up the whole input file.
  pub transfer_complete :
      lost (run ts (start capacity chunks)).mem.log ≡ []
      → (run ts (start capacity chunks)).producer ≡ producer_done
      → let s = run ts (start capacity chunks) in
        s.mem.dest ++ (in_hand s.consumer ++ contents s.mem.buffer) ≡ flatten chunks
  transfer_complete none_lost done =
      let e = reached-Inv.exhausted (ap ended done) in
      reached-Inv.through
      ∙ kept-eq-offered reached.mem.log none_lost
      ∙ sym (append-nil (offered reached.mem.log))
      ∙ sym (ap₂ (λ p l. offered reached.mem.log ++ (todo p ++ flatten l)) done e)
      ∙ reached-Inv.account

  -- The writing thread ends only after the reading thread has read the whole file and stopped.
  pub ends_in_order :
      (run ts (start capacity chunks)).consumer ≡ consumer_done
      → let s = run ts (start capacity chunks) in (s.producer ≡ producer_done) × (s.mem.source ≡ [])
  ends_in_order end = go reached.producer refl
    where
      go :
          (p : Producer)
          → reached.producer ≡ p
          → (reached.producer ≡ producer_done) × (reached.mem.source ≡ [])
      go producer_done e = (e, reached-Inv.exhausted (ap ended e))
      go p e =
          let off = reached-Inv.ending (ap finished end) in
          absurd (ground (arith, reached-Inv.running, ap live e, off))
