-- ===== src/Threads/Pipeline/Invariant.antt =====
-- What holds between any two steps of the two threads: the locals of each thread against the shared
-- memory, and the account of every byte.
use multithreading_io.Base.{
  ℕ, ◌+◌, ◌≤◌, ◌<◌, ◌≡◌, ◌≢◌, Bool, true, false, List, [], ◌∷◌, ◌++◌, flatten, All, length, take,
  get_or, refl, ap,
}
use multithreading_io.Threads.Buffer.{CircularBuffer, get_data_size}
use multithreading_io.Threads.Buffer.Bounds.{IsBounded, wrapped}
use multithreading_io.Threads.Buffer.Contents.{contents}
use multithreading_io.Threads.Pipeline.{
  put_fault, Offer, taken, dropped, Shared, Producer, await_writing, poll_writing, check_writing,
  putting, put_tail, put_disable, put_cell, put_store, put_enable, stop_waiting, stop_store,
  producer_done, Consumer, size_tail, load_head, copying, set_load, set_store, set_enable, set_test,
  set_disable, deliver, consumer_done, fault,
}

-- The bytes of the history: all that were offered to the buffer, and those that it took.
unfoldable pub offered : List Offer → List ℕ
offered [] = []
offered (taken x ∷ log) = x ∷ offered log
offered (dropped x ∷ log) = x ∷ offered log

unfoldable pub kept : List Offer → List ℕ
kept [] = []
kept (taken x ∷ log) = x ∷ kept log
kept (dropped x ∷ log) = kept log

unfoldable pub lost : List Offer → List ℕ
lost [] = []
lost (taken x ∷ log) = lost log
lost (dropped x ∷ log) = x ∷ lost log

pub kept-eq-offered : (log : List Offer) → lost log ≡ [] → kept log ≡ offered log
unfolding lost kept offered
kept-eq-offered [] h = refl
kept-eq-offered (taken x ∷ log) h = ap (◌∷◌ x) (kept-eq-offered log h)
kept-eq-offered (dropped x ∷ log) h = cc

module _ (x : ℕ) (rest : List ℕ) where
  pub offered_taken :
      (log : List Offer) → offered (log ++ (taken x ∷ [])) ++ rest ≡ offered log ++ (x ∷ rest)
  unfolding offered
  offered_taken [] = refl
  offered_taken (taken y ∷ log) = ap (◌∷◌ y) (offered_taken log)
  offered_taken (dropped y ∷ log) = ap (◌∷◌ y) (offered_taken log)

  pub offered_dropped :
      (log : List Offer) → offered (log ++ (dropped x ∷ [])) ++ rest ≡ offered log ++ (x ∷ rest)
  unfolding offered
  offered_dropped [] = refl
  offered_dropped (taken y ∷ log) = ap (◌∷◌ y) (offered_dropped log)
  offered_dropped (dropped y ∷ log) = ap (◌∷◌ y) (offered_dropped log)

pub kept_taken : (x : ℕ) (log : List Offer) → kept (log ++ (taken x ∷ [])) ≡ kept log ++ (x ∷ [])
unfolding kept
kept_taken x [] = refl
kept_taken x (taken y ∷ log) = ap (◌∷◌ y) (kept_taken x log)
kept_taken x (dropped y ∷ log) = kept_taken x log

pub kept_dropped : (x : ℕ) (log : List Offer) → kept (log ++ (dropped x ∷ [])) ≡ kept log
unfolding kept
kept_dropped x [] = refl
kept_dropped x (taken y ∷ log) = ap (◌∷◌ y) (kept_dropped x log)
kept_dropped x (dropped y ∷ log) = kept_dropped x log

pub lost_taken : (x : ℕ) (log : List Offer) → lost (log ++ (taken x ∷ [])) ≡ lost log
unfolding lost
lost_taken x [] = refl
lost_taken x (taken y ∷ log) = lost_taken x log
lost_taken x (dropped y ∷ log) = ap (◌∷◌ y) (lost_taken x log)

-- The bytes of the current chunk that have not been offered yet.
abbrev pub todo : Producer → List ℕ
todo (await_writing c) = c
todo (poll_writing c) = c
todo (check_writing c) = c
todo (putting xs) = xs
todo (put_tail x xs _) = x ∷ xs
todo (put_disable x xs) = x ∷ xs
todo (put_cell x xs _ _) = x ∷ xs
todo (put_store x xs _) = x ∷ xs
todo (put_enable xs) = xs
todo _ = []

-- Bytes that have left the buffer and are not in the file yet.
abbrev pub in_hand : Consumer → List ℕ
in_hand (set_enable _ acc) = acc
in_hand (set_test _ acc) = acc
in_hand (set_disable acc) = acc
in_hand (deliver acc) = acc
in_hand _ = []

abbrev pub live : Producer → Bool
live producer_done = false
live _ = true

abbrev pub finished : Consumer → Bool
finished consumer_done = true
finished _ = false

-- The file has been read to its end.
abbrev pub ended : Producer → Bool
ended stop_waiting = true
ended stop_store = true
ended producer_done = true
ended _ = false

-- What the locals of the producer say. The consumer only makes room meanwhile.
abbrev pub ProducerLocals : CircularBuffer → Producer → Type 0
ProducerLocals b (put_tail _ _ t) = t ≡ b.tail
ProducerLocals b (put_cell _ _ t next) =
    (t ≡ b.tail) × (next ≡ wrapped b.tail 1 b.capacity) × (get_data_size b + 1 < b.capacity)
ProducerLocals b (put_store x _ next) =
    (next ≡ wrapped b.tail 1 b.capacity)
    × (get_data_size b + 1 < b.capacity)
    × (get_or b.cells b.tail 0 ≡ x)
ProducerLocals b put_fault = ⊥
ProducerLocals b _ = Unit

-- What the locals of the consumer say. The producer only adds bytes meanwhile.
abbrev pub ConsumerLocals : List ℕ → ℕ → ℕ → Consumer → Type 0
ConsumerLocals items head capacity (size_tail h) = h ≡ head
ConsumerLocals items head capacity (load_head n) = n ≤ length items
ConsumerLocals items head capacity (copying n h i acc) =
    (h ≡ head) × (i ≤ n) × (n ≤ length items) × (acc ≡ take i items)
ConsumerLocals items head capacity (set_load n acc) = (n ≤ length items) × (acc ≡ take n items)
ConsumerLocals items head capacity (set_store next acc) =
    (n : ℕ) × (n ≤ length items) × (next ≡ wrapped head n capacity) × (acc ≡ take n items)
ConsumerLocals items head capacity fault = ⊥
ConsumerLocals items head capacity _ = Unit

abbrev pub NonEmpty : List ℕ → Type 0
NonEmpty c = c ≢ []

-- `total` is the whole file.
pub record Inv (total : List ℕ) (m : Shared) (p : Producer) (c : Consumer) : Type 0 where
  pub bounded : IsBounded m.buffer
  pub producer : ProducerLocals m.buffer p
  pub consumer : ConsumerLocals (contents m.buffer) m.buffer.head m.buffer.capacity c
  pub running : m.running ≡ live p
  pub ending : finished c ≡ true → m.running ≡ false
  pub chunks : All NonEmpty m.source
  pub exhausted : ended p ≡ true → m.source ≡ []
  pub through : m.dest ++ (in_hand c ++ contents m.buffer) ≡ kept m.log
  pub account : offered m.log ++ (todo p ++ flatten m.source) ≡ total
