-- ===== src/Threads/Pipeline/Produce.antt =====
-- SyncWriteDataAccess.h, BufferWriter.h: a step of the reading thread and the invariant.
use multithreading_io.Base.{
  ℕ, ◌≡◌, List, [], ◌∷◌, ◌++◌, flatten, refl, arith, length-append, append_assoc, take-append_le,
  get_or-set_self,
}
use multithreading_io.Threads.Buffer.{get_data_size}
use multithreading_io.Threads.Buffer.Bounds.{
  add-mod-wrapped, get_data_size_lem, get_data_size-lt-capacity,
}
use multithreading_io.Threads.Buffer.Contents.{contents}
use multithreading_io.Threads.Buffer.Stores.{
  store_cell-IsBounded, store_cell-contents, store_cell-size, store_tail-IsBounded, store_tail-size,
  store_tail-contents,
}
use multithreading_io.Threads.Pipeline.{
  put_fault, Shared, Producer, fetch, await_writing, poll_writing, check_writing, putting, put_tail,
  put_disable, put_cell, put_store, put_enable, stop_waiting, stop_store, producer_done, Consumer,
  top, await_reading, poll_reading, check_reading, size_head, size_tail, load_head, copying,
  set_load, set_store, set_enable, set_test, set_disable, deliver, consumer_done, fault, produce,
  next_chunk,
}
use multithreading_io.Threads.Pipeline.Invariant.{
  Inv, in_hand, ConsumerLocals, offered_taken, offered_dropped, kept_taken, kept_dropped,
}

-- The consumer's locals do not see what is appended.
ConsumerLocals-append :
    (items ys : List ℕ) (h k : ℕ) (c : Consumer)
    → ConsumerLocals items h k c
    → ConsumerLocals (items ++ ys) h k c
ConsumerLocals-append items ys h k (copying n j i acc) (p, q, r, e) =
    (p, q, omega (arith, length-append items ys), rw (take-append_le i items ys (omega arith)) e)
ConsumerLocals-append items ys h k (load_head n) p = omega (arith, length-append items ys)
ConsumerLocals-append items ys h k (set_load n acc) (r, e) =
    (omega (arith, length-append items ys), rw (take-append_le n items ys (omega arith)) e)
ConsumerLocals-append items ys h k (set_store next acc) (n, r, p, e) =
    (n, omega (arith, length-append items ys), p, rw (take-append_le n items ys (omega arith)) e)
ConsumerLocals-append items ys h k (size_tail _) p = p
ConsumerLocals-append items ys h k top p = p
ConsumerLocals-append items ys h k await_reading p = p
ConsumerLocals-append items ys h k poll_reading p = p
ConsumerLocals-append items ys h k check_reading p = p
ConsumerLocals-append items ys h k size_head p = p
ConsumerLocals-append items ys h k (set_enable _ _) p = p
ConsumerLocals-append items ys h k (set_test _ _) p = p
ConsumerLocals-append items ys h k (set_disable _) p = p
ConsumerLocals-append items ys h k (deliver _) p = p
ConsumerLocals-append items ys h k consumer_done p = p
ConsumerLocals-append items ys h k fault p = p

module _ {total : List ℕ} {m : Shared} {c : Consumer} where
  next_chunk-Inv :
      (source : List (List ℕ))
      → m.source ≡ source
      → Inv total m fetch c
      → let (p, m') = next_chunk source m in Inv total m' p c
  unfolding next_chunk
  next_chunk-Inv [] e v = ground arith
  next_chunk-Inv ([] ∷ chunks) e v = ground arith
  next_chunk-Inv ((x ∷ xs) ∷ chunks) e v = ground arith

  put_tail-Inv :
      (x : ℕ) (xs : List ℕ) (t : ℕ)
      → Inv total m (put_tail x xs t) c
      → let (p, m') = produce (put_tail x xs t) m in Inv total m' p c
  unfolding produce
  put_tail-Inv x xs t v = ground (
    arith,
    add-mod-wrapped m.buffer.tail 1 m.buffer.capacity,
    get_data_size_lem v.bounded,
    get_data_size-lt-capacity v.bounded,
  )

  put_disable-Inv :
      (x : ℕ) (xs : List ℕ)
      → Inv total m (put_disable x xs) c
      → let (p, m') = produce (put_disable x xs) m in Inv total m' p c
  unfolding produce get_data_size
  put_disable-Inv x xs v =
      ground (arith, offered_dropped x (xs ++ flatten m.source) m.log, kept_dropped x m.log)

  put_cell-Inv :
      (x : ℕ) (xs : List ℕ) (t next : ℕ)
      → Inv total m (put_cell x xs t next) c
      → let (p, m') = produce (put_cell x xs t next) m in Inv total m' p c
  unfolding produce
  put_cell-Inv x xs t next v = ground (
    arith,
    store_cell-contents v.bounded x,
    store_cell-IsBounded v.bounded x,
    store_cell-size v.bounded x,
    get_or-set_self m.buffer.cells m.buffer.tail x 0,
  )

  put_store-Inv :
      (x : ℕ) (xs : List ℕ) (next : ℕ)
      → Inv total m (put_store x xs next) c
      → let (p, m') = produce (put_store x xs next) m in Inv total m' p c
  unfolding produce
  put_store-Inv x xs next v = ground (
    arith,
    store_tail-contents v.bounded,
    store_tail-IsBounded v.bounded,
    store_tail-size v.bounded,
    offered_taken x (xs ++ flatten m.source) m.log,
    kept_taken x m.log,
    append_assoc m.dest (in_hand c ++ contents m.buffer) (x ∷ []),
    append_assoc (in_hand c) (contents m.buffer) (x ∷ []),
    ConsumerLocals-append (contents m.buffer) (x ∷ []) m.buffer.head m.buffer.capacity c v.consumer,
  )

  pub produce-Inv :
      (p : Producer) → Inv total m p c → let (p', m') = produce p m in Inv total m' p' c
  unfolding produce get_data_size
  produce-Inv fetch v = next_chunk-Inv m.source refl v
  produce-Inv (await_writing x) v = ground arith
  produce-Inv (poll_writing x) v = ground arith
  produce-Inv (check_writing x) v = ground arith
  produce-Inv (putting []) v = ground arith
  produce-Inv (putting (x ∷ xs)) v = ground arith
  produce-Inv (put_tail x xs t) v = put_tail-Inv x xs t v
  produce-Inv (put_disable x xs) v = put_disable-Inv x xs v
  produce-Inv (put_cell x xs t next) v = put_cell-Inv x xs t next v
  produce-Inv (put_store x xs next) v = put_store-Inv x xs next v
  produce-Inv (put_enable xs) v = ground arith
  produce-Inv stop_waiting v = ground arith
  produce-Inv stop_store v = ground arith
  produce-Inv producer_done v = v
  produce-Inv put_fault v = absurd v.producer
