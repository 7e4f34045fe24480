-- ===== src/Threads/Pipeline/Consume.antt =====
-- SyncReadDataAccess.h, BufferReader.h: a step of the writing thread and the invariant.
use multithreading_io.Base.{ℕ, ◌≤◌, List, [], ◌∷◌, arith, append_assoc, take-suc, take-append-drop}
use multithreading_io.Threads.Buffer.{
  CircularBuffer, BufferStateSync, enable_writing, disable_reading, get_data_size,
}
use multithreading_io.Threads.Buffer.Bounds.{
  IsBounded, wrapped, add-mod-wrapped, get_data_size-lt-capacity,
}
use multithreading_io.Threads.Buffer.Contents.{contents, length-contents}
use multithreading_io.Threads.Buffer.Stores.{
  store_head-IsBounded, store_head-contents, store_head-size, at-contents,
}
use multithreading_io.Threads.Pipeline.{
  put_fault, Shared, Producer, fetch, await_writing, poll_writing, check_writing, putting, put_tail,
  put_disable, put_cell, put_store, put_enable, stop_waiting, stop_store, producer_done, Consumer,
  top, await_reading, poll_reading, check_reading, size_head, size_tail, load_head, copying,
  set_load, set_store, set_enable, set_test, set_disable, deliver, consumer_done, fault, consume,
}
use multithreading_io.Threads.Pipeline.Invariant.{Inv, ProducerLocals}

-- The producer's locals do not see that there is more room.
head-ProducerLocals :
    {b : CircularBuffer} (v : IsBounded b) (n : ℕ) (p : Producer)
    → n ≤ get_data_size b
    → ProducerLocals b p
    → ProducerLocals (record b { head = wrapped b.head n b.capacity }) p
head-ProducerLocals v n (put_tail x xs t) h l = l
head-ProducerLocals v n (put_cell x xs t next) h l = omega (arith, store_head-size v n h)
head-ProducerLocals v n (put_store x xs next) h (e, g, c) =
    (e, omega (arith, store_head-size v n h), c)
head-ProducerLocals v n fetch h l = l
head-ProducerLocals v n (await_writing _) h l = l
head-ProducerLocals v n (poll_writing _) h l = l
head-ProducerLocals v n (check_writing _) h l = l
head-ProducerLocals v n (putting _) h l = l
head-ProducerLocals v n (put_disable _ _) h l = l
head-ProducerLocals v n (put_enable _) h l = l
head-ProducerLocals v n stop_waiting h l = l
head-ProducerLocals v n stop_store h l = l
head-ProducerLocals v n producer_done h l = l
head-ProducerLocals v n put_fault h l = l

state-ProducerLocals :
    (b : CircularBuffer) (st : BufferStateSync) (p : Producer)
    → ProducerLocals b p
    → ProducerLocals (record b { state = st }) p
unfolding get_data_size
state-ProducerLocals b st (put_tail x xs t) l = l
state-ProducerLocals b st (put_cell x xs t next) l = l
state-ProducerLocals b st (put_store x xs next) l = l
state-ProducerLocals b st fetch l = l
state-ProducerLocals b st (await_writing _) l = l
state-ProducerLocals b st (poll_writing _) l = l
state-ProducerLocals b st (check_writing _) l = l
state-ProducerLocals b st (putting _) l = l
state-ProducerLocals b st (put_disable _ _) l = l
state-ProducerLocals b st (put_enable _) l = l
state-ProducerLocals b st stop_waiting l = l
state-ProducerLocals b st stop_store l = l
state-ProducerLocals b st producer_done l = l
state-ProducerLocals b st put_fault l = l

module _ {total : List ℕ} {m : Shared} {p : Producer} where
  copying-Inv :
      (n h i : ℕ) (acc : List ℕ)
      → Inv total m p (copying n h i acc)
      → let (c, m') = consume (copying n h i acc) m in Inv total m' p c
  unfolding consume
  copying-Inv n h i acc v =
      ground
        (arith, at-contents v.bounded i, take-suc i (contents m.buffer) 0, length-contents m.buffer)

  set_load-Inv :
      (n : ℕ) (acc : List ℕ)
      → Inv total m p (set_load n acc)
      → let (c, m') = consume (set_load n acc) m in Inv total m' p c
  unfolding consume
  set_load-Inv n acc v = record {
    bounded = v.bounded;
    producer = v.producer;
    consumer = (
      n,
      v.consumer.0,
      ground (
        arith,
        add-mod-wrapped m.buffer.head n m.buffer.capacity,
        get_data_size-lt-capacity v.bounded,
        length-contents m.buffer,
      ),
      v.consumer.1,
    );
    running = v.running;
    ending = λ e. cc;
    chunks = v.chunks;
    exhausted = v.exhausted;
    through = v.through;
    account = v.account;
  }

  set_store-Inv :
      (next : ℕ) (acc : List ℕ)
      → Inv total m p (set_store next acc)
      → let (c, m') = consume (set_store next acc) m in Inv total m' p c
  unfolding consume
  set_store-Inv next acc v =
      let (n, le, e, taken_n) = v.consumer in
      let fits : n ≤ get_data_size m.buffer = omega (arith, length-contents m.buffer) in
      ground (
        arith,
        store_head-IsBounded v.bounded n fits,
        store_head-contents v.bounded n fits,
        head-ProducerLocals v.bounded n p fits v.producer,
        take-append-drop n (contents m.buffer),
      )

  pub consume-Inv :
      (c : Consumer) → Inv total m p c → let (c', m') = consume c m in Inv total m' p c'
  unfolding consume get_data_size
  consume-Inv top v = ground arith
  consume-Inv await_reading v = ground arith
  consume-Inv poll_reading v = ground arith
  consume-Inv check_reading v = ground arith
  consume-Inv size_head v = ground arith
  consume-Inv (size_tail h) v = ground (arith, length-contents m.buffer)
  consume-Inv (load_head n) v = ground arith
  consume-Inv (copying n h i acc) v = copying-Inv n h i acc v
  consume-Inv (set_load n acc) v = set_load-Inv n acc v
  consume-Inv (set_store next acc) v = set_store-Inv next acc v
  consume-Inv (set_enable next acc) v =
      ground (arith, state-ProducerLocals m.buffer (enable_writing m.buffer.state) p v.producer)
  consume-Inv (set_test next acc) v = ground arith
  consume-Inv (set_disable acc) v =
      ground (arith, state-ProducerLocals m.buffer (disable_reading m.buffer.state) p v.producer)
  consume-Inv (deliver []) v = ground arith
  consume-Inv (deliver (x ∷ xs)) v =
      ground (arith, append_assoc m.dest (x ∷ xs) (contents m.buffer))
  consume-Inv consumer_done v = v
  consume-Inv fault v = absurd v.consumer
