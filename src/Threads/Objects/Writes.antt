-- ===== src/Threads/Objects/Writes.antt =====
-- BufferWriter.h and BufferReader.h through the references: all objects of a transfer see what one of
-- them does, and those of another transfer see nothing of it.
use multithreading_io.Base.{
  ℕ, ◌≡◌, ◌≢◌, Option, none, some, List, [], ◌∷◌, get_elem?, set, get_elem?-set_self,
  get_elem?-set_ne, set_same, set-set, ap₂, sym, refl, ap, ◌∙◌, arith,
}
use multithreading_io.Threads.Buffer.{
  BufferStateSync, CircularBuffer, write, set_head, buffer_write, buffer_read, get_data_size,
}
use multithreading_io.Threads.Objects.{
  Address, BufferStateSetter, BufferStateGetter, StoredBuffer, Store, as_buffer, write_item,
  write_through, set_head_at, load_buffer, load_sync, read_through,
}

-- The buffer at an address, with the flags that its setter refers to.
pub record Holds (s : Store) (a : Address) (p : StoredBuffer) (st : BufferStateSync) : Type 0 where
  pub here : get_elem? s.buffers a ≡ some p
  pub flags : get_elem? s.syncs p.state.sync ≡ some st

abbrev pub stored_as : CircularBuffer → BufferStateSetter → StoredBuffer
stored_as b setter = record {
  cells = b.cells;
  capacity = b.capacity;
  head = b.head;
  tail = b.tail;
  state = setter;
}

-- The store with another buffer in this place.
abbrev pub store_back : Address → BufferStateSetter → CircularBuffer → Store → Store
store_back a setter b s = record s {
  buffers = set s.buffers a (stored_as b setter);
  syncs = set s.syncs setter.sync b.state;
}

module _ {s : Store} {a : Address} {p : StoredBuffer} {st : BufferStateSync}
    (v : Holds s a p st) where
  write_item_lem :
      (x : ℕ) → write_item a x s ≡ some (store_back a p.state (write (as_buffer p st) x) s)
  unfolding write_item write
  write_item_lem x = ground (arith, v.here, v.flags, set_same s.buffers a p)

  set_head_at_lem :
      (n : ℕ) → set_head_at a n s ≡ some (store_back a p.state (set_head (as_buffer p st) n) s)
  unfolding set_head_at set_head
  set_head_at_lem n = ground (arith, v.here, v.flags)

  store_back-Holds :
      (b : CircularBuffer) → Holds (store_back a p.state b s) a (stored_as b p.state) b.state
  store_back-Holds b = record {
    here = get_elem?-set_self s.buffers a (stored_as b p.state) p v.here;
    flags = get_elem?-set_self s.syncs p.state.sync b.state st v.flags;
  }

store_back-store_back :
    (a : Address) (setter : BufferStateSetter) (b b' : CircularBuffer) (s : Store)
    → store_back a setter b' (store_back a setter b s) ≡ store_back a setter b' s
store_back-store_back a setter b b' s =
    ap₂ (λ buffers syncs. record s { buffers = buffers; syncs = syncs })
      (set-set s.buffers a (stored_as b setter) (stored_as b' setter))
      (set-set s.syncs setter.sync b.state b'.state)

-- `BufferWriter::Write` and `BufferReader::Read` do to the store what they do to the buffer.
write_through_lem :
    (items : List ℕ) {s : Store} {a : Address} {p : StoredBuffer} {st : BufferStateSync}
    → Holds s a p st
    → write_through (record { buffer = a }) items s
      ≡ some (store_back a p.state (buffer_write (as_buffer p st) items) s)
unfolding write_through buffer_write
write_through_lem [] {s} {a} {p} {st} v =
    ap₂ (λ buffers syncs. some (record s { buffers = buffers; syncs = syncs }))
      (sym (set_same s.buffers a p v.here)) (sym (set_same s.syncs p.state.sync st v.flags))
write_through_lem (item ∷ items) {s} {a} {p} {st} v =
    let b = write (as_buffer p st) item in
    ground (
      arith,
      write_item_lem v item,
      write_through_lem items (store_back-Holds v b),
      store_back-store_back a p.state b (buffer_write b items) s,
    )

abbrev read_result :
    Address → BufferStateSetter → Store → Option (List ℕ × CircularBuffer) → Option (List ℕ × Store)
read_result a setter s none = none
read_result a setter s (some (chunk, b)) = some (chunk, store_back a setter b s)

read_through_lem :
    {s : Store} {a : Address} {p : StoredBuffer} {st : BufferStateSync}
    → Holds s a p st
    → read_through (record { buffer = a }) s
      ≡ read_result a p.state s (buffer_read (as_buffer p st))
unfolding read_through buffer_read load_buffer
read_through_lem {s} {a} {p} {st} v =
    ground (arith, v.here, v.flags, set_head_at_lem v (get_data_size (as_buffer p st)))

-- After a method of the buffer at `a`, which is `b` now: what the objects see that refer to it or to
-- its flags, and what all others see.
pub record AllSee (s s' : Store) (a : Address) (setter : BufferStateSetter) (b : CircularBuffer)
    : Type 0 where
  pub buffer : load_buffer a s' ≡ some b
  pub flags : (g : BufferStateGetter) → g.sync ≡ setter.sync → load_sync g s' ≡ some b.state
  pub other_buffers : (k : Address) → k ≢ a → get_elem? s'.buffers k ≡ get_elem? s.buffers k
  pub other_flags : (g : BufferStateGetter) → g.sync ≢ setter.sync → load_sync g s' ≡ load_sync g s
  pub running : s'.flags ≡ s.flags

module _ {s : Store} {a : Address} {p : StoredBuffer} {st : BufferStateSync}
    (v : Holds s a p st) where
  store_back-AllSee : (b : CircularBuffer) → AllSee s (store_back a p.state b s) a p.state b
  unfolding load_buffer load_sync
  store_back-AllSee b =
      let u = store_back-Holds v b in
      record {
        buffer = ground (arith, u.here, u.flags);
        flags = λ g e. ap (get_elem? (store_back a p.state b s).syncs) e ∙ u.flags;
        other_buffers =
            λ k ne. get_elem?-set_ne s.buffers a k (stored_as b p.state) (λ e. ne (sym e));
        other_flags =
            λ g ne. get_elem?-set_ne s.syncs p.state.sync g.sync b.state (λ e. ne (sym e));
        running = refl;
      }

  -- While a buffer and its flags are in the store: `BufferWriter::Write` through a reference to this
  -- buffer, and `BufferReader::Read` if it accesses no cell outside it, do to it what the functions on
  -- the buffer do; every object that refers to the buffer or to its flags sees the result at once, and
  -- every other buffer, every other pair of flags and every `running_` is as before.
  pub tasks_agree :
      ((items : List ℕ)
        → (s' : Store) × (write_through (record { buffer = a }) items s ≡ some s')
          × AllSee s s' a p.state (buffer_write (as_buffer p st) items))
      × ((chunk : List ℕ) (b : CircularBuffer)
          → buffer_read (as_buffer p st) ≡ some (chunk, b)
          → (s' : Store) × (read_through (record { buffer = a }) s ≡ some (chunk, s'))
            × AllSee s s' a p.state b)
  tasks_agree = (
    λ items.
        let b = buffer_write (as_buffer p st) items in
        (store_back a p.state b s, write_through_lem items v, store_back-AllSee b),
    λ chunk b e. (
      store_back a p.state b s,
      read_through_lem v ∙ ap (read_result a p.state s) e,
      store_back-AllSee b,
    ),
  )
