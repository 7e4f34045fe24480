-- ===== src/Threads/Buffer/Stores.antt =====
-- CircularBuffer.h, one store at a time: what a store to a cell, to `tail_` and to `head_` does to
-- the bytes that the buffer holds, whoever steps in between.
use multithreading_io.Base.{
  ℕ, suc, ◌+◌, ◌-◌, ◌%◌, ◌≤◌, ◌<◌, ◌≡◌, refl, ap, sym, ◌∙◌, some, [], ◌∷◌, ◌++◌, drop, get_or, set,
  arith, length-set,
}
use multithreading_io.Threads.Buffer.{CircularBuffer, at, get_data_size}
use multithreading_io.Base.{add_size}
use multithreading_io.Threads.Buffer.Bounds.{
  IsBounded, wrapped, mod-wrapped, tail-mod, get_data_size_lem, get_data_size-lt-capacity,
}
use multithreading_io.Threads.Buffer.Contents.{
  window, contents, window_snoc, window-set_ne, window_shift, drop-window, get_or-window,
  at-add_size,
}

module _ {b : CircularBuffer} (v : IsBounded b) where
  pub store_cell-IsBounded : (x : ℕ) → IsBounded (record b { cells = set b.cells b.tail x })
  store_cell-IsBounded x = ground (arith, length-set b.cells b.tail x)

  pub store_cell-size :
      (x : ℕ) → get_data_size (record b { cells = set b.cells b.tail x }) ≡ get_data_size b
  unfolding get_data_size
  store_cell-size x = refl

  -- The cell at the tail is not one of those that hold data.
  pub store_cell-contents :
      (x : ℕ) → contents (record b { cells = set b.cells b.tail x }) ≡ contents b
  unfolding get_data_size
  store_cell-contents x =
      window-set_ne b.cells b.capacity b.head (get_data_size b) b.tail x 0 (get_data_size b)
        (tail-mod v) (omega arith) (omega (arith, get_data_size-lt-capacity v))

  pub store_tail-IsBounded : IsBounded (record b { tail = wrapped b.tail 1 b.capacity })
  store_tail-IsBounded = ground arith

  pub store_tail-size :
      get_data_size b + 1 < b.capacity
      → get_data_size (record b { tail = wrapped b.tail 1 b.capacity }) ≡ suc (get_data_size b)
  store_tail-size h = ground (arith, get_data_size_lem v, get_data_size_lem store_tail-IsBounded)

  -- Only the store to the tail makes the byte part of the contents.
  pub store_tail-contents :
      get_data_size b + 1 < b.capacity
      → contents (record b { tail = wrapped b.tail 1 b.capacity })
        ≡ contents b ++ (get_or b.cells b.tail 0 ∷ [])
  store_tail-contents h = rw (store_tail-size h) (
      window_snoc b.cells b.capacity b.head 0 (get_data_size b)
      ∙ ap (λ j. contents b ++ (get_or b.cells j 0 ∷ []))
          (ap (λ k. (b.head + k) % b.capacity) (omega arith) ∙ sym (tail-mod v)))

  pub store_head-IsBounded :
      (n : ℕ) → n ≤ get_data_size b → IsBounded (record b { head = wrapped b.head n b.capacity })
  store_head-IsBounded n h = ground (arith, get_data_size-lt-capacity v)

  pub store_head-size :
      (n : ℕ)
      → n ≤ get_data_size b
      → get_data_size (record b { head = wrapped b.head n b.capacity }) ≡ get_data_size b - n
  store_head-size n h =
      ground (arith, get_data_size_lem v, get_data_size_lem (store_head-IsBounded n h))

  -- The store to the head takes the first bytes away.
  pub store_head-contents :
      (n : ℕ)
      → n ≤ get_data_size b
      → contents (record b { head = wrapped b.head n b.capacity }) ≡ drop n (contents b)
  store_head-contents n h = rw (store_head-size n h) (
      window_shift b.cells b.capacity (wrapped b.head n b.capacity) b.head n 0 (get_data_size b - n)
        (sym (
          mod-wrapped b.head n b.capacity (omega arith)
            (omega (arith, get_data_size-lt-capacity v))))
      ∙ ap (λ j. window b.cells b.capacity b.head j (get_data_size b - n)) (omega arith)
      ∙ sym (drop-window b.cells b.capacity b.head n 0 (get_data_size b) h))

  pub at-contents :
      (i : ℕ) → i < get_data_size b → at b (add_size b.head i) ≡ some (get_or (contents b) i 0)
  at-contents i h =
      at-add_size v i (omega (arith, get_data_size-lt-capacity v))
      ∙ ap some (
          ap (λ k. get_or b.cells ((b.head + k) % b.capacity) 0) (omega arith)
          ∙ sym (get_or-window b.cells b.capacity b.head i 0 (get_data_size b) h))
