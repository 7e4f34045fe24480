-- ===== src/Threads/Buffer/Contents.antt =====
-- CircularBuffer.h, BufferReader.h and BufferWriter.h: the bytes that a buffer holds, oldest first,
-- and what each operation does to them.
use multithreading_io.Base.{
  ℕ, zero, suc, ◌+◌, ◌-◌, ◌%◌, ◌≤◌, ◌<◌, ◌≡◌, ◌≢◌, refl, ap, ap₂, sym, ◌∙◌, some, List, [], ◌∷◌,
  ◌++◌, add_size, length, drop, get_or, set, get_or-set_self, get_or-set_ne, get_elem?,
  get_elem?_lt, arith,
}
use native.Mathlib.Nat.{mod-add-mod, mod-lt}
use multithreading_io.Threads.Buffer.{
  CircularBuffer, at, get_data_size, write, set_head, buffer_read, read_chunk,
}
use multithreading_io.Threads.Buffer.Bounds.{
  IsBounded, wrapped, write_full, write_ok, set_head_lem, tail-mod, mod-wrapped,
  get_data_size-lt-capacity, get_data_size-write, get_data_size-set_head,
}

-- The `k` bytes from the `i`-th on behind the head `h`.
module _ (cells : List ℕ) (capacity h : ℕ) where
  abbrev pub window : ℕ → ℕ → List ℕ
  window i zero = []
  window i (suc k) = get_or cells ((h + i) % capacity) 0 ∷ window (i + 1) k

  pub length-window : (i k : ℕ) → length (window i k) ≡ k
  length-window i zero = refl
  length-window i (suc k) = ap suc (length-window (i + 1) k)

  pub window_snoc :
      (i k : ℕ) → window i (suc k) ≡ window i k ++ (get_or cells ((h + (i + k)) % capacity) 0 ∷ [])
  window_snoc i zero = ap (λ j. get_or cells ((h + j) % capacity) 0 ∷ []) (omega arith)
  window_snoc i (suc k) = ap (◌∷◌ (get_or cells ((h + i) % capacity) 0)) (
      window_snoc (i + 1) k
      ∙ ap (λ j. window (i + 1) k ++ (get_or cells ((h + j) % capacity) 0 ∷ [])) (omega arith))

  pub get_or-window :
      (n i k : ℕ) → n < k → get_or (window i k) n 0 ≡ get_or cells ((h + (i + n)) % capacity) 0
  get_or-window n i zero p = absurd (omega arith)
  get_or-window zero i (suc k) p = ap (λ j. get_or cells ((h + j) % capacity) 0) (omega arith)
  get_or-window (suc n) i (suc k) p =
      get_or-window n (i + 1) k (omega arith)
      ∙ ap (λ j. get_or cells ((h + j) % capacity) 0) (omega arith)

  pub drop-window : (n i k : ℕ) → n ≤ k → drop n (window i k) ≡ window (i + n) (k - n)
  drop-window zero i k p = ap₂ window (omega arith) (omega arith)
  drop-window (suc n) i zero p = absurd (omega arith)
  drop-window (suc n) i (suc k) p =
      drop-window n (i + 1) k (omega arith) ∙ ap₂ window (omega arith) (omega arith)

-- A window depends only on the remainders of its indices.
pub window_shift :
    (cells : List ℕ) (c g h n i k : ℕ)
    → g ≡ (h + n) % c
    → window cells c g i k ≡ window cells c h (n + i) k
window_shift cells c g h n i zero e = refl
window_shift cells c g h n i (suc k) e =
    ap₂ ◌∷◌ (ap (λ j. get_or cells j 0) same)
      (window_shift cells c g h n (i + 1) k e ∙ ap (λ j. window cells c h j k) (omega arith))
  where
    same : (g + i) % c ≡ (h + (n + i)) % c
    same = rw e (rw mod-add-mod (ap (λ j. j % c) (omega arith)))

abbrev pub contents : CircularBuffer → List ℕ
contents b = window b.cells b.capacity b.head 0 (get_data_size b)

pub length-contents : (b : CircularBuffer) → length (contents b) ≡ get_data_size b
length-contents b = length-window b.cells b.capacity b.head 0 (get_data_size b)

-- Fewer than `c` steps behind one index lie at different indices.
add-mod-ne : (h i j c : ℕ) → i < j → j < i + c → (h + i) % c ≢ (h + j) % c
add-mod-ne h i j c p q = grind arith

-- A write behind a window leaves it alone.
pub window-set_ne :
    (cells : List ℕ) (c h t s x i k : ℕ)
    → s ≡ (h + t) % c
    → i + k ≤ t
    → t < i + c
    → window (set cells s x) c h i k ≡ window cells c h i k
window-set_ne cells c h t s x i zero e p q = refl
window-set_ne cells c h t s x i (suc k) e p q =
    ap₂ ◌∷◌ (get_or-set_ne cells s ((h + i) % c) x 0 apart)
      (window-set_ne cells c h t s x (i + 1) k e (omega arith) (omega arith))
  where
    apart : s ≢ (h + i) % c
    apart = λ d. add-mod-ne h i t c (omega arith) (omega arith) (sym d ∙ e)

module _ {b : CircularBuffer} (v : IsBounded b) where
  -- A full buffer drops the byte.
  pub contents-write_full :
      (x : ℕ) → get_data_size b + 1 ≡ b.capacity → contents (write b x) ≡ contents b
  unfolding get_data_size
  contents-write_full x e = rw (write_full v x e)

  -- Any other takes it behind the rest.
  pub contents-write_ok :
      (x : ℕ) → get_data_size b + 1 ≢ b.capacity → contents (write b x) ≡ contents b ++ (x ∷ [])
  contents-write_ok x ne =
      rw (get_data_size-write v x ne, write_ok v x ne)
        (ap (window (set b.cells b.tail x) b.capacity b.head 0) {y = suc (get_data_size b)}
            (omega arith)
          ∙ window_snoc (set b.cells b.tail x) b.capacity b.head 0 (get_data_size b)
          ∙ ap₂ (λ l y. l ++ (y ∷ []))
              (window-set_ne b.cells b.capacity b.head (get_data_size b) b.tail x 0
                (get_data_size b) (tail-mod v) (omega arith)
                (omega (arith, get_data_size-lt-capacity v)))
              (ap (λ k. get_or (set b.cells b.tail x) ((b.head + k) % b.capacity) 0) (omega arith)
                ∙ ap (λ j. get_or (set b.cells b.tail x) j 0) (sym (tail-mod v))
                ∙ get_or-set_self b.cells b.tail x 0 (omega arith)))

  -- Moving the head on drops the bytes in front of it.
  pub contents-set_head :
      (n : ℕ) → n ≤ get_data_size b → contents (set_head b n) ≡ drop n (contents b)
  contents-set_head n p =
      rw (rest, set_head_lem v n p)
        (window_shift b.cells b.capacity (wrapped b.head n b.capacity) b.head n 0
            (get_data_size b - n) (sym (mod-wrapped b.head n b.capacity (omega arith) fits))
          ∙ ap (λ j. window b.cells b.capacity b.head j (get_data_size b - n)) (omega arith)
          ∙ sym (drop-window b.cells b.capacity b.head n 0 (get_data_size b) p))
    where
      rest : get_data_size (set_head b n) ≡ get_data_size b - n
      rest = omega (arith, get_data_size-set_head v n p)

      fits : n ≤ b.capacity
      fits = omega (arith, get_data_size-lt-capacity v)

  -- Every access of the reader's loop is inside the cells.
  pub at-add_size :
      (i : ℕ)
      → i < b.capacity
      → at b (add_size b.head i) ≡ some (get_or b.cells ((b.head + i) % b.capacity) 0)
  unfolding at
  at-add_size i p =
      ap (λ j. get_elem? b.cells (j % b.capacity)) (omega arith)
      ∙ get_elem?_lt b.cells ((b.head + i) % b.capacity) 0
          (omega (arith, mod-lt (b.head + i) {m = b.capacity} (omega arith)))

  read_chunk-eq-window :
      (i k : ℕ)
      → i + k ≤ b.capacity
      → read_chunk b b.head i k ≡ some (window b.cells b.capacity b.head i k)
  unfolding read_chunk
  read_chunk-eq-window i zero p = refl
  read_chunk-eq-window i (suc k) p = ground (arith, at-add_size i, read_chunk-eq-window (i + 1) k)

  -- The reader gets the whole contents, and leaves the buffer empty.
  pub buffer_read-contents : buffer_read b ≡ some (contents b, set_head b (get_data_size b))
  unfolding buffer_read
  buffer_read-contents =
      ground (arith, read_chunk-eq-window 0 (get_data_size b), get_data_size-lt-capacity v)
