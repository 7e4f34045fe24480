-- ===== src/Threads/Buffer/Bounds.antt =====
-- CircularBuffer.h: the representation invariant.
use multithreading_io.Base.{
  ℕ, ◌+◌, ◌-◌, ◌%◌, ◌^◌, ◌≤◌, ◌<◌, ◌≡◌, ◌≢◌, refl, ap, ◌∙◌, true, false, none, ◌==◌, ltb, leb, not,
  if◌then◌else◌, add_size, length, length-set, length-replicate, arith, set,
}
use native.Mathlib.Nat.{mod-eq_of_lt, mod-eq-sub-mod}
use native.Mathlib.Decide.{dec_lt, ℕ_discrete}
use multithreading_io.Threads.Buffer.{
  BufferStateSync, initial_sync, CircularBuffer, create, get_data_size, write, set_head,
}

-- Half the address space keeps `head_ + value` from wrapping.
abbrev pub max_capacity : ℕ
max_capacity = 2 ^ 63

pub record IsBounded (b : CircularBuffer) : Type 0 where
  pub room : b.capacity ≤ length b.cells
  pub small : b.capacity ≤ max_capacity
  pub head_in : b.head < b.capacity
  pub tail_in : b.tail < b.capacity

-- What the two flags say while no other thread is inside an operation: data can be read exactly if
-- there is some, and writing is only ever disabled on a full buffer.
pub record FlagsAgree (b : CircularBuffer) : Type 0 where
  pub reading : b.state.reading_enabled ≡ not (b.head == b.tail)
  pub writing : b.state.writing_enabled ≡ false → get_data_size b + 1 ≡ b.capacity

-- An index moved on by `n`, as the code computes it: at most one turn round the cells.
abbrev pub wrapped : ℕ → ℕ → ℕ → ℕ
wrapped h n c = if ltb (h + n) c then h + n else h + n - c

pub mod-wrapped : (h n c : ℕ) → h < c → n ≤ c → (h + n) % c ≡ wrapped h n c
mod-wrapped h n c p q = elim (dec_lt (h + n) c) [
  | yes k ↦ ground (arith, mod-eq_of_lt k)
  | no k ↦ ground (
    arith,
    mod-eq-sub-mod {n = h + n} {m = c} (omega arith),
    mod-eq_of_lt {n = h + n - c} {m = c} (omega arith),
  )
]

pub add-mod-wrapped :
    (h n c : ℕ) → h < c → n ≤ c → c ≤ max_capacity → add_size h n % c ≡ wrapped h n c
add-mod-wrapped h n c p q r = ap (λ j. j % c) (omega arith) ∙ mod-wrapped h n c p q

module _ {b : CircularBuffer} (v : IsBounded b) where
  pub get_data_size_lem :
      get_data_size b
      ≡ (if leb b.head b.tail then b.tail - b.head else b.capacity + b.tail - b.head)
  unfolding get_data_size
  get_data_size_lem = ground arith

  pub get_data_size-lt-capacity : get_data_size b < b.capacity
  get_data_size-lt-capacity = ground (arith, get_data_size_lem)

  -- The tail is the head moved on by the size.
  pub tail-mod : b.tail ≡ (b.head + get_data_size b) % b.capacity
  tail-mod = ground (arith, get_data_size_lem, mod-wrapped b.head (get_data_size b) b.capacity)

  pub write_full :
      (x : ℕ)
      → get_data_size b + 1 ≡ b.capacity
      → write b x ≡ record b { state = record b.state { writing_enabled = false } }
  unfolding write
  write_full x h = ground (arith, get_data_size_lem, add-mod-wrapped b.tail 1 b.capacity)

  pub write_ok :
      (x : ℕ)
      → get_data_size b + 1 ≢ b.capacity
      → write b x ≡ record b {
        cells = set b.cells b.tail x;
        tail = wrapped b.tail 1 b.capacity;
        state = record b.state { reading_enabled = true };
      }
  unfolding write
  write_ok x h = ground (arith, get_data_size_lem, add-mod-wrapped b.tail 1 b.capacity)

  pub set_head_lem :
      (n : ℕ)
      → n ≤ get_data_size b
      → set_head b n ≡ record b {
        head = wrapped b.head n b.capacity;
        state = record {
          writing_enabled = true;
          reading_enabled = if n == get_data_size b then false else b.state.reading_enabled;
        };
      }
  unfolding set_head
  set_head_lem n h = ground (arith, get_data_size_lem, add-mod-wrapped b.head n b.capacity)

-- The size after an operation.
module _ {b : CircularBuffer} (v : IsBounded b) where
  pub write-IsBounded : (x : ℕ) → IsBounded (write b x)
  unfolding write
  write-IsBounded x = ground (arith, length-set b.cells b.tail x)

  pub set_head-IsBounded : (n : ℕ) → IsBounded (set_head b n)
  unfolding set_head
  set_head-IsBounded n = ground arith

  pub get_data_size-write :
      (x : ℕ) → get_data_size b + 1 ≢ b.capacity → get_data_size (write b x) ≡ get_data_size b + 1
  get_data_size-write x h =
      let e : write b x ≡ _ = write_ok v x h in
      ground (arith, e, get_data_size_lem v, get_data_size_lem (write-IsBounded x))

  pub get_data_size-set_head :
      (n : ℕ) → n ≤ get_data_size b → get_data_size (set_head b n) + n ≡ get_data_size b
  get_data_size-set_head n h =
      ground
        (arith, set_head_lem v n h, get_data_size_lem v, get_data_size_lem (set_head-IsBounded n))

  pub write-FlagsAgree : (x : ℕ) → FlagsAgree b → FlagsAgree (write b x)
  write-FlagsAgree x f = elim (ℕ_discrete (get_data_size b + 1) b.capacity) [
    | yes e ↦
        ground (arith, write_full v x e, get_data_size_lem v, get_data_size_lem (write-IsBounded x))
    | no ne ↦
        ground (arith, write_ok v x ne, get_data_size_lem v, get_data_size_lem (write-IsBounded x))
  ]

  pub set_head-FlagsAgree : (n : ℕ) → n ≤ get_data_size b → FlagsAgree b → FlagsAgree (set_head b n)
  set_head-FlagsAgree n h f = ground (arith, set_head_lem v n h, get_data_size_lem v)

pub create-IsBounded :
    (size : ℕ) (st : BufferStateSync)
    → 0 < size
    → size ≤ max_capacity
    → IsBounded (create size st none)
unfolding create
create-IsBounded size st h k = ground (arith, length-replicate size (let z : ℕ = 0 in z))

-- The invariant of a buffer between two operations.
pub record IsValid (b : CircularBuffer) : Type 0 where
  pub bounded : IsBounded b
  pub flags : FlagsAgree b

-- A new buffer over its own vector is valid, with the flags that BufferStateSync starts with.
pub create-IsValid :
    (size : ℕ) → 0 < size → size ≤ max_capacity → IsValid (create size initial_sync none)
unfolding create get_data_size
create-IsValid size h k = record {
  bounded = create-IsBounded size initial_sync h k;
  flags = record { reading = refl; writing = λ e. cc };
}
