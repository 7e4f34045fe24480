-- ===== src/Threads/Buffer/Transfer.antt =====
-- BufferWriter.h and BufferReader.h over CircularBuffer.h, against a bounded queue of bytes that
-- drops what does not fit.
use multithreading_io.Base.{
  ℕ, zero, suc, ◌+◌, ◌-◌, ◌≤◌, ◌<◌, ◌≡◌, refl, ap, sym, ◌∙◌, true, false, some, leb, if◌then◌else◌,
  List, [], ◌∷◌, ◌++◌, append-nil, append_assoc, length, take, drop, arith, drop-append,
}
use native.Mathlib.Decide.{ℕ_discrete}
use multithreading_io.Threads.Buffer.{
  CircularBuffer, get_data_size, write, set_head, buffer_write, buffer_read,
}
use multithreading_io.Threads.Buffer.Bounds.{
  IsValid, IsBounded, FlagsAgree, write_full, write_ok, set_head_lem, get_data_size-lt-capacity,
  get_data_size-write, write-IsBounded, set_head-IsBounded, write-FlagsAgree, set_head-FlagsAgree,
}
use multithreading_io.Threads.Buffer.Contents.{
  contents, length-contents, contents-write_full, contents-write_ok, contents-set_head,
  buffer_read-contents,
}

-- One cell stays empty.
abbrev pub free_space : CircularBuffer → ℕ
free_space b = b.capacity - 1 - get_data_size b

-- What a call of `BufferWriter::Write` has done.
pub record Wrote (b : CircularBuffer) (values : List ℕ) (c : CircularBuffer) : Type 0 where
  pub bounded : IsBounded c
  pub same : c.capacity ≡ b.capacity
  pub bytes : contents c ≡ contents b ++ take (free_space b) values
  pub overflow : free_space b < length values → c.state.writing_enabled ≡ false
  pub fits : length values ≤ free_space b → c.state.writing_enabled ≡ b.state.writing_enabled

take-cons_pos {ℓ} :
    {A : Type ℓ} (n : ℕ) (x : A) (xs : List A) → 0 < n → take n (x ∷ xs) ≡ x ∷ take (n - 1) xs
take-cons_pos zero x xs h = absurd (omega arith)
take-cons_pos (suc n) x xs h = ap (λ k. x ∷ take k xs) (omega arith)

take_zero {ℓ} : {A : Type ℓ} (n : ℕ) (xs : List A) → n ≡ 0 → take n xs ≡ []
take_zero zero xs h = refl
take_zero (suc n) xs h = absurd (omega arith)

take-nil : (n : ℕ) → take {A = ℕ} n [] ≡ []
take-nil zero = refl
take-nil (suc n) = refl

get_data_size-write_full :
    {b : CircularBuffer} (x : ℕ)
    → IsBounded b
    → get_data_size b + 1 ≡ b.capacity
    → get_data_size (write b x) ≡ get_data_size b
get_data_size-write_full {b} x v e =
    sym (length-contents (write b x)) ∙ ap length (contents-write_full v x e) ∙ length-contents b

pub buffer_write-Wrote :
    (values : List ℕ) {b : CircularBuffer} → IsBounded b → Wrote b values (buffer_write b values)
unfolding buffer_write
buffer_write-Wrote [] {b} v = record {
  bounded = v;
  same = refl;
  bytes = rw (take-nil, append-nil);
  overflow = λ h. absurd (omega arith);
  fits = λ _. refl;
}
buffer_write-Wrote (x ∷ xs) {b} v = elim (ℕ_discrete (get_data_size b + 1) b.capacity) [
  | yes e ↦ ground (
    arith,
    write_full v x e,
    contents-write_full v x e,
    get_data_size-write_full x v e,
    take_zero (free_space b) (x ∷ xs),
    take_zero (free_space (write b x)) xs,
    buffer_write-Wrote xs (write-IsBounded v x),
  )
  | no ne ↦ ground (
    arith,
    write_ok v x ne,
    contents-write_ok v x ne,
    get_data_size-write v x ne,
    get_data_size-lt-capacity v,
    take-cons_pos (free_space b) x xs,
    append_assoc (contents b) (x ∷ []) (take (free_space b - 1) xs),
    buffer_write-Wrote xs (write-IsBounded v x),
  )
]

buffer_write-FlagsAgree :
    (values : List ℕ) {b : CircularBuffer}
    → IsBounded b
    → FlagsAgree b
    → FlagsAgree (buffer_write b values)
unfolding buffer_write
buffer_write-FlagsAgree [] v f = f
buffer_write-FlagsAgree (x ∷ xs) v f =
    buffer_write-FlagsAgree xs (write-IsBounded v x) (write-FlagsAgree v x f)

-- What `BufferWriter::Write` does to a valid buffer: it appends the longest prefix of the data that
-- fits into the free cells and drops the rest of it; writing is disabled when something was
-- dropped, and otherwise left as it was; the buffer stays valid, flags included.
pub buffer_write_lem :
    (values : List ℕ) {b : CircularBuffer}
    → IsValid b
    → let c = buffer_write b values in
      (contents c ≡ contents b ++ take (free_space b) values)
      × (c.state.writing_enabled
          ≡ (if leb (length values) (free_space b) then b.state.writing_enabled else false))
      × IsValid c
buffer_write_lem values {b} v =
    let w = buffer_write-Wrote values v.bounded in
    (
      w.bytes,
      ground (arith, w.overflow, w.fits),
      record { bounded = w.bounded; flags = buffer_write-FlagsAgree values v.bounded v.flags },
    )

-- What `BufferReader::Read` does to a valid buffer: no access leaves the cells, the span holds all
-- the bytes of the buffer, oldest first, and afterwards the buffer is empty and valid, with writing
-- enabled and reading disabled.
pub buffer_read_lem :
    {b : CircularBuffer}
    → IsValid b
    → (c : CircularBuffer) × (buffer_read b ≡ some (contents b, c))
      × (contents c ≡ [])
      × (c.capacity ≡ b.capacity)
      × (c.state ≡ record { writing_enabled = true; reading_enabled = false })
      × IsValid c
buffer_read_lem {b} v =
    let n = get_data_size b in
    (
      set_head b n,
      buffer_read-contents v.bounded,
      contents-set_head v.bounded n (omega arith)
          ∙ ap (λ k. drop k (contents b)) (sym (length-contents b))
          ∙ drop_all (contents b),
      ap (λ (c : CircularBuffer). c.capacity) (set_head_lem v.bounded n (omega arith)),
      ground (arith, set_head_lem v.bounded n),
      record {
        bounded = set_head-IsBounded v.bounded n;
        flags = set_head-FlagsAgree v.bounded n (omega arith) v.flags;
      },
    )
  where
    drop_all : (xs : List ℕ) → drop (length xs) xs ≡ []
    drop_all xs = ap (drop (length xs)) (sym (append-nil xs)) ∙ drop-append xs []
