-- ===== src/Wire/Serializer/Layout.antt =====
-- Serializer.h: the parts of a segment as they lie in its bytes.
use multithreading_io.Base.{
  ℕ, zero, suc, ◌+◌, ◌-◌, ◌≤◌, ◌≡◌, ap, sym, ◌∙◌, List, ◌∷◌, ◌++◌, append_assoc, length, take, drop,
  length-append, take_front, drop_front, take_beyond, arith,
}
use multithreading_io.Wire.Cipher.{block_size}
use multithreading_io.Wire.Serializer.{uint32_size, header_size}

abbrev pub message : ℕ → List ℕ → List ℕ → List ℕ → List ℕ
message t iv size rest = t ∷ (iv ++ (size ++ rest))

pub message-append :
    (t : ℕ) (iv size payload rest : List ℕ)
    → message t iv size payload ++ rest ≡ message t iv size (payload ++ rest)
message-append t iv size payload rest =
    ap (◌∷◌ t)
      (append_assoc iv (size ++ payload) rest ∙ ap (◌++◌ iv) (append_assoc size payload rest))

pub take-message :
    (t : ℕ) (iv size payload : List ℕ) (n : ℕ)
    → length iv ≡ block_size
    → length size ≡ uint32_size
    → header_size ≤ n
    → take n (message t iv size payload) ≡ message t iv size (take (n - header_size) payload)
take-message t iv size payload zero hiv hsize h = absurd (omega arith)
take-message t iv size payload (suc n) hiv hsize h = ap (◌∷◌ t) (
    take_beyond n iv (size ++ payload) (omega arith)
    ∙ ap (◌++◌ iv) (
        take_beyond (n - length iv) size payload (omega arith)
        ∙ ap (λ k. size ++ take k payload) (omega arith)))

-- The parts of a segment as `unpack` takes them from the bytes.
module _ (t : ℕ) (iv size rest : List ℕ) (hiv : length iv ≡ block_size)
    (hsize : length size ≡ uint32_size) where
  pub message-iv : take block_size (drop 1 (message t iv size rest)) ≡ iv
  message-iv = take_front block_size iv (size ++ rest) (sym hiv)

  pub message-size : take uint32_size (drop (1 + block_size) (message t iv size rest)) ≡ size
  message-size =
      ap (take uint32_size) (drop_front block_size iv (size ++ rest) (sym hiv))
      ∙ take_front uint32_size size rest (sym hsize)

  pub message-rest : drop header_size (message t iv size rest) ≡ rest
  message-rest =
      ap (drop (block_size + uint32_size)) (sym (append_assoc iv size rest))
      ∙ drop_front (block_size + uint32_size) (iv ++ size) rest
          (omega (arith, length-append iv size))

  pub message-length : length (message t iv size rest) ≡ header_size + length rest
  message-length = omega (arith, length-append iv (size ++ rest), length-append size rest)
