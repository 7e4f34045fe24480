-- ===== src/Tests/Wire.antt =====
-- Segments under a cipher that adds the first byte of the initialization vector to each byte.
use multithreading_io.Base.{
  ℕ, suc, ◌+◌, ◌-◌, ◌%◌, ◌<◌, ◌≡◌, refl, ap, ap₂, ok, throw, invalid_argument, List, [], ◌∷◌, ◌++◌,
  map, All, replicate, length, take, zero, get_or, arith,
}
use multithreading_io.Wire.Cipher.{CtrMode, IsByte, new_encryption}
use multithreading_io.Wire.Serializer.{
  DataType, empty, file_data, pack, to_byte, unpack, uint32_mod, header_size,
}
use multithreading_io.Wire.Serializer.RoundTrip.{unpack-pack_append}

abbrev shift : ℕ → List ℕ → List ℕ
shift k plain = map (λ x. (x + k) % 256) plain

abbrev key_byte : List ℕ → ℕ
key_byte iv = get_or iv 0 0 % 256

pub length-shift : (k : ℕ) (plain : List ℕ) → length (shift k plain) ≡ length plain
length-shift k [] = refl
length-shift k (x ∷ xs) = ap suc (length-shift k xs)

pub shift-shift :
    (k : ℕ) (plain : List ℕ) → k < 256 → All IsByte plain → shift (256 - k) (shift k plain) ≡ plain
shift-shift k [] h b = refl
shift-shift k (x ∷ xs) h b = ap₂ ◌∷◌ (omega (arith, b.0)) (shift-shift k xs h b.1)

pub shift-take : (k n : ℕ) (plain : List ℕ) → shift k (take n plain) ≡ take n (shift k plain)
shift-take k zero plain = refl
shift-take k (suc n) [] = refl
shift-take k (suc n) (x ∷ xs) = ap (◌∷◌ ((x + k) % 256)) (shift-take k n xs)

abbrev pub shift_mode : CtrMode
shift_mode = record {
  encryption = λ key iv plain. shift (key_byte iv) plain;
  decryption = λ key iv cipher. shift (256 - key_byte iv) cipher;
  length-encryption = λ key iv plain. length-shift (key_byte iv) plain;
  decryption-encryption = λ key iv plain b. shift-shift (key_byte iv) plain (omega arith) b;
  decryption-take = λ n key iv cipher. shift-take (256 - key_byte iv) n cipher;
}

abbrev pub block : List ℕ
block = replicate 16 200

abbrev pub two_bytes : List ℕ
two_bytes = 65 ∷ 66 ∷ []

abbrev pub two_bytes_segment : List ℕ
two_bytes_segment = 2 ∷ (block ++ (2 ∷ 0 ∷ 0 ∷ 0 ∷ 9 ∷ 10 ∷ []))

pub two_bytes_packed :
    pack shift_mode file_data (ok block) new_encryption two_bytes
    ≡ ok (two_bytes_segment, record { iv = block })
unfolding pack to_byte
two_bytes_packed = refl

two_bytes_unpacked :
    (unpack shift_mode empty two_bytes_segment ≡ (file_data, ok two_bytes))
    × (unpack shift_mode empty (take 22 two_bytes_segment) ≡ (file_data, throw invalid_argument))
    × (unpack shift_mode empty (take 20 two_bytes_segment) ≡ (empty, ok []))
unfolding unpack
two_bytes_unpacked = (refl, refl, refl)

unpack-pack_append_example :
    (segment : List ℕ) × (pack shift_mode file_data (ok block) new_encryption two_bytes
      ≡ ok (segment, record { iv = block }))
    × (length segment ≡ header_size + length two_bytes)
    × ((before : DataType) (rest : List ℕ)
        → unpack shift_mode before (segment ++ rest)
          ≡ (file_data, ok (take (length two_bytes % uint32_mod) two_bytes)))
unpack-pack_append_example =
    unpack-pack_append shift_mode file_data block new_encryption two_bytes tt refl (λ h. cc)
      (omega arith, (omega arith, tt))
