-- ===== src/Wire/Serializer.antt =====
-- multy/src/common/Serializer.h and DataType.h. The two scratch vectors are cleared on every call,
-- and the span that a call returns is one of them.
pub mod Layout
pub mod RoundTrip
use multithreading_io.Base.{
  ℕ, ◌+◌, ◌-◌, ◌*◌, ◌/◌, ◌%◌, ◌^◌, Bool, List, [], ◌∷◌, ◌++◌, Result, ok, throw, invalid_argument,
  ltb, ◌==◌, if◌then◌else◌, length, take, drop, get_or, Exception,
}
use multithreading_io.Wire.Cipher.{CtrMode, Encryption, block_size, encrypt, decrypt, get_iv}

-- A value of the enum is any byte; `other` stands for those without a name.
pub data DataType : Type 0 where
  empty : DataType
  file_name : DataType
  file_data : DataType
  other : ℕ → DataType

unfoldable pub to_byte : DataType → ℕ
to_byte empty = 0
to_byte file_name = 1
to_byte file_data = 2
to_byte (other n) = n

unfoldable pub of_byte : ℕ → DataType
of_byte n =
    if n == 0 then empty else if n == 1 then file_name else if n == 2 then file_data else other n

abbrev pub uint32_size : ℕ
uint32_size = 4

abbrev pub uint32_mod : ℕ
uint32_mod = 2 ^ 32

abbrev pub header_size : ℕ
header_size = 1 + block_size + uint32_size

-- The bytes of a `uint32_t` in memory, on a little-endian machine.
unfoldable pub uint32_bytes : ℕ → List ℕ
uint32_bytes n = n % 256 ∷ n / 256 % 256 ∷ n / 65536 % 256 ∷ n / 16777216 % 256 ∷ []

unfoldable pub read_uint32 : List ℕ → ℕ
read_uint32 b = get_or b 0 0 + 256 * get_or b 1 0 + 65536 * get_or b 2 0 + 16777216 * get_or b 3 0

module _ (ctr : CtrMode) where
  segment : DataType → List ℕ → Encryption → List ℕ
  segment type cipher e =
      to_byte type ∷ (get_iv e ++ (uint32_bytes (length cipher % uint32_mod) ++ cipher))

  unfoldable pub pack :
      DataType → Result (List ℕ) → Encryption → List ℕ → Result (List ℕ × Encryption)
  unfolding segment encrypt get_iv uint32_bytes
  pack type random e [] = ok ([], e)
  pack type random e (x ∷ xs) = elim (encrypt ctr random e (x ∷ xs)) [
    | throw z ↦ throw z
    | ok (cipher, e') ↦ ok (segment type cipher e', e')
  ]

  -- The type that the serializer has afterwards, and the payload.
  unfoldable pub unpack : DataType → List ℕ → DataType × Result (List ℕ)
  unfolding decrypt read_uint32 of_byte
  unpack type bytes =
      if ltb (length bytes) header_size
      then (type, ok [])
      else (let iv = take block_size (drop 1 bytes) in
          let data_size = read_uint32 (take uint32_size (drop (1 + block_size) bytes)) in
          (
            of_byte (get_or bytes 0 0),
            if ltb (length bytes - header_size) data_size
                then throw invalid_argument
                else ok (decrypt ctr data_size (drop header_size bytes) iv),
          ))
