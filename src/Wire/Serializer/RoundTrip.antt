-- ===== src/Wire/Serializer/RoundTrip.antt =====
-- Serializer.h: `Unpack` on what `Pack` returns, whole, in part and with more behind it.
use multithreading_io.Base.{
  ℕ, ◌+◌, ◌-◌, ◌%◌, ◌≤◌, ◌<◌, ◌≡◌, ◌≢◌, refl, ap, sym, ◌∙◌, List, [], ◌∷◌, ◌++◌, append-nil,
  take_all, ok, throw, invalid_argument, ltb, if◌then◌else◌, length, take, All, length-append,
  take-append_le, length-take, arith,
}
use native.Mathlib.Decide.{dec_lt}
use multithreading_io.Wire.Cipher.{
  CtrMode, default_crypto_key, Encryption, IsByte, block_size, decrypt,
}
use multithreading_io.Wire.Serializer.{
  DataType, to_byte, of_byte, empty, file_name, file_data, other, uint32_mod, header_size,
  uint32_bytes, read_uint32, pack, unpack,
}
use multithreading_io.Wire.Serializer.Layout.{
  message, message-append, take-message, message-iv, message-size, message-rest, message-length,
}

read_uint32_bytes : (n : ℕ) → n < uint32_mod → read_uint32 (uint32_bytes n) ≡ n
unfolding read_uint32 uint32_bytes
read_uint32_bytes n h = omega arith

-- The types that the program sends.
abbrev pub IsSent : DataType → Type 0
IsSent (other _) = ⊥
IsSent _ = Unit

of_byte-to_byte : (t : DataType) → IsSent t → of_byte (to_byte t) ≡ t
unfolding of_byte to_byte
of_byte-to_byte empty h = refl
of_byte-to_byte file_name h = refl
of_byte-to_byte file_data h = refl
of_byte-to_byte (other n) h = absurd h

module _ (ctr : CtrMode) where
  -- What the header says of the payload behind it.
  unpack-message :
      (before type : DataType) (iv payload : List ℕ) (n : ℕ)
      → IsSent type
      → length iv ≡ block_size
      → n < uint32_mod
      → unpack ctr before (message (to_byte type) iv (uint32_bytes n) payload) ≡ (
        type,
        if ltb (length payload) n then throw invalid_argument else ok (decrypt ctr n payload iv),
      )
  unfolding unpack uint32_bytes
  unpack-message before type iv payload n sent hiv h = ground (
    arith,
    message-length (to_byte type) iv (uint32_bytes n) payload hiv refl,
    message-iv (to_byte type) iv (uint32_bytes n) payload hiv refl,
    message-size (to_byte type) iv (uint32_bytes n) payload hiv refl,
    message-rest (to_byte type) iv (uint32_bytes n) payload hiv refl,
    read_uint32_bytes n h,
    of_byte-to_byte type sent,
  )

module _ (ctr : CtrMode) where
  open ctr use {encryption, decryption, length-encryption, decryption-encryption, decryption-take}

  cipher_of : List ℕ → List ℕ → List ℕ
  cipher_of block plain = encryption default_crypto_key block plain

  pack_lem :
      (type : DataType) (block : List ℕ) (e : Encryption) (data' : List ℕ)
      → data' ≢ []
      → pack ctr type (ok block) e data'
        ≡ ok (
          message
              (to_byte type)
              block
              (uint32_bytes (length (cipher_of block data') % uint32_mod))
              (cipher_of block data'),
          record { iv = block },
        )
  unfolding pack cipher_of uint32_bytes
  pack_lem type block e [] h = absurd (h refl)
  pack_lem type block e (x ∷ xs) h = refl

  decrypt-cipher_of :
      (block plain rest : List ℕ) (n : ℕ)
      → All IsByte plain
      → n ≤ length plain
      → decrypt ctr n (cipher_of block plain ++ rest) block ≡ take n plain
  unfolding decrypt cipher_of
  decrypt-cipher_of block plain rest n bytes h =
      ap (decryption default_crypto_key block) (
        take-append_le n (encryption default_crypto_key block plain) rest
          (omega (arith, length-encryption default_crypto_key block plain)))
      ∙ decryption-take n default_crypto_key block (encryption default_crypto_key block plain)
      ∙ ap (take n) (decryption-encryption default_crypto_key block plain bytes)

  -- A segment is read back with its type whatever the serializer held before, and whatever follows
  -- it in the same span is ignored. Of data that the 32-bit size cannot hold only the first
  -- `size % 2 ^ 32` bytes come back.
  pub unpack-pack_append :
      (type : DataType) (block : List ℕ) (e : Encryption) (plain : List ℕ)
      → IsSent type
      → length block ≡ block_size
      → plain ≢ []
      → All IsByte plain
      → (segment : List ℕ) × (pack ctr type (ok block) e plain
          ≡ ok (segment, record { iv = block }))
        × (length segment ≡ header_size + length plain)
        × ((before : DataType) (rest : List ℕ)
            → unpack ctr before (segment ++ rest)
              ≡ (type, ok (take (length plain % uint32_mod) plain)))
  unfolding cipher_of uint32_bytes
  unpack-pack_append type block e plain sent hb ne bytes =
      let c = cipher_of block plain in
      let n = length c % uint32_mod in
      let lc : length c ≡ length plain = length-encryption default_crypto_key block plain in
      (
        message (to_byte type) block (uint32_bytes n) c,
        pack_lem type block e plain ne,
        omega (arith, message-length (to_byte type) block (uint32_bytes n) c hb refl, lc),
        λ before rest.
            ap (unpack ctr before) (message-append (to_byte type) block (uint32_bytes n) c rest)
            ∙ unpack-message ctr before type block (c ++ rest) n sent hb (omega arith)
            ∙ ground (
              arith,
              lc,
              length-append c rest,
              decrypt-cipher_of block plain rest (length plain % uint32_mod),
              bytes,
            ),
      )

  unpack_short :
      (before : DataType) (bytes : List ℕ)
      → length bytes < header_size
      → unpack ctr before bytes ≡ (before, ok [])
  unfolding unpack
  unpack_short before bytes h = ground arith

  -- A segment that arrives in part is not put together: less than the header is read as no data, and
  -- anything from there up to the last byte but one is an error, after which the serializer has the
  -- type of the segment.
  pub unpack-take-pack :
      (before type : DataType) (block : List ℕ) (e : Encryption) (plain bytes : List ℕ) (n : ℕ)
      → IsSent type
      → length block ≡ block_size
      → plain ≢ []
      → length plain < uint32_mod
      → pack ctr type (ok block) e plain ≡ ok (bytes, record { iv = block })
      → n < length bytes
      → unpack ctr before (take n bytes)
        ≡ (if ltb n header_size then (before, ok []) else (type, throw invalid_argument))
  unfolding cipher_of uint32_bytes
  unpack-take-pack before type block e plain bytes n sent hb ne h packed lt =
      elim (dec_lt n header_size) [
        | yes less ↦ ground (arith, unpack_short before (take n bytes), length-take n bytes)
        | no more ↦ ground (
          arith,
          whole,
          lc,
          message-length (to_byte type) block (uint32_bytes k) c hb refl,
          take-message (to_byte type) block (uint32_bytes k) c n hb refl,
          unpack-message ctr before type block (take (n - header_size) c) k sent hb,
          length-take (n - header_size) c,
        )
      ]
    where
      c : List ℕ
      c = cipher_of block plain

      k : ℕ
      k = length c % uint32_mod

      lc : length c ≡ length plain
      lc = length-encryption default_crypto_key block plain

      whole : bytes ≡ message (to_byte type) block (uint32_bytes k) c
      whole = ground (arith, packed, pack_lem type block e plain ne)

-- A plain text that one segment can carry.
pub record IsPayload (plain : List ℕ) : Type 0 where
  pub some_bytes : plain ≢ []
  pub bytes : All IsByte plain
  pub short : length plain < uint32_mod

-- A segment that arrives whole and alone is read back as it was.
pub unpack-pack :
    (ctr : CtrMode) (type : DataType) (block : List ℕ) (e : Encryption) (plain : List ℕ)
    → IsSent type
    → length block ≡ block_size
    → IsPayload plain
    → (segment : List ℕ) × (pack ctr type (ok block) e plain ≡ ok (segment, record { iv = block }))
      × ((before : DataType) → unpack ctr before segment ≡ (type, ok plain))
unpack-pack ctr type block e plain sent hb p =
    let (segment, packed, size, back) =
      unpack-pack_append ctr type block e plain sent hb p.some_bytes p.bytes in
    (
      segment,
      packed,
      λ before.
          ap (unpack ctr before) (sym (append-nil segment))
          ∙ back before []
          ∙ ap (λ l. (type, ok l))
              (take_all (length plain % uint32_mod) plain (omega (arith, p.short))),
    )
