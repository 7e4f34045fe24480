-- ===== src/Network/Refused.antt =====
-- DataHandler.h on the spans that it does not take: a data segment before any name, and a segment of
-- which a part is missing.
use multithreading_io.Base.{
  ℕ, invalid_argument, take, ◌<◌, ◌≡◌, ◌≢◌, refl, none, List, [], ◌∷◌, ok, length, arith,
}
use multithreading_io.Wire.Cipher.{CtrMode, Encryption}
use multithreading_io.Wire.Serializer.{DataType, uint32_mod, file_data, pack}
use multithreading_io.Wire.Serializer.RoundTrip.{IsSent, IsPayload, unpack-pack, unpack-take-pack}
use multithreading_io.FileStream.Disk.{Disk}
use multithreading_io.Network.{DataHandler, failed, null_writer, handle_span, read_data}
use multithreading_io.Network.Session.{IsBlock}

module _ (ctr : CtrMode) where
  -- A data segment that comes before any name is a call through a null pointer, and nothing is
  -- written.
  pub data_before_name :
      (block : List ℕ) (e : Encryption) (chunk : List ℕ)
      → IsBlock block
      → IsPayload chunk
      → (h : DataHandler) (d : Disk) → h.data_writer ≡ none
      → (segment : List ℕ) × (read_data ctr (ok block) e chunk
          ≡ ok (segment, record { iv = block }))
        × (handle_span ctr segment h d ≡ (null_writer, record h { type = file_data }, d))
  unfolding read_data handle_span
  data_before_name block e [] hb p h d unset = absurd (p.some_bytes refl)
  data_before_name block e (c ∷ chunk) hb p h d unset =
      let (segment, packed, back) = unpack-pack ctr file_data block e (c ∷ chunk) tt hb p in
      (segment, packed, ground (arith, back h.type, unset))

  -- A segment of which only a part arrives makes the handler throw, and nothing is written.
  pub cut_span_fails :
      (type : DataType) (block : List ℕ) (e : Encryption) (plain segment : List ℕ) (n : ℕ)
      → IsSent type
      → IsBlock block
      → plain ≢ []
      → length plain < uint32_mod
      → pack ctr type (ok block) e plain ≡ ok (segment, record { iv = block })
      → n < length segment
      → (h : DataHandler) (d : Disk)
      → ((handle_span ctr (take n segment) h d).0 ≡ failed invalid_argument)
        × ((handle_span ctr (take n segment) h d).2 ≡ d)
  unfolding handle_span
  cut_span_fails type block e plain segment n sent hb ne short packed lt h d =
      ground
        (arith, unpack-take-pack ctr h.type type block e plain segment n sent hb ne short packed lt)
