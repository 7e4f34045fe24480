-- ===== src/Wire/Cipher.antt =====
-- multy/src/common/Encryption.h and multy/src/Network/Encryption.cpp over Crypto++.
use Prim.Native.Char.{code}
use Prim.Native.String.{String}
use multithreading_io.Base.{
  ℕ, ◌<◌, ◌≡◌, List, [], ◌∷◌, All, Result, ok, throw, invalid_argument, length, take,
}

abbrev pub IsByte : ℕ → Type 0
IsByte x = x < 256

-- The code points of a text: its bytes, as all texts here are ASCII.
abbrev pub codes : String → List ℕ
codes String.[] = []
codes (String.◌∷◌ c s) = code c ∷ codes s

-- CTR mode of AES in Crypto++: `encryption key iv` and `decryption key iv` are `ProcessData` on an
-- object with that key after `Resynchronize(iv)`. The laws are those of a stream cipher: a byte for
-- a byte, decryption undoes encryption under the same key and iv, and the bytes in front do not
-- depend on those behind them.
pub record CtrMode : Type 0 where
  pub encryption : List ℕ → List ℕ → List ℕ → List ℕ
  pub decryption : List ℕ → List ℕ → List ℕ → List ℕ
  pub length-encryption : (key iv plain : List ℕ) → length (encryption key iv plain) ≡ length plain
  pub decryption-encryption :
      (key iv plain : List ℕ)
      → All IsByte plain
      → decryption key iv (encryption key iv plain) ≡ plain
  pub decryption-take :
      (n : ℕ) (key iv cipher : List ℕ)
      → decryption key iv (take n cipher) ≡ take n (decryption key iv cipher)

abbrev pub block_size : ℕ
block_size = 16

abbrev pub default_crypto_key : List ℕ
default_crypto_key = codes "7D9BB722DA2DC8674E08C3D44AAE976F"

abbrev pub init_iv : List ℕ
init_iv = codes "37C6D22FADE22B2D924598BEE2455EFC"

-- `_iv`; the key never changes.
pub record Encryption : Type 0 where
  pub iv : List ℕ

-- The constructor copies one block of `InitIV`.
unfoldable pub new_encryption : Encryption
new_encryption = record { iv = take block_size init_iv }

unfoldable pub get_iv : Encryption → List ℕ
get_iv e = e.iv

module _ (ctr : CtrMode) where
  -- `random` is what `GenerateBlock` gives: a block, or a Crypto++ exception. The cipher text has the
  -- size of the plain text, which is what both callers provide room for.
  unfoldable pub encrypt : Result (List ℕ) → Encryption → List ℕ → Result (List ℕ × Encryption)
  encrypt (ok block) e plain =
      ok (ctr.encryption default_crypto_key block plain, record e { iv = block })
  encrypt (throw _) e plain = throw invalid_argument

  -- As many bytes as `recovered` has room for.
  unfoldable pub decrypt : ℕ → List ℕ → List ℕ → List ℕ
  decrypt size cipher iv = ctr.decryption default_crypto_key iv (take size cipher)
