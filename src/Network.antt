-- ===== src/Network.antt =====
-- multy/src/Network/DataHandler.h and the segment readers of multy/src/FileStream: what the client
-- sends for a file, and what the server does with a span that arrives.
pub mod Folders
pub mod Agree
pub mod Home
pub mod Alone
pub mod Session
pub mod Refused
pub mod Client
pub mod Server
use multithreading_io.Base.{
  ℕ, zero, suc, ◌+◌, ◌/◌, ◌%◌, Bool, true, false, Option, none, some, List, [], ◌∷◌, ◌++◌, Result,
  ok, throw, invalid_argument, runtime_error, Exception, ltb, if◌then◌else◌, ◌>>=◌,
}
use multithreading_io.Wire.Cipher.{CtrMode, Encryption, codes}
use multithreading_io.Wire.Serializer.{DataType, empty, file_name, file_data, other, pack, unpack}
use multithreading_io.FileStream.Disk.{Disk, FilePath}
use multithreading_io.FileStream.Writer.{FileDataWriter, create_writer, write_file}

-- `std::to_string`: decimal digits.
to_string_fuel : ℕ → ℕ → List ℕ → List ℕ
to_string_fuel zero n acc = acc
to_string_fuel (suc fuel) n acc =
    let digits = (b'0' + n % 10) ∷ acc in
    let more = to_string_fuel fuel (n / 10) digits in if ltb n 10 then digits else more

unfoldable pub to_string : ℕ → List ℕ
unfolding to_string_fuel
to_string n = to_string_fuel (suc n) n []

-- The server keeps one handler for each connection. `type` is the state of its serializer; the
-- handler has no writer until it has been sent a file name.
pub record DataHandler : Type 0 where
  pub id : ℕ
  pub type : DataType
  pub data_writer : Option FileDataWriter

abbrev pub new_handler : ℕ → DataHandler
new_handler id = record { id = id; type = empty; data_writer = none }

unfoldable pub client_folder : ℕ → FilePath
client_folder id = codes "client_" ++ to_string id

-- `null_writer` is the call of `Write` through the null pointer `dataWriter_`.
pub data Reply : Type 0 where
  handled : Reply
  failed : Exception → Reply
  null_writer : Reply

-- `HandleFileName`; its own check for an empty name stands first.
handle_file_name : List ℕ → DataHandler → Disk → Reply × DataHandler × Disk
handle_file_name [] h d = (failed invalid_argument, h, d)
handle_file_name (c ∷ name) h d =
    let (r, d') = create_writer (c ∷ name) (client_folder h.id) d in
    elim r [ ok w ↦ (handled, record h { data_writer = some w }, d') | throw e ↦ (failed e, h, d') ]

-- `HandleFileData`; `FileDataWriter::Write` throws nothing.
handle_file_data : List ℕ → Option FileDataWriter → DataHandler → Disk → Reply × DataHandler × Disk
handle_file_data bytes none h d = (null_writer, h, d)
handle_file_data bytes (some w) h d = (handled, h, write_file w bytes d)

dispatch : DataType → List ℕ → DataHandler → Disk → Reply × DataHandler × Disk
dispatch file_name bytes h d = handle_file_name bytes h d
dispatch file_data bytes h d = handle_file_data bytes h.data_writer h d
dispatch empty bytes h d = (handled, h, d)
dispatch (other _) bytes h d = (handled, h, d)

after_unpack : DataType → Result (List ℕ) → DataHandler → Disk → Reply × DataHandler × Disk
after_unpack type (throw e) h d = (failed e, record h { type = type }, d)
after_unpack type (ok []) h d = (failed invalid_argument, record h { type = type }, d)
after_unpack type (ok (x ∷ xs)) h d = dispatch type (x ∷ xs) (record h { type = type }) d

module _ (ctr : CtrMode) where
  -- `DataHandler::Write`.
  unfoldable pub handle_span : List ℕ → DataHandler → Disk → Reply × DataHandler × Disk
  unfolding after_unpack dispatch handle_file_name handle_file_data client_folder
  handle_span span h d = let (type, r) = unpack ctr h.type span in after_unpack type r h d

  -- A connection's spans one after the other. An exception leaves the loop.
  unfoldable pub handle_spans : List (List ℕ) → DataHandler → Disk → Reply × DataHandler × Disk
  handle_spans [] h d = (handled, h, d)
  handle_spans (span ∷ spans) h d =
      let (r, h', d') = handle_span span h d in
      let rest = handle_spans spans h' d' in
      elim r [
        | handled ↦ rest
        | failed e ↦ (failed e, h', d')
        | null_writer ↦ (null_writer, h', d')
      ]

  -- `FileNameSegmentReader`: its constructor's checks, and `Read`. `present` is `fs::exists`.
  unfoldable pub create_name_reader : (FilePath → Bool) → FilePath → Result FilePath
  create_name_reader present [] = throw invalid_argument
  create_name_reader present (c ∷ name) =
      if present (c ∷ name) then ok (c ∷ name) else throw runtime_error

  unfoldable pub read_name : Result (List ℕ) → Encryption → FilePath → Result (List ℕ × Encryption)
  read_name random e name = pack ctr file_name random e name

  -- `FileDataSegmentReader::Read` on the chunk that the reader inside has returned.
  unfoldable pub read_data : Result (List ℕ) → Encryption → List ℕ → Result (List ℕ × Encryption)
  read_data random e chunk = pack ctr file_data random e chunk

  -- The segments of a whole file: each chunk comes with the block that the generator gives for it.
  unfoldable pub data_segments : Encryption → List (List ℕ × List ℕ) → Result (List (List ℕ))
  data_segments e [] = ok []
  data_segments e ((block, chunk) ∷ rest) = read_data (ok block) e chunk >>= λ r.
      data_segments r.1 rest >>= λ segments. ok (r.0 ∷ segments)
