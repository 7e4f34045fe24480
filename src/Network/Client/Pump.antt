-- ===== src/Network/Client/Pump.antt =====
-- FileDataTransferTask.h over TCPClient.h: the loop over the chunks of a file.
use multithreading_io.Base.{
  ℕ, zero, suc, ◌+◌, ◌≡◌, ◌≢◌, Bool, true, List, [], ◌∷◌, Result, ok, length, refl, ap, sym, ◌∙◌,
  arith,
}
use multithreading_io.Wire.Cipher.{CtrMode, Encryption}
use multithreading_io.Wire.Serializer.{pack}
use multithreading_io.Command.{default_chunk_size}
use multithreading_io.FileStream.{FileDataReader, read, read_to_end}
use multithreading_io.Transfer.{
  done, M, ◌>>=◌, pump, run_data_transfer, run_name_transfer, run_file_transfer,
}
use multithreading_io.FileStream.Chunks.{read_to_end_lem, read_step, read_stop}
use multithreading_io.Network.{read_name, read_data, data_segments}
use multithreading_io.Network.Client.{
  stop, write, Sending, data_segment, name_segment, client_access, send_file,
}
use multithreading_io.Whole.{with_blocks, file_reader}
use multithreading_io.Network.Client.Writes.{write_all}

module _ (ctr : CtrMode) (random : ℕ → List ℕ) (accepts : List ℕ → List ℕ → ℕ) where
  abbrev pub blocks : ℕ → Result (List ℕ)
  blocks n = ok (random n)

  pub read_pump : ℕ → M Sending (Unit {0})
  read_pump fuel =
      data_segment ctr blocks accepts
      >>= pump fuel (client_access ctr blocks accepts) (data_segment ctr blocks accepts)

  read_data_some :
      (block : List ℕ) (e : Encryption) (x : ℕ) (xs : List ℕ)
      → (t : ℕ) × (ts : List ℕ) × (read_data ctr (ok block) e (x ∷ xs)
          ≡ ok (t ∷ ts, record { iv = block }))
  unfolding read_data pack
  read_data_some block e x xs = (_, _, refl)

  read_data_none : (block : List ℕ) (e : Encryption) → read_data ctr (ok block) e [] ≡ ok ([], e)
  unfolding read_data pack
  read_data_none block e = refl

  -- What the loop does until the file is over.
  pub record Sent (fuel : ℕ) (w : Sending) : Type 0 where
    pub segments : List (List ℕ)
    pub after : Sending
    pub sealed :
        data_segments ctr w.encryption
          (with_blocks random w.packs (read_to_end (suc fuel) w.reader).0)
        ≡ ok segments
    pub run : read_pump fuel w ≡ (done tt, after)
    pub client : after.client ≡ stop (write_all accepts segments w.client)

  read_pump_last : (fuel : ℕ) (w : Sending) → (read w.reader).0 ≡ [] → Sent fuel w
  unfolding read_pump pump data_segment data_segments write_all
  read_pump_last fuel w e = record {
    segments = [];
    after = record w { reader = (read w.reader).1; packs = w.packs + 1; client = stop w.client };
    sealed = ground (arith, read_stop fuel w.reader e);
    run = ground (arith, e, read_data_none (random w.packs) w.encryption);
    client = refl;
  }

  read_pump_next :
      (fuel : ℕ) (w : Sending) (x : ℕ) (xs : List ℕ)
      → (read w.reader).0 ≡ x ∷ xs
      → (t : ℕ) (ts : List ℕ)
      → read_data ctr (ok (random w.packs)) w.encryption (x ∷ xs)
        ≡ ok (t ∷ ts, record { iv = random w.packs })
      → read_pump (suc fuel) w
        ≡ read_pump fuel (record {
          reader = (read w.reader).1;
          encryption = record { iv = random w.packs };
          packs = suc w.packs;
          client = write accepts (t ∷ ts) w.client;
        })
  unfolding read_pump pump data_segment
  read_pump_next fuel w x xs e t ts sealed = ground (arith, e, sealed)

  not_over :
      (r : FileDataReader) (x : ℕ) (xs : List ℕ) → (read r).0 ≡ x ∷ xs → (read_to_end 1 r).1 ≢ true
  unfolding read_to_end
  not_over r x xs e over = ground (arith, e, over)

  pub pump_from :
      (fuel : ℕ) (w : Sending) (bytes : List ℕ)
      → (read w.reader).0 ≡ bytes
      → (read_to_end (suc fuel) w.reader).1 ≡ true
      → Sent fuel w
  unfolding write_all data_segments
  pump_from fuel w [] e over = read_pump_last fuel w e
  pump_from zero w (x ∷ xs) e over = absurd (not_over w.reader x xs e over)
  pump_from (suc fuel) w (x ∷ xs) e over =
      let (t, ts, one) = read_data_some (random w.packs) w.encryption x xs in
      let step =
        read_step (suc fuel) w.reader (read w.reader).1 (x ∷ xs) (ground (arith, e)) (λ h. cc) in
      let w₁ : Sending = record {
        reader = (read w.reader).1;
        encryption = record { iv = random w.packs };
        packs = suc w.packs;
        client = write accepts (t ∷ ts) w.client;
      } in
      let s =
        pump_from fuel w₁ (read w₁.reader).0 refl
          (sym (ap (λ (p : List (List ℕ) × Bool). p.1) step) ∙ over) in
      record {
        segments = (t ∷ ts) ∷ s.segments;
        after = s.after;
        sealed = ground (arith, step, one, s.sealed);
        run = read_pump_next fuel w x xs e t ts one ∙ s.run;
        client = s.client;
      }

  pub read_name_some :
      (block : List ℕ) (e : Encryption) (x : ℕ) (xs : List ℕ)
      → (t : ℕ) × (ts : List ℕ) × (read_name ctr (ok block) e (x ∷ xs)
          ≡ ok (t ∷ ts, record { iv = block }))
  unfolding read_name pack
  read_name_some block e x xs = (_, _, refl)

  -- The name goes first, then the chunks.
  pub send_file_next :
      (fuel : ℕ) (name : List ℕ) (w : Sending) (t : ℕ) (ts : List ℕ)
      → read_name ctr (ok (random w.packs)) w.encryption name
        ≡ ok (t ∷ ts, record { iv = random w.packs })
      → (s : Sent fuel (record w {
        encryption = record { iv = random w.packs };
        packs = suc w.packs;
        client = write accepts (t ∷ ts) w.client;
      }))
      → send_file ctr blocks accepts fuel name w ≡ (done tt, s.after)
  unfolding read_pump send_file run_file_transfer run_name_transfer run_data_transfer name_segment
  send_file_next fuel name w t ts sealed s = ground (arith, sealed, s.run)

  pub over_lem :
      (bytes : List ℕ) → (read_to_end (suc (length bytes + 1)) (file_reader bytes)).1 ≡ true
  over_lem bytes =
      (read_to_end_lem (suc (length bytes + 1)) default_chunk_size bytes (omega arith)
        (omega arith)).2
