-- ===== src/Network/Server/Failure.antt =====
-- NetworkTask.cpp, which catches exceptions outside `io_context::run`, when a bad span comes.
use multithreading_io.Base.{
  ℕ, ◌<◌, ◌≡◌, ◌≢◌, refl, true, List, [], ◌∷◌, ok, invalid_argument, Exception, length, take, arith,
}
use multithreading_io.Wire.Cipher.{CtrMode, Encryption}
use multithreading_io.Wire.Serializer.{DataType, pack, uint32_mod}
use multithreading_io.Wire.Serializer.RoundTrip.{IsSent}
use multithreading_io.Network.Session.{IsBlock}
use multithreading_io.Network.Refused.{cut_span_fails}
use multithreading_io.Network.Server.{
  bytes, Connection, Event, received, running, ended, Process, on_receive, deliver, on_event, serve,
}

serve-ended :
    (ctr : CtrMode) (es : List Event) (p : Process) (e : Exception)
    → p.status ≡ ended e
    → serve ctr es p ≡ p
unfolding serve
serve-ended ctr [] p e h = refl
serve-ended ctr (_ ∷ es) p e h = ground (arith, h)

-- If the client that was accepted last has a read outstanding and gets a segment of which only a part
-- has arrived, then the server ends for all clients, with nothing written, whatever events are still
-- to come.
pub cut_span_ends_server :
    (ctr : CtrMode) (type : DataType) (block : List ℕ) (e : Encryption) (plain segment : List ℕ)
    (n : ℕ)
    → IsSent type
    → IsBlock block
    → plain ≢ []
    → length plain < uint32_mod
    → pack ctr type (ok block) e plain ≡ ok (segment, record { iv = block })
    → n < length segment
    → (p : Process) (c : Connection) (cs : List Connection) (es : List Event) → p.status ≡ running
    → p.server.clients ≡ c ∷ cs
    → c.reading ≡ true
    → let q = serve ctr (received c.id (bytes (take n segment)) ∷ es) p in
      (q.status ≡ ended invalid_argument) × (q.disk ≡ p.disk)
unfolding serve on_event deliver on_receive
cut_span_ends_server ctr type block e plain segment n sent hb ne short packed lt p c cs es run first
      reading =
    ground (
      arith,
      run,
      first,
      reading,
      cut_span_fails ctr type block e plain segment n sent hb ne short packed lt c.handler p.disk,
      serve-ended ctr es (on_event ctr (received c.id (bytes (take n segment))) p.server p.disk)
          invalid_argument,
    )
