-- ===== src/Transfer/Script.antt =====
-- A reader and a writer whose behaviour is given in advance, to say what the tasks do with any: the
-- reader returns or throws what the script says next, and the writer throws on some spans.
use multithreading_io.Base.{
  ℕ, ◌+◌, Bool, true, false, Option, none, some, List, [], ◌∷◌, ◌++◌, Exception,
}
use multithreading_io.Transfer.{Outcome, done, thrown, M, WriteAccess, ReadAccess}

pub data Input : Type 0 where
  chunk : List ℕ → Input
  fails : Exception → Input

-- `sent` is what the writer has taken, `stops` the number of calls of `Stop`.
pub record Script : Type 0 where
  pub inputs : List Input
  pub sent : List (List ℕ)
  pub stops : ℕ

-- Behind the script the reader is at its end.
next_input : List Input → Script → Outcome (List ℕ) × Script
next_input [] w = (done [], w)
next_input (chunk c ∷ rest) w = (done c, record w { inputs = rest })
next_input (fails e ∷ rest) w = (thrown e, record w { inputs = rest })

unfoldable pub script_read : M Script (List ℕ)
unfolding next_input
script_read w = next_input w.inputs w

-- `refuses` says which spans the writer throws on.
unfoldable pub script_write : (List ℕ → Option Exception) → List ℕ → M Script (Unit {0})
script_write refuses c w = elim (refuses c) [
  | none ↦ (done tt, record w { sent = w.sent ++ (c ∷ []) })
  | some e ↦ (thrown e, w)
]

unfoldable pub script_stop : M Script (Unit {0})
script_stop w = (done tt, record w { stops = w.stops + 1 })

abbrev pub write_access : (List ℕ → Option Exception) → WriteAccess Script
write_access refuses = record { write = script_write refuses; stop = script_stop }

abbrev any_input : List Input → Bool
any_input [] = false
any_input (_ ∷ _) = true

-- It runs as long as there is something to read.
abbrev pub read_access : ReadAccess Script
read_access = record {
  read = script_read;
  stop = script_stop;
  is_running = λ w. (done (any_input w.inputs), w);
}
