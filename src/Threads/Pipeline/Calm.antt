-- ===== src/Threads/Pipeline/Calm.antt =====
-- States of the two threads in which the reading thread can go on, and runs put together.
use multithreading_io.Base.{ℕ, ◌<◌, ◌≡◌, true, List, [], ◌∷◌, ◌++◌, refl, ap, ◌∙◌}
use multithreading_io.Threads.Buffer.{get_data_size}
use multithreading_io.Threads.Buffer.Bounds.{IsBounded}
use multithreading_io.Threads.Pipeline.{Shared, Producer, Consumer, System, Thread, step, run}
use multithreading_io.Threads.Pipeline.Invariant.{lost}

-- Both flags let the reading thread go on; `gone` has been dropped before.
pub record CalmAfter (gone : List ℕ) (capacity size : ℕ) (source : List (List ℕ)) (dest : List ℕ)
    (m : Shared) : Type 0 where
  pub bounded : IsBounded m.buffer
  pub same : m.buffer.capacity ≡ capacity
  pub holds : get_data_size m.buffer ≡ size
  pub running : m.running ≡ true
  pub writing : m.buffer.state.writing_enabled ≡ true
  pub rest : m.source ≡ source
  pub out : m.dest ≡ dest
  pub reading : 0 < size → m.buffer.state.reading_enabled ≡ true
  pub missing : lost m.log ≡ gone

-- The same without a word on writing: what the writing thread finds.
pub record Loaded (gone : List ℕ) (capacity size : ℕ) (source : List (List ℕ)) (dest : List ℕ)
    (m : Shared) : Type 0 where
  pub bounded : IsBounded m.buffer
  pub same : m.buffer.capacity ≡ capacity
  pub holds : get_data_size m.buffer ≡ size
  pub running : m.running ≡ true
  pub rest : m.source ≡ source
  pub out : m.dest ≡ dest
  pub missing : lost m.log ≡ gone

pub CalmAfter-Loaded :
    {gone : List ℕ} {capacity size : ℕ} {source : List (List ℕ)} {dest : List ℕ} {m : Shared}
    → CalmAfter gone capacity size source dest m
    → Loaded gone capacity size source dest m
CalmAfter-Loaded v = record {
  bounded = v.bounded;
  same = v.same;
  holds = v.holds;
  running = v.running;
  rest = v.rest;
  out = v.out;
  missing = v.missing;
}

abbrev pub Calm : ℕ → ℕ → List (List ℕ) → List ℕ → Shared → Type 0
Calm = CalmAfter []

abbrev pub system : Shared → Producer → Consumer → System
system m p c = record { mem = m; producer = p; consumer = c }

pub run-append : (ts us : List Thread) (s : System) → run (ts ++ us) s ≡ run us (run ts s)
unfolding run
run-append [] us s = refl
run-append (t ∷ ts) us s = run-append ts us (step t s)

pub run_chain :
    (ts us : List Thread) (s : System) {t u : System}
    → run ts s ≡ t
    → run us t ≡ u
    → run (ts ++ us) s ≡ u
run_chain ts us s e f = run-append ts us s ∙ ap (run us) e ∙ f
