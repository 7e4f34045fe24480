-- ===== src/Process/Copy.antt =====
-- MultiProcessTask.cpp with FileDataReader.h: a file on its way through the shared memory.
use multithreading_io.Base.{ℕ, List, [], ◌∷◌, ◌++◌, replicate}
use multithreading_io.Process.{Side, sending, receiving}
use multithreading_io.Process.Rounds.{one_chunk}

-- The processes take turns until the file is over.
abbrev turns : List (List ℕ) → List Side
turns [] = replicate 3 sending ++ (receiving ∷ [])
turns (c ∷ cs) = one_chunk ++ turns cs
