-- ===== src/Process/Rounds.antt =====
-- SharedWriteDataAccess.h and SharedReadDataAccess.h when the processes take turns, chunk by chunk.
use multithreading_io.Base.{ℕ, ◌≡◌, List, [], ◌∷◌, ◌++◌, length, replicate, refl, ap, ◌∙◌}
use multithreading_io.Process.{SharedState, fetch, top, Side, sending, receiving, interleave}
use multithreading_io.Process.Loss.{
  processes, chain, hand_over, take_over, deliver_lem, resize_self,
}

-- The memory between two turns.
abbrev pub ready : List ℕ → List (List ℕ) → List ℕ → List (List ℕ) → SharedState
ready memory source dest mapped = record {
  space = 1;
  available = 0;
  stop = 0;
  memory = memory;
  source = source;
  dest = dest;
  mapped = mapped;
}

-- A chunk is handed over, taken over and written to the file.
unfoldable pub one_chunk : List Side
one_chunk = replicate 5 sending ++ (replicate 4 receiving ++ (receiving ∷ []))

pub one_chunk_lem :
    (x : ℕ) (xs : List ℕ) (rest : List (List ℕ)) (memory dest : List ℕ) (mapped : List (List ℕ))
    → interleave one_chunk (processes (ready memory ((x ∷ xs) ∷ rest) dest mapped) fetch top)
      ≡ processes (ready (x ∷ xs) rest (dest ++ (x ∷ xs)) (mapped ++ ((x ∷ xs) ∷ []))) fetch top
unfolding one_chunk
one_chunk_lem x xs rest memory dest mapped =
    chain _ _ _ (hand_over x xs rest (ready memory ((x ∷ xs) ∷ rest) dest mapped) top refl refl) (
      chain _ _ _ (take_over _ fetch refl refl) (
        deliver_lem _ fetch (length (x ∷ xs))
        ∙ ap
            (λ l. processes (ready (x ∷ xs) rest (dest ++ l) (mapped ++ ((x ∷ xs) ∷ []))) fetch top)
            (resize_self (x ∷ xs))))
