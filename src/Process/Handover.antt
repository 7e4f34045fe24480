-- ===== src/Process/Handover.antt =====
-- SharedWriteDataAccess.h against SharedReadDataAccess.h: what the semaphores see to, under every
-- interleaving of the two processes.
use multithreading_io.Base.{
  ℕ, ◌+◌, ◌≡◌, subst, Bool, true, false, ◌&&◌, ◌≢◌, List, [], ◌∷◌, ◌++◌, append-nil, flatten, All,
  length, refl, arith,
}
use multithreading_io.Process.{
  SharedState, Sender, truncating, copying, post_data, sender_done, Receiver, mapping, Processes,
  launch, Side, sending, receiving, advance, interleave,
}
use multithreading_io.Process.Invariant.{
  Inv, held, pending, in_span, send-Inv, receive-Inv, none_pending,
}

abbrev pub ProcessesInv : List (List ℕ) → Processes → Type 0
ProcessesInv chunks s = Inv chunks s.mem s.sender s.receiver

pub launch-Inv :
    (chunks : List (List ℕ)) → All (λ c. c ≢ []) chunks → ProcessesInv chunks (launch chunks)
unfolding launch
launch-Inv chunks ne = record {
  token = refl;
  sender = tt;
  nonempty = ne;
  exhausted = λ e. cc;
  stops = λ h. absurd (omega arith);
  ends = λ e. cc;
  account = refl;
  size = refl;
}

pub advance-Inv :
    {chunks : List (List ℕ)} (t : Side) {s : Processes}
    → ProcessesInv chunks s
    → ProcessesInv chunks (advance t s)
unfolding advance
advance-Inv sending {s} v = send-Inv s.sender v
advance-Inv receiving {s} v = receive-Inv s.receiver v

pub interleave-Inv :
    {chunks : List (List ℕ)} (ts : List Side) {s : Processes}
    → ProcessesInv chunks s
    → ProcessesInv chunks (interleave ts s)
unfolding interleave
interleave-Inv [] v = v
interleave-Inv (t ∷ ts) v = interleave-Inv ts (advance-Inv t v)

-- The sender is changing the shared memory, or about to say that it has.
abbrev pub is_writing : Sender → Bool
is_writing (truncating _) = true
is_writing (copying _) = true
is_writing post_data = true
is_writing _ = false

abbrev pub is_mapping : Receiver → Bool
is_mapping mapping = true
is_mapping _ = false

not_both :
    {chunks : List (List ℕ)} {m : SharedState} (p : Sender) (r : Receiver)
    → Inv chunks m p r
    → is_writing p && is_mapping r ≡ false
not_both (truncating _) mapping v = absurd (omega (arith, v.token))
not_both (copying _) mapping v = absurd (omega (arith, v.token))
not_both post_data mapping v = absurd (omega (arith, v.token))
not_both p mapping v = refl
not_both p r v = refl

pub all_mapped :
    {chunks : List (List ℕ)} {m : SharedState} {r : Receiver}
    → Inv chunks m sender_done r
    → m.mapped ≡ chunks
all_mapped {chunks} {m} {r} v = ground (
  arith,
  v.account,
  v.token,
  v.exhausted refl,
  none_pending r m.available m.memory,
  append-nil m.mapped,
)

module _ (chunks : List (List ℕ)) (nonempty : All (λ c. c ≢ []) chunks) (ts : List Side) where
  abbrev reached : Processes
  reached = interleave ts (launch chunks)

  reached-Inv : ProcessesInv chunks reached
  reached-Inv = interleave-Inv ts (launch-Inv chunks nonempty)

  -- After any interleaving of the two processes over a file read in non-empty chunks: the chunks that
  -- the receiver has mapped, the one that waits in the shared memory, the one in the sender's hands
  -- and the rest of the file are, in this order, the chunks of the file, and the output file and the
  -- span in the receiver's hands have together as many bytes as the chunks that it has mapped.
  pub chunks_accounted :
      let s = interleave ts (launch chunks) in
      (s.mem.mapped
          ++ (pending s.receiver s.mem.available s.mem.memory
              ++ (held s.sender s.mem.memory ++ s.mem.source))
        ≡ chunks)
      × (length s.mem.dest + in_span s.receiver ≡ length (flatten s.mem.mapped))
  chunks_accounted = (reached-Inv.account, reached-Inv.size)

  -- After any interleaving, while the receiver maps the memory to read a chunk, the sender is not
  -- writing one.
  pub map_undisturbed :
      let s = interleave ts (launch chunks) in is_writing s.sender && is_mapping s.receiver ≡ false
  map_undisturbed = not_both reached.sender reached.receiver reached-Inv

  -- If the sending process has ended, after any interleaving, then the receiver has mapped every chunk
  -- of the file, each once and in order.
  pub sender_done_complete :
      (interleave ts (launch chunks)).sender ≡ sender_done
      → (interleave ts (launch chunks)).mem.mapped ≡ chunks
  sender_done_complete e =
      all_mapped (subst (λ p. Inv chunks reached.mem p reached.receiver) e reached-Inv)
