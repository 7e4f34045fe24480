-- ===== src/Process/Prompt.antt =====
-- SharedReadDataAccess.h when the receiver is never interrupted between posting the space and writing
-- the span.
use multithreading_io.Base.{
  ℕ, ◌≡◌, ◌≢◌, Bool, true, false, List, [], ◌∷◌, ◌++◌, append-nil, append_assoc, flatten, All,
  length, take-append, replicate, if◌then◌else◌, refl, ap, subst, sym, ◌∙◌, arith,
}
use multithreading_io.Process.{
  SharedState, Sender, fetch, wait_space, truncating, copying, post_data, stop_post, stop_try,
  sender_done, Receiver, top, try_data, mapping, post_space, deliver, receiver_done, Processes,
  launch, Side, interleave, sending, receiving, send, receive, advance,
}
use multithreading_io.Process.Invariant.{Inv, sender_token}
use multithreading_io.Process.Loss.{interleave-append}
use multithreading_io.Process.Handover.{ProcessesInv, launch-Inv, advance-Inv, all_mapped}

abbrev pub delivers : Receiver → Bool
delivers (deliver _) = true
delivers _ = false

-- The receiver writes its span before anything else happens.
unfoldable pub settle : Processes → Processes
settle s = if delivers s.receiver then advance receiving s else s

unfoldable pub run_prompt : List Side → Processes → Processes
unfolding settle
run_prompt [] s = s
run_prompt (t ∷ ts) s = run_prompt ts (settle (advance t s))

-- The output file against what has been mapped.
abbrev Exact : Receiver → SharedState → Type 0
Exact (post_space n) m = (n ≡ length m.memory) × (m.dest ++ m.memory ≡ flatten m.mapped)
Exact (deliver n) m = (n ≡ length m.memory) × (m.dest ++ m.memory ≡ flatten m.mapped)
Exact _ m = m.dest ≡ flatten m.mapped

flatten-snoc : (xs : List (List ℕ)) (x : List ℕ) → flatten (xs ++ (x ∷ [])) ≡ flatten xs ++ x
flatten-snoc [] x = append-nil x
flatten-snoc (y ∷ ys) x = ap (◌++◌ y) (flatten-snoc ys x) ∙ sym (append_assoc y (flatten ys) x)

fetch_kept :
    (source : List (List ℕ)) (m : SharedState)
    → m.source ≡ source
    → let m' = (send fetch m).1 in
      (m'.dest ≡ m.dest) × (m'.mapped ≡ m.mapped) × (m'.memory ≡ m.memory)
unfolding send
fetch_kept [] m e = ground arith
fetch_kept ([] ∷ cs) m e = ground arith
fetch_kept ((x ∷ xs) ∷ cs) m e = ground arith

send_kept :
    (p : Sender) (m : SharedState)
    → let m' = (send p m).1 in
      (m'.dest ≡ m.dest) × (m'.mapped ≡ m.mapped) × (sender_token p ≡ 0 → m'.memory ≡ m.memory)
unfolding send
send_kept fetch m = let (a, b, c) = fetch_kept m.source m refl in (a, b, λ _. c)
send_kept (wait_space c) m = (ground arith, ground arith, λ h. ground arith)
send_kept (truncating c) m = (refl, refl, λ h. absurd (omega arith))
send_kept (copying c) m = (refl, refl, λ h. absurd (omega arith))
send_kept post_data m = (refl, refl, λ h. refl)
send_kept stop_post m = (refl, refl, λ h. refl)
send_kept stop_try m = (ground arith, ground arith, λ h. ground arith)
send_kept sender_done m = (refl, refl, λ h. refl)

module _ {chunks : List (List ℕ)} {m : SharedState} {p : Sender} where
  send-Exact :
      (r : Receiver) → Inv chunks m p r → delivers r ≡ false → Exact r m → Exact r (send p m).1
  send-Exact (deliver n) v s e = ground (arith, s)
  send-Exact (post_space n) v s e = ground (arith, v.token, send_kept p m)
  send-Exact top v s e = ground (arith, send_kept p m)
  send-Exact try_data v s e = ground (arith, send_kept p m)
  send-Exact mapping v s e = ground (arith, send_kept p m)
  send-Exact receiver_done v s e = ground (arith, send_kept p m)

receive-Exact :
    (r : Receiver) (m : SharedState) → Exact r m → let (r', m') = receive r m in Exact r' m'
unfolding receive
receive-Exact top m e = ground arith
receive-Exact try_data m e = ground arith
receive-Exact mapping m e = ground (arith, flatten-snoc m.mapped m.memory)
receive-Exact (post_space n) m e = e
receive-Exact (deliver n) m e = ground (arith, take-append m.memory (replicate (length m.memory) 0))
receive-Exact receiver_done m e = e

record Settled (chunks : List (List ℕ)) (s : Processes) : Type 0 where
  inv : ProcessesInv chunks s
  exact : Exact s.receiver s.mem
  still : delivers s.receiver ≡ false

still_receive :
    (r : Receiver) (m : SharedState) → delivers r ≡ true → delivers (receive r m).0 ≡ false
unfolding receive
still_receive (deliver n) m h = refl
still_receive _ m h = absurd (ground (arith, h))

settle-Settled :
    {chunks : List (List ℕ)} (s : Processes)
    → ProcessesInv chunks s
    → Exact s.receiver s.mem
    → Settled chunks (settle s)
unfolding settle advance
settle-Settled {chunks} s v e = go (delivers s.receiver) refl
  where
    go : (b : Bool) → delivers s.receiver ≡ b → Settled chunks (settle s)
    go false h =
        subst (Settled chunks) (ground (arith, h)) (record { inv = v; exact = e; still = h })
    go true h = subst (Settled chunks) (ground (arith, h)) (record {
      inv = advance-Inv receiving v;
      exact = receive-Exact s.receiver s.mem e;
      still = still_receive s.receiver s.mem h;
    })

run_prompt-Settled :
    {chunks : List (List ℕ)} (ts : List Side) {s : Processes}
    → Settled chunks s
    → Settled chunks (run_prompt ts s)
unfolding run_prompt advance
run_prompt-Settled [] v = v
run_prompt-Settled (sending ∷ ts) {s} v =
    run_prompt-Settled ts
      (settle-Settled _ (advance-Inv sending v.inv) (send-Exact s.receiver v.inv v.still v.exact))
run_prompt-Settled (receiving ∷ ts) {s} v =
    run_prompt-Settled ts
      (settle-Settled _ (advance-Inv receiving v.inv) (receive-Exact s.receiver s.mem v.exact))

dest_at_end :
    {chunks : List (List ℕ)} {m : SharedState} (r : Receiver)
    → Inv chunks m sender_done r
    → delivers r ≡ false
    → Exact r m
    → m.dest ≡ flatten chunks
dest_at_end (deliver n) v s e = ground (arith, s)
dest_at_end (post_space n) v s e = absurd (omega (arith, v.token))
dest_at_end top v s e = e ∙ ap flatten (all_mapped v)
dest_at_end try_data v s e = e ∙ ap flatten (all_mapped v)
dest_at_end mapping v s e = e ∙ ap flatten (all_mapped v)
dest_at_end receiver_done v s e = e ∙ ap flatten (all_mapped v)

launch-Settled :
    (chunks : List (List ℕ)) → All (λ c. c ≢ []) chunks → Settled chunks (launch chunks)
unfolding launch
launch-Settled chunks ne = record { inv = launch-Inv chunks ne; exact = refl; still = refl }

-- What `settle` does is a step of the receiver or none.
settle-interleave : (s : Processes) → (us : List Side) × (settle s ≡ interleave us s)
unfolding settle interleave
settle-interleave s = go (delivers s.receiver) refl
  where
    go : (b : Bool) → delivers s.receiver ≡ b → (us : List Side) × (settle s ≡ interleave us s)
    go false h = ([], ground (arith, h))
    go true h = (receiving ∷ [], ground (arith, h))

run_prompt-interleave :
    (ts : List Side) (s : Processes) → (us : List Side) × (run_prompt ts s ≡ interleave us s)
unfolding run_prompt interleave
run_prompt-interleave [] s = ([], refl)
run_prompt-interleave (t ∷ ts) s =
    let (us, e) = settle-interleave (advance t s) in
    let (vs, f) = run_prompt-interleave ts (settle (advance t s)) in
    (t ∷ (us ++ vs), f ∙ ap (interleave vs) e ∙ sym (interleave-append us vs (advance t s)))

-- If each span is written to the file right after the receiver has posted the space, which is one of
-- the interleavings whatever the processes do otherwise, and the sending process has ended, then the
-- output file is the input file.
pub prompt_transfer :
    (chunks : List (List ℕ)) (ts : List Side)
    → All (λ c. c ≢ []) chunks
    → (run_prompt ts (launch chunks)).sender ≡ sender_done
    → ((us : List Side) × (run_prompt ts (launch chunks) ≡ interleave us (launch chunks)))
      × ((run_prompt ts (launch chunks)).mem.dest ≡ flatten chunks)
prompt_transfer chunks ts ne done =
    let v = run_prompt-Settled ts (launch-Settled chunks ne) in
    let s = run_prompt ts (launch chunks) in
    (
      run_prompt-interleave ts (launch chunks),
      dest_at_end s.receiver (subst (λ p. Inv chunks s.mem p s.receiver) done v.inv) v.still
          v.exact,
    )
