-- ===== src/Process/Restart.antt =====
-- SharedWriteDataAccess.h and SharedReadDataAccess.h on semaphores that are there already.
use multithreading_io.Base.{ℕ, ◌≡◌, ◌≢◌, true, List, [], ◌∷◌, refl, subst, arith}
use multithreading_io.Process.{
  SharedState, Sender, fetch, wait_space, sender_done, Receiver, top, try_data, receiver_done,
  Processes, launch, Side, sending, receiving, send, receive, advance, interleave,
}
use multithreading_io.Process.Role.{Mutexes}
use multithreading_io.Process.Names.{
  Names, Permits, create_write_handler, create_write_access, create_read_handler,
  create_read_access, create_process, destroy_process, signal_handler, names_of, launch_with,
}

abbrev pub granted : Permits
granted = record { stop = true; available = true; space = true; memory = true }

-- A process that opens the names that two others have left.
abbrev pub reopened : Names → Names
reopened n = (create_process granted n).1

-- The sender waits for its first space, and the receiver for its first chunk.
abbrev SenderWaits : Sender → SharedState → Type 0
SenderWaits fetch m =
    (x : ℕ) × (xs : List ℕ) × (rest : List (List ℕ)) × (m.source ≡ (x ∷ xs) ∷ rest)
SenderWaits (wait_space c) m = Unit
SenderWaits _ m = ⊥

abbrev ReceiverWaits : Receiver → Type 0
ReceiverWaits top = Unit
ReceiverWaits try_data = Unit
ReceiverWaits _ = ⊥

record Blocked (m : SharedState) (p : Sender) (r : Receiver) : Type 0 where
  space : m.space ≡ 0
  available : m.available ≡ 0
  stop : m.stop ≡ 0
  dest : m.dest ≡ []
  sender : SenderWaits p m
  receiver : ReceiverWaits r

send-Blocked :
    (p : Sender) {m : SharedState} {r : Receiver}
    → Blocked m p r
    → let (p', m') = send p m in Blocked m' p' r
unfolding send
send-Blocked fetch v = let (x, xs, rest, e) = v.sender in ground (arith, e)
send-Blocked (wait_space c) v = ground arith
send-Blocked _ v = absurd v.sender

receive-Blocked :
    (r : Receiver) {m : SharedState} (p : Sender)
    → Blocked m p r
    → let (r', m') = receive r m in Blocked m' p r'
unfolding receive
receive-Blocked top p v = ground arith
receive-Blocked try_data p v = ground arith
receive-Blocked _ p v = absurd v.receiver

interleave-Blocked :
    (us : List Side) (s : Processes)
    → Blocked s.mem s.sender s.receiver
    → let s' = interleave us s in Blocked s'.mem s'.sender s'.receiver
unfolding interleave advance
interleave-Blocked [] s v = v
interleave-Blocked (sending ∷ us) s v =
    interleave-Blocked us (advance sending s) (send-Blocked s.sender v)
interleave-Blocked (receiving ∷ us) s v =
    interleave-Blocked us (advance receiving s) (receive-Blocked s.receiver s.sender v)

waits-not-done : (p : Sender) (m : SharedState) → SenderWaits p m → p ≢ sender_done
waits-not-done p m w e = subst (λ q. SenderWaits q m) e w

receiver-not-done : (r : Receiver) → ReceiverWaits r → r ≢ receiver_done
receiver-not-done r w e = subst ReceiverWaits e w

-- After two processes have ended by themselves, two new ones start as the first ones did. If the two
-- are interrupted by SIGINT in any state in which neither the space semaphore nor the others have a
-- count, then two new processes, on any file with something in it, never get anywhere: under every
-- interleaving neither ends, and the output file stays empty.
pub leftover_blocks :
    (s : Processes) (x₀ : Mutexes) (x : ℕ) (xs : List ℕ) (rest : List (List ℕ)) (us : List Side)
    → s.mem.space ≡ 0
    → s.mem.available ≡ 0
    → s.mem.stop ≡ 0
    → let chunks = (x ∷ xs) ∷ rest in
      let r = signal_handler true (x₀, names_of s.mem) in
      let left = (signal_handler true (r.1, r.2)).2 in
      let s' = interleave us (launch_with (reopened (reopened left)) chunks) in
      (launch_with (reopened (reopened (destroy_process (destroy_process (names_of s.mem))))) chunks
        ≡ launch chunks)
      × (s'.sender ≢ sender_done)
      × (s'.receiver ≢ receiver_done)
      × (s'.mem.dest ≡ [])
unfolding launch_with launch create_process create_write_handler create_write_access
    create_read_handler create_read_access destroy_process signal_handler names_of
leftover_blocks s x₀ x xs rest us h k l =
    let r = signal_handler true (x₀, names_of s.mem) in
    let left = (signal_handler true (r.1, r.2)).2 in
    let s₀ = launch_with (reopened (reopened left)) ((x ∷ xs) ∷ rest) in
    let v = interleave-Blocked us s₀ (record {
      space = h;
      available = k;
      stop = l;
      dest = refl;
      sender = (x, xs, rest, refl);
      receiver = tt;
    }) in
    let s' = interleave us s₀ in
    (
      refl,
      waits-not-done s'.sender s'.mem v.sender,
      receiver-not-done s'.receiver v.receiver,
      v.dest,
    )
